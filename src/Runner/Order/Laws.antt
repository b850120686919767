-- ===== src/Runner/Order/Laws.antt =====
-- src/workflow-runner.ts: the order that `orderSteps` returns.
use mathlib.Core.List.{Perm}
use mathlib.Core.List.Perm
use ensen_flow.Common.{
  ℕ, zero, suc, String, Bool, true, false, ◌≡◌, refl, inl, inr, ◌∙◌, sym, ap, some, List, [], ◌∷◌,
  ◌++◌, arith, length, find?, Bool-cases, Option-cases, ok, ◌==◌, ◌||◌, subst, eq_iff, append-nil,
  append_assoc,
}
use ensen_flow.Definition.{WorkflowStep}
use ensen_flow.Runner.Order.{
  has_id, set_step, map_of_steps, delete_step, is_ready, order_loop, order_steps,
}

-- no two steps have the same id
abbrev pub UniqueIds : List WorkflowStep → Type 0
UniqueIds [] = Unit
UniqueIds (s ∷ ss) = (has_id s.id ss ≡ false) × UniqueIds ss

-- every step comes after the steps that it depends on, those of `before` included
abbrev pub DependenciesFirst : List WorkflowStep → List WorkflowStep → Type 0
DependenciesFirst before [] = Unit
DependenciesFirst before (s ∷ ss) =
    (is_ready before s ≡ true) × DependenciesFirst (before ++ s ∷ []) ss

pub has_id-append :
    (id : String) (xs ys : List WorkflowStep)
    → has_id id (xs ++ ys) ≡ (has_id id xs || has_id id ys)
unfolding has_id
has_id-append id [] ys = refl
has_id-append id (x ∷ xs) ys = ground (arith, has_id-append id xs ys)

find?-is_ready :
    (before xs : List WorkflowStep) (a : WorkflowStep)
    → find? (is_ready before) xs ≡ some a
    → is_ready before a ≡ true
find?-is_ready before [] a h = cc
find?-is_ready before (x ∷ xs) a h = elim (Bool-cases (is_ready before x)) [
  | inl e ↦ let same : x ≡ a = ground arith in rw (← same) e
  | inr e ↦ find?-is_ready before xs a (ground arith)
]

pub find?-has_id :
    (p : WorkflowStep → Bool) (xs : List WorkflowStep) (a : WorkflowStep)
    → find? p xs ≡ some a
    → has_id a.id xs ≡ true
unfolding has_id
find?-has_id p [] a h = cc
find?-has_id p (x ∷ xs) a h = elim (Bool-cases (p x)) [
  | inl e ↦
      let same : x ≡ a = ground arith in
      rw ((eq_iff x.id a.id).1 (ap (λ (s : WorkflowStep). s.id) same)) refl
  | inr e ↦ ground (arith, find?-has_id p xs a)
]

found_later :
    (p : WorkflowStep → Bool) (x : WorkflowStep) (xs : List WorkflowStep) (a : WorkflowStep)
    → UniqueIds (x ∷ xs)
    → find? p xs ≡ some a
    → (x.id == a.id) ≡ false
found_later p x xs a u h = ground (arith, eq_iff x.id a.id, find?-has_id p xs a h)

-- The step that was found and what `delete` leaves are the steps that there were.
delete_step-perm :
    (p : WorkflowStep → Bool) (xs : List WorkflowStep) (a : WorkflowStep)
    → UniqueIds xs
    → find? p xs ≡ some a
    → Perm (a ∷ delete_step a.id xs) xs
unfolding delete_step
delete_step-perm p [] a u h = absurd (cc)
delete_step-perm p (x ∷ xs) a u h = elim (Bool-cases (p x)) [
  | inl e ↦
      let same : x ≡ a = ground arith in
      rw ((eq_iff x.id a.id).1 (ap (λ (s : WorkflowStep). s.id) same))
        (subst (λ s. Perm (s ∷ xs) (x ∷ xs)) same (Perm.refl (x ∷ xs)))
  | inr e ↦
      let later : find? p xs ≡ some a = ground arith in
      rw (found_later p x xs a u later) (
        Perm.trans (Perm.swap x a (delete_step a.id xs))
          (Perm.cons x (delete_step-perm p xs a u.1 later)))
]

has_id-delete_step :
    (j id : String) (xs : List WorkflowStep)
    → has_id j xs ≡ false
    → has_id j (delete_step id xs) ≡ false
unfolding has_id delete_step
has_id-delete_step j id [] h = refl
has_id-delete_step j id (x ∷ xs) h = ground (arith, has_id-delete_step j id xs)

pub UniqueIds-delete_step :
    (id : String) (xs : List WorkflowStep) → UniqueIds xs → UniqueIds (delete_step id xs)
unfolding delete_step
UniqueIds-delete_step id [] u = tt
UniqueIds-delete_step id (x ∷ xs) u = elim (Bool-cases (x.id == id)) [
  | inl e ↦ rw e u.1
  | inr e ↦ rw e (has_id-delete_step x.id id xs u.0, UniqueIds-delete_step id xs u.1)
]

DependenciesFirst-concat :
    (before xs : List WorkflowStep) (s : WorkflowStep)
    → DependenciesFirst before xs
    → is_ready (before ++ xs) s ≡ true
    → DependenciesFirst before (xs ++ s ∷ [])
DependenciesFirst-concat before [] s d r = (rw append-nil at r, tt)
DependenciesFirst-concat before (x ∷ xs) s d r = (
  d.0,
  DependenciesFirst-concat (before ++ x ∷ []) xs s d.1
      (subst (λ l. is_ready l s ≡ true) (sym (append_assoc before (x ∷ []) xs)) r),
)

-- What the loop has done when it returns.
record Ordered (ordered remaining out : List WorkflowStep) : Type 0 where
  perm : Perm out (ordered ++ remaining)
  first : DependenciesFirst [] out

order_loop-Ordered :
    (fuel : ℕ) (remaining ordered out : List WorkflowStep)
    → UniqueIds remaining
    → DependenciesFirst [] ordered
    → order_loop fuel remaining ordered ≡ ok out
    → Ordered ordered remaining out
unfolding order_loop
order_loop-Ordered fuel [] ordered out u d h =
    let same : ordered ≡ out = ground arith in
    record {
      perm = subst (λ l. Perm l (ordered ++ [])) same (rw append-nil (Perm.refl ordered));
      first = rw (← same) d;
    }
order_loop-Ordered zero (r ∷ rs) ordered out u d h = absurd (cc)
order_loop-Ordered (suc fuel) (r ∷ rs) ordered out u d h =
    elim (Option-cases (find? (is_ready ordered) (r ∷ rs))) [
      | inl e ↦ absurd (ground arith)
      | inr (ready, e) ↦
          let rest = delete_step ready.id (r ∷ rs) in
          let d' =
            DependenciesFirst-concat [] ordered ready d (find?-is_ready ordered (r ∷ rs) ready e) in
          let ih =
            order_loop-Ordered fuel rest (ordered ++ ready ∷ []) out
              (UniqueIds-delete_step ready.id (r ∷ rs) u) d' (ground arith) in
          record {
            perm =
                Perm.trans (rw append_assoc at ih.perm) (
                  Perm.append_left ordered
                    (delete_step-perm (is_ready ordered) (r ∷ rs) ready u e));
            first = ih.first;
          }
    ]

set_step-new :
    (s : WorkflowStep) (xs : List WorkflowStep)
    → has_id s.id xs ≡ false
    → set_step s xs ≡ xs ++ s ∷ []
unfolding has_id set_step
set_step-new s [] h = refl
set_step-new s (x ∷ xs) h = ground (arith, set_step-new s xs)

UniqueIds-append :
    (xs : List WorkflowStep) (s : WorkflowStep) (ss : List WorkflowStep)
    → UniqueIds (xs ++ s ∷ ss)
    → has_id s.id xs ≡ false
unfolding has_id
UniqueIds-append [] s ss u = refl
UniqueIds-append (x ∷ xs) s ss u = ground (
  arith,
  UniqueIds-append xs s ss u.1,
  has_id-append x.id xs (s ∷ ss),
  u.0,
  eq_iff x.id s.id,
  eq_iff s.id x.id,
)

pub map_of_steps_lem :
    (xs ss : List WorkflowStep) → UniqueIds (xs ++ ss) → map_of_steps xs ss ≡ xs ++ ss
unfolding map_of_steps
map_of_steps_lem xs [] u = sym (append-nil xs)
map_of_steps_lem xs (s ∷ ss) u =
    let grown = set_step-new s xs (UniqueIds-append xs s ss u) in
    let assoc = append_assoc xs (s ∷ []) ss in
    rw grown (map_of_steps_lem (xs ++ s ∷ []) ss (subst UniqueIds (sym assoc) u) ∙ assoc)

-- Where ids are unique, an order that is returned is the given steps, permuted, and each step comes
-- after all steps that it depends on.
pub order_steps-Ordered :
    (steps ordered : List WorkflowStep)
    → UniqueIds steps
    → order_steps steps ≡ ok ordered
    → Perm ordered steps × DependenciesFirst [] ordered
unfolding order_steps
order_steps-Ordered steps ordered u h =
    let same = map_of_steps_lem [] steps u in
    let o = order_loop-Ordered (length steps) steps [] ordered u tt (rw same at h) in
    (o.perm, o.first)
