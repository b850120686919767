-- ===== src/Runner/Order/Progress.antt =====
-- src/workflow-runner.ts: the rounds of the loop of `orderSteps`.
use mathlib.Core.List.{Memᴰ}
use ensen_flow.Common.{
  ℕ, zero, suc, ◌≤◌, String, Bool, true, false, ◌≡◌, refl, ◌≢◌, ◌⊎◌, inl, inr, subst, none, List,
  [], ◌∷◌, ◌++◌, arith, length, all, find?, All, Bool-cases, Option-cases, err, ◌==◌, eq_iff,
}
use ensen_flow.Definition.{WorkflowStep}
use ensen_flow.Runner.Order.{
  out_of_fuel, has_id, map_of_steps, delete_step, dependencies, is_ready, order_loop, order_steps,
}
use ensen_flow.Runner.Order.Laws.{UniqueIds, DependenciesFirst, has_id-append, find?-has_id}

pub length-delete_step :
    (id : String) (xs : List WorkflowStep)
    → has_id id xs ≡ true
    → suc (length (delete_step id xs)) ≡ length xs
unfolding has_id delete_step
length-delete_step id [] h = cc
length-delete_step id (x ∷ xs) h = ground (arith, length-delete_step id xs)

-- The loop never runs out of the fuel that `orderSteps` gives it.
order_loop-fuel :
    (fuel : ℕ) (remaining ordered : List WorkflowStep)
    → length remaining ≤ fuel
    → order_loop fuel remaining ordered ≢ err out_of_fuel
unfolding order_loop
order_loop-fuel fuel [] ordered l h = cc
order_loop-fuel zero (r ∷ rs) ordered l h = absurd (omega arith)
order_loop-fuel (suc fuel) (r ∷ rs) ordered l h =
    elim (Option-cases (find? (is_ready ordered) (r ∷ rs))) [
      | inl e ↦ ground arith
      | inr (ready, e) ↦
          let shorter =
            length-delete_step ready.id (r ∷ rs)
              (find?-has_id (is_ready ordered) (r ∷ rs) ready e) in
          order_loop-fuel fuel (delete_step ready.id (r ∷ rs)) (ordered ++ ready ∷ [])
            (omega (arith, shorter)) (ground arith)
    ]

-- `orderSteps` returns an order or throws: the fuel suffices.
pub order_steps-fuel : (steps : List WorkflowStep) → order_steps steps ≢ err out_of_fuel
unfolding order_steps
order_steps-fuel steps =
    order_loop-fuel (length (map_of_steps [] steps)) (map_of_steps [] steps) [] (omega arith)

-- `order` lists given steps, all ids among them, each after the steps that it depends on.
pub record Linearizes (order steps : List WorkflowStep) : Type 0 where
  pub first : DependenciesFirst [] order
  pub listed : All (λ s. Memᴰ s steps) order
  pub covered : All (λ s. has_id s.id order ≡ true) steps

find?-ne-none :
    (p : WorkflowStep → Bool) {s : WorkflowStep} {xs : List WorkflowStep}
    → Memᴰ s xs
    → p s ≡ true
    → find? p xs ≢ none
find?-ne-none p {s} (Memᴰ.head {x = x} e) h =
    let here : p x ≡ true = subst (λ y. p y ≡ true) e h in rw here (λ f. cc)
find?-ne-none p {s} (Memᴰ.tail {x = x} m) h = elim (Bool-cases (p x)) [
  | inl e ↦ rw e (λ f. cc)
  | inr e ↦ rw e (find?-ne-none p m h)
]

-- every id of `xs` is an id of `ys`
abbrev pub IdsIn : List WorkflowStep → List WorkflowStep → Type 0
IdsIn xs ys = (d : String) → has_id d xs ≡ true → has_id d ys ≡ true

all_mono :
    (p q : String → Bool) (ds : List String)
    → ((d : String) → p d ≡ true → q d ≡ true)
    → all p ds ≡ true
    → all q ds ≡ true
all_mono p q [] m h = refl
all_mono p q (d ∷ ds) m h = ground (arith, m d, all_mono p q ds m)

is_ready_mono :
    (xs ys : List WorkflowStep) (s : WorkflowStep)
    → IdsIn xs ys
    → is_ready xs s ≡ true
    → is_ready ys s ≡ true
unfolding is_ready
is_ready_mono xs ys s m h = all_mono (λ d. has_id d xs) (λ d. has_id d ys) (dependencies s) m h

IdsIn-concat :
    (before ordered : List WorkflowStep) (s : WorkflowStep)
    → IdsIn before ordered
    → has_id s.id ordered ≡ true
    → IdsIn (before ++ s ∷ []) ordered
unfolding has_id
IdsIn-concat before ordered s m h d k =
    ground (arith, has_id-append d before (s ∷ []), m d, eq_iff s.id d)

-- what is still to be placed, or was placed
abbrev pub Covers : List WorkflowStep → List WorkflowStep → List WorkflowStep → Type 0
Covers order ordered remaining = All (λ s. (has_id s.id ordered ≡ true) ⊎ Memᴰ s remaining) order

-- Along any order that would do, either everything was placed, or some remaining step is ready.
pub next_ready :
    (order before ordered remaining : List WorkflowStep)
    → DependenciesFirst before order
    → IdsIn before ordered
    → Covers order ordered remaining
    → IdsIn order ordered ⊎ (find? (is_ready ordered) remaining ≢ none)
unfolding has_id
next_ready [] before ordered remaining d m c = inl (λ i h. cc)
next_ready (s ∷ ss) before ordered remaining (r, d) m (here, c) = elim here [
  | inr listed ↦ inr (find?-ne-none (is_ready ordered) listed (is_ready_mono before ordered s m r))
  | inl placed ↦
      elim (next_ready ss (before ++ s ∷ []) ordered remaining d
        (IdsIn-concat before ordered s m placed) c) [
          | inr found ↦ inr found
          | inl all_in ↦ inl (λ i h. ground (arith, all_in i, eq_iff s.id i))
        ]
]

pub All-delete_step :
    (P : WorkflowStep → Type 0) (id : String) (xs : List WorkflowStep)
    → All P xs
    → All P (delete_step id xs)
unfolding delete_step
All-delete_step P id [] h = tt
All-delete_step P id (x ∷ xs) h = elim (Bool-cases (x.id == id)) [
  | inl e ↦ rw e h.1
  | inr e ↦ rw e (h.0, All-delete_step P id xs h.1)
]

others_of_not_has_id :
    (id : String) (xs : List WorkflowStep)
    → has_id id xs ≡ false
    → All (λ x. (x.id == id) ≡ false) xs
unfolding has_id
others_of_not_has_id id [] h = tt
others_of_not_has_id id (x ∷ xs) h = (ground arith, others_of_not_has_id id xs (ground arith))

pub others-delete_step :
    (id : String) (xs : List WorkflowStep)
    → UniqueIds xs
    → All (λ x. (x.id == id) ≡ false) (delete_step id xs)
unfolding delete_step
others-delete_step id [] u = tt
others-delete_step id (x ∷ xs) u = elim (Bool-cases (x.id == id)) [
  | inl e ↦ rw e (
      subst (λ i. All (λ y. (y.id == i) ≡ false) xs) ((eq_iff x.id id).0 e)
        (others_of_not_has_id x.id xs u.0))
  | inr e ↦ rw e (e, others-delete_step id xs u.1)
]

pub Memᴰ-delete_step :
    (id : String) {s : WorkflowStep} {xs : List WorkflowStep}
    → Memᴰ s xs
    → ((s.id == id) ≡ true) ⊎ Memᴰ s (delete_step id xs)
unfolding delete_step
Memᴰ-delete_step id {s} (Memᴰ.head {x = x} e) = elim (Bool-cases (x.id == id)) [
  | inl k ↦ inl (rw e k)
  | inr k ↦ inr (rw k (Memᴰ.head e))
]
Memᴰ-delete_step id {s} (Memᴰ.tail {x = x} m) = elim (Bool-cases (x.id == id)) [
  | inl k ↦ inr (rw k m)
  | inr k ↦ elim (Memᴰ-delete_step id m) [ inl e ↦ inl e | inr m' ↦ inr (rw k (Memᴰ.tail m')) ]
]
