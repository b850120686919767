-- ===== src/Runner/Order/Complete.antt =====
-- src/workflow-runner.ts: `orderSteps` against the orders that there are.
use mathlib.Core.List.{Memᴰ}
use ensen_flow.Common.{
  ℕ, zero, suc, ◌≤◌, true, false, ◌≡◌, refl, inl, inr, List, [], ◌∷◌, ◌++◌, arith, length, find?,
  All, Option-cases, ok, ◌==◌, eq_iff,
}
use ensen_flow.Definition.{WorkflowStep}
use ensen_flow.Runner.Order.{has_id, delete_step, is_ready, order_loop, order_steps}
use ensen_flow.Runner.Order.Laws.{
  UniqueIds, DependenciesFirst, has_id-append, find?-has_id, UniqueIds-delete_step,
  map_of_steps_lem,
}
use ensen_flow.Runner.Order.Progress.{
  Linearizes, Covers, IdsIn, next_ready, All-delete_step, others-delete_step, Memᴰ-delete_step,
  length-delete_step,
}

-- The loop's variables, beside an order that would do.
record Between (order ordered remaining : List WorkflowStep) : Type 0 where
  covers : Covers order ordered remaining
  listed : All (λ s. has_id s.id order ≡ true) remaining
  fresh : All (λ s. has_id s.id ordered ≡ false) remaining
  unique : UniqueIds remaining

fresh-concat :
    (ready : WorkflowStep) (ordered xs : List WorkflowStep)
    → All (λ s. has_id s.id ordered ≡ false) xs
    → All (λ s. (s.id == ready.id) ≡ false) xs
    → All (λ s. has_id s.id (ordered ++ ready ∷ []) ≡ false) xs
unfolding has_id
fresh-concat ready ordered [] f o = tt
fresh-concat ready ordered (x ∷ xs) f o = (
  ground (
    arith,
    has_id-append x.id ordered (ready ∷ []),
    f.0,
    o.0,
    eq_iff x.id ready.id,
    eq_iff ready.id x.id,
  ),
  fresh-concat ready ordered xs f.1 o.1,
)

Covers-concat :
    (ready : WorkflowStep) (order ordered remaining : List WorkflowStep)
    → Covers order ordered remaining
    → Covers order (ordered ++ ready ∷ []) (delete_step ready.id remaining)
unfolding has_id
Covers-concat ready [] ordered remaining c = tt
Covers-concat ready (s ∷ ss) ordered remaining (here, c) = (
  elim here [
    | inl placed ↦ inl (ground (arith, has_id-append s.id ordered (ready ∷ []), placed))
    | inr listed ↦ elim (Memᴰ-delete_step ready.id listed) [
      | inr m ↦ inr m
      | inl e ↦ inl (
          ground (
            arith,
            has_id-append s.id ordered (ready ∷ []),
            e,
            eq_iff s.id ready.id,
            eq_iff ready.id s.id,
          ))
    ]
  ],
  Covers-concat ready ss ordered remaining c,
)

Between-next :
    {order ordered remaining : List WorkflowStep} (ready : WorkflowStep)
    → Between order ordered remaining
    → Between order (ordered ++ ready ∷ []) (delete_step ready.id remaining)
Between-next {order} {ordered} {remaining} ready b = record {
  covers = Covers-concat ready order ordered remaining b.covers;
  listed = All-delete_step (λ s. has_id s.id order ≡ true) ready.id remaining b.listed;
  fresh =
      fresh-concat ready ordered (delete_step ready.id remaining)
        (All-delete_step (λ s. has_id s.id ordered ≡ false) ready.id remaining b.fresh)
        (others-delete_step ready.id remaining b.unique);
  unique = UniqueIds-delete_step ready.id remaining b.unique;
}

no_more :
    (order ordered : List WorkflowStep) (r : WorkflowStep) (rs : List WorkflowStep)
    → Between order ordered (r ∷ rs)
    → ¬ IdsIn order ordered
no_more order ordered r rs b all_in = cc (all_in r.id b.listed.0, b.fresh.0)

order_loop_complete :
    (fuel : ℕ) (order remaining ordered : List WorkflowStep)
    → DependenciesFirst [] order
    → length remaining ≤ fuel
    → Between order ordered remaining
    → (out : List WorkflowStep) × (order_loop fuel remaining ordered ≡ ok out)
unfolding order_loop
order_loop_complete fuel order [] ordered d l b = (ordered, refl)
order_loop_complete zero order (r ∷ rs) ordered d l b = absurd (omega arith)
order_loop_complete (suc fuel) order (r ∷ rs) ordered d l b =
    elim (Option-cases (find? (is_ready ordered) (r ∷ rs))) [
      | inl e ↦
          absurd
            (elim (next_ready order [] ordered (r ∷ rs) d (unfold has_id in λ i h. cc) b.covers) [
              | inl all_in ↦ no_more order ordered r rs b all_in
              | inr found ↦ found e
            ])
      | inr (ready, e) ↦
          let shorter =
            length-delete_step ready.id (r ∷ rs)
              (find?-has_id (is_ready ordered) (r ∷ rs) ready e) in
          let (out, h) =
            order_loop_complete fuel order (delete_step ready.id (r ∷ rs)) (ordered ++ ready ∷ []) d
              (omega (arith, shorter)) (Between-next ready b) in
          (out, rw (e, order_loop) h)
    ]

Covers-of :
    (order ordered steps : List WorkflowStep)
    → All (λ s. Memᴰ s steps) order
    → Covers order ordered steps
Covers-of [] ordered steps h = tt
Covers-of (s ∷ ss) ordered steps h = (inr h.0, Covers-of ss ordered steps h.1)

none_placed : (steps : List WorkflowStep) → All (λ s. has_id s.id [] ≡ false) steps
unfolding has_id
none_placed [] = tt
none_placed (s ∷ ss) = (refl, none_placed ss)

-- Where ids are unique and some order puts each step after its dependencies, `orderSteps` returns.
pub order_steps_complete :
    (steps order : List WorkflowStep)
    → UniqueIds steps
    → Linearizes order steps
    → (out : List WorkflowStep) × (order_steps steps ≡ ok out)
unfolding order_steps has_id
order_steps_complete steps order u z = rw (map_of_steps_lem [] steps u) (
    order_loop_complete (length steps) order steps [] z.first (omega arith) (record {
      covers = Covers-of order [] steps z.listed;
      listed = z.covered;
      fresh = none_placed steps;
      unique = u;
    }))
