-- ===== src/RunState/Project/Chain.antt =====
-- src/workflow-run-state.ts: attempts that are numbered from one, of which only the last is open.
use ensen_flow.Common.{
  ℕ, ◌+◌, Bool, true, false, ◌≡◌, refl, inl, inr, ◌∙◌, Option, none, some, List, [], ◌∷◌, ◌++◌,
  arith, eqb, length, last, Bool-cases,
}
use ensen_flow.RunState.{AttemptState}
use ensen_flow.RunState.StepEvents.{may_be_followed, find_attempt, sort_by_attempt, update_attempt}

-- The attempts are numbered n + 1, n + 2, ..., and only the last may have a status after which no
-- further attempt may start.
abbrev pub Chain : ℕ → List AttemptState → Type 0
Chain n [] = Unit
Chain n (a ∷ []) = a.attempt ≡ n + 1
Chain n (a ∷ (b ∷ bs)) =
    (a.attempt ≡ n + 1) × (may_be_followed a.status ≡ true) × Chain (n + 1) (b ∷ bs)

pub Chain-head :
    (n : ℕ) (a : AttemptState) (as' : List AttemptState) → Chain n (a ∷ as') → a.attempt ≡ n + 1
Chain-head n a [] h = h
Chain-head n a (b ∷ bs) h = h.0

pub Chain-cons :
    (n : ℕ) (a : AttemptState) (as' : List AttemptState)
    → a.attempt ≡ n + 1
    → may_be_followed a.status ≡ true
    → Chain (n + 1) as'
    → Chain n (a ∷ as')
Chain-cons n a [] e f h = e
Chain-cons n a (b ∷ bs) e f h = (e, f, h)

pub Chain-last :
    (n : ℕ) (as' : List AttemptState) (a : AttemptState)
    → Chain n as'
    → last as' ≡ some a
    → a.attempt ≡ n + length as'
Chain-last n [] a h e = cc
Chain-last n (b ∷ []) a h e = ground arith
Chain-last n (b ∷ (c ∷ cs)) a h e = omega (arith, Chain-last (n + 1) (c ∷ cs) a h.2 e)

-- the last attempt, if there is one, may be followed
abbrev pub may_grow : Option AttemptState → Bool
may_grow none = true
may_grow (some a) = may_be_followed a.status

pub Chain-concat :
    (n : ℕ) (as' : List AttemptState) (s : AttemptState)
    → Chain n as'
    → may_grow (last as') ≡ true
    → s.attempt ≡ n + length as' + 1
    → Chain n (as' ++ s ∷ [])
Chain-concat n [] s h g e = omega arith
Chain-concat n (a ∷ []) s h g e = (h, g, omega arith)
Chain-concat n (a ∷ (b ∷ bs)) s h g e =
    (h.0, h.1, Chain-concat (n + 1) (b ∷ bs) s h.2 g (omega arith))

pub sort-Chain : (n : ℕ) (as' : List AttemptState) → Chain n as' → sort_by_attempt as' ≡ as'
unfolding sort_by_attempt
sort-Chain n [] h = refl
sort-Chain n (a ∷ []) h = refl
sort-Chain n (a ∷ (b ∷ bs)) h =
    ground (arith, sort-Chain (n + 1) (b ∷ bs) h.2, Chain-head (n + 1) b bs h.2)

pub Chain-update :
    (n k : ℕ) (f : AttemptState → AttemptState) (as' : List AttemptState) (a : AttemptState)
    → ((b : AttemptState) → (f b).attempt ≡ b.attempt)
    → Chain n as'
    → find_attempt k as' ≡ some a
    → may_be_followed a.status ≡ false
    → Chain n (update_attempt k f as')
unfolding find_attempt update_attempt
Chain-update n k f [] a keep h e r = tt
Chain-update n k f (b ∷ []) a keep h e r = elim (Bool-cases (eqb b.attempt k)) [
  | inl same ↦ rw same (keep b ∙ h)
  | inr differs ↦ rw differs h
]
Chain-update n k f (b ∷ (c ∷ cs)) a keep h e r = elim (Bool-cases (eqb b.attempt k)) [
  | inl same ↦ absurd (ground arith)
  | inr differs ↦
      rw differs
        (Chain-cons n b _ h.0 h.1 (Chain-update (n + 1) k f (c ∷ cs) a keep h.2 (ground arith) r))
]
