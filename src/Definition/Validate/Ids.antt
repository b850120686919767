-- ===== src/Definition/Validate/Ids.antt =====
-- src/workflow-definition.ts: the ids that the first pass over the steps collects.
use ensen_flow.Common.{
  ℕ, suc, String, true, false, ◌||◌, ◌≡◌, refl, inl, inr, some, List, [], ◌∷◌, ◌++◌, ◌==◌, arith,
  ap, subst, map, Bool-cases, Option-cases, eq_refl, eq_iff, is_some,
}
use ensen_flow.Value.{Value, record_of, get, one_of}
use ensen_flow.Definition.Errors.{Segment, below, must_be_stable_id}
use ensen_flow.Definition.Fields.{stable_id_of}
use ensen_flow.Definition.Validate.{collect_id, validate_step_ids, step_path, step_keys}
use ensen_flow.Definition.Validate.Fits.{append-eq-nil, unless-nil, id_of, Distinct}

-- what the first pass over the steps finds
pub record Collected (known ids : List String) (steps : List Value) : Type 0 where
  pub names : List String
  pub named : map id_of steps ≡ map some names
  pub distinct : Distinct names
  pub fresh : (s : String) → one_of names s ≡ true → one_of known s ≡ false
  pub covered : (s : String) → one_of ids s ≡ true → (one_of known s || one_of names s) ≡ true

pub Collected-cons :
    (known ids : List String) (step : Value) (steps : List Value) (s : String)
    → id_of step ≡ some s
    → one_of known s ≡ false
    → Collected (s ∷ known) ids steps
    → Collected known ids (step ∷ steps)
Collected-cons known ids step steps s e f c = record {
  names = s ∷ c.names;
  named = rw e (ap (λ ns. some s ∷ ns) c.named);
  distinct = (
    elim (Bool-cases (one_of c.names s)) [
      | inl repeated ↦ absurd (ground (arith, c.fresh s repeated, eq_refl s))
      | inr once ↦ once
    ],
    c.distinct,
  );
  fresh = λ t h. elim (Bool-cases (s == t)) [
    | inl same ↦ subst (λ u. one_of known u ≡ false) ((eq_iff s t).0 same) f
    | inr differs ↦ ground (arith, c.fresh t)
  ];
  covered = λ t h. ground (arith, c.covered t h);
}

pub collect_id-eq :
    (known : List String) (id : Value) (path : List Segment) (s : String)
    → stable_id_of id ≡ some s
    → (collect_id known id path).0 ≡ []
    → (one_of known s ≡ false) × ((collect_id known id path).1 ≡ s ∷ known)
unfolding collect_id
collect_id-eq known id path s e h = elim (Bool-cases (one_of known s)) [
  | inl repeated ↦ absurd (ground arith)
  | inr fresh ↦ (fresh, rw (e, collect_id) (rw fresh refl))
]

pub step_keys-stable :
    (fs : List (String × Value)) (path : List Segment)
    → step_keys fs path ≡ []
    → is_some (stable_id_of (get fs "id")) ≡ true
unfolding step_keys
step_keys-stable fs path h =
    let required = (append-eq-nil _ _ h).1 in
    unless-nil (is_some (stable_id_of (get fs "id"))) (below path "id") must_be_stable_id required

pub collected :
    (i : ℕ) (known : List String) (fs : List (String × Value)) (step : Value) (steps : List Value)
    → record_of step ≡ some fs
    → ((ids : List String)
        → (validate_step_ids (suc i) ids steps).0 ≡ []
        → Collected ids (validate_step_ids (suc i) ids steps).1 steps)
    → step_keys fs (step_path i)
        ++ (collect_id known (get fs "id") (step_path i)).0
        ++ (validate_step_ids (suc i) (collect_id known (get fs "id") (step_path i)).1 steps).0
      ≡ []
    → Collected known
        (validate_step_ids (suc i) (collect_id known (get fs "id") (step_path i)).1 steps).1
        (step ∷ steps)
collected i known fs step steps e ih h =
    let (first, later) = append-eq-nil _ _ h in
    let (keys, repeated) = append-eq-nil _ _ first in
    elim (Option-cases (stable_id_of (get fs "id"))) [
      | inl n ↦
          let stable : is_some (stable_id_of (get fs "id")) ≡ true =
            step_keys-stable fs (step_path i) keys in
          absurd (cc (n, stable))
      | inr (s, n) ↦
          let (fresh, after) = collect_id-eq known (get fs "id") (step_path i) s n repeated in
          rw after (
            Collected-cons known _ step steps s (rw (e, id_of) n) fresh
              (ih (s ∷ known) (rw after at later)))
    ]

pub validate_step_ids-Collected :
    (i : ℕ) (known : List String) (steps : List Value)
    → (validate_step_ids i known steps).0 ≡ []
    → Collected known (validate_step_ids i known steps).1 steps
unfolding validate_step_ids
validate_step_ids-Collected i known [] h = record {
  names = [];
  named = refl;
  distinct = tt;
  fresh = λ s e. absurd (cc);
  covered = λ s e. ground (arith, e);
}
validate_step_ids-Collected i known (step ∷ steps) h = elim (Option-cases (record_of step)) [
  | inl e ↦ absurd (ground arith)
  | inr (fs, e) ↦
      rw (e, validate_step_ids)
        (collected i known fs step steps e (λ ids. validate_step_ids-Collected (suc i) ids steps)
          (rw (e, validate_step_ids) at h))
]
