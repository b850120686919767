-- ===== src/Definition/Validate/Fits.antt =====
-- src/workflow-definition.ts: what a step holds that no error was found in.
use ensen_flow.Common.{
  ℕ, suc, String, Bool, true, false, ◌≡◌, refl, ◌≢◌, ◌⊎◌, inl, inr, Option, none, some, List, [],
  ◌∷◌, ◌++◌, arith, All, Option-cases, eq_refl, if◌then◌else◌, is_some,
}
use ensen_flow.Value.{Value, record_of, array_of, get, has, one_of}
use ensen_flow.Definition.Errors.{Segment, below, error_at, Message, must_be_positive_integer}
use ensen_flow.Definition.Fields.{stable_id_of, is_positive_integer, reject_unknown_keys}
use ensen_flow.Definition.Validate.{
  validate_dependency, dependency_errors, validate_dependencies, validate_step, step_path,
  step_fields,
}
use ensen_flow.Definition.Parts.{validate_retry_policy, retry_fields}

pub append-eq-nil {ℓ} : {A : Type ℓ} (xs ys : List A) → xs ++ ys ≡ [] → (xs ≡ []) × (ys ≡ [])
append-eq-nil [] ys h = (refl, h)
append-eq-nil (x ∷ xs) ys h = absurd (cc)

pub unless-nil :
    (b : Bool) (path : List Segment) (m : Message)
    → (if b then [] else error_at path m) ≡ []
    → b ≡ true
unless-nil true path m h = refl
unless-nil false path m h = absurd (cc)

-- the stable id of a step
abbrev pub id_of : Value → Option String
id_of step = elim (record_of step) [ none ↦ none | some fs ↦ stable_id_of (get fs "id") ]

-- no name occurs twice
abbrev pub Distinct : List String → Type 0
Distinct [] = Unit
Distinct (n ∷ ns) = (one_of ns n ≡ false) × Distinct ns

-- an entry of `dependsOn`: the id of another step
pub record KnownDependency (names : List String) (step dependency : Value) : Type 0 where
  pub name : String
  pub named : stable_id_of dependency ≡ some name
  pub known : one_of names name ≡ true
  pub not_itself : id_of step ≢ some name

pub record RetryFits (retry : Value) : Type 0 where
  pub fields : List (String × Value)
  pub is_record : record_of retry ≡ some fields
  pub positive : is_positive_integer (get fields "maxAttempts") ≡ true

pub record StepFits (names : List String) (step : Value) : Type 0 where
  pub fields : List (String × Value)
  pub is_record : record_of step ≡ some fields
  pub depends :
      (get fields "dependsOn" ≡ Value.undefined)
      ⊎ ((ds : List Value) × (array_of (get fields "dependsOn") ≡ some ds)
          × All (KnownDependency names step) ds)
  pub retries : (has fields "retry" ≡ false) ⊎ RetryFits (get fields "retry")

pub stable_id_of-eq-some : (v : Value) (s : String) → stable_id_of v ≡ some s → v ≡ Value.str s
unfolding stable_id_of
stable_id_of-eq-some (Value.str t) s h = ground arith
stable_id_of-eq-some Value.undefined s h = cc
stable_id_of-eq-some Value.null s h = cc
stable_id_of-eq-some (Value.bool b) s h = cc
stable_id_of-eq-some (Value.num n) s h = cc
stable_id_of-eq-some (Value.arr vs) s h = cc
stable_id_of-eq-some (Value.obj fs) s h = cc
stable_id_of-eq-some (Value.exotic fs) s h = cc
stable_id_of-eq-some Value.other s h = cc

pub validate_retry_policy-RetryFits :
    (retry : Value) (path : List Segment) → validate_retry_policy retry path ≡ [] → RetryFits retry
unfolding validate_retry_policy retry_fields
validate_retry_policy-RetryFits retry path h = elim (Option-cases (record_of retry)) [
  | inl e ↦ absurd (ground arith)
  | inr (fs, e) ↦ record {
    fields = fs;
    is_record = e;
    positive = positive_of fs path (rw (e, validate_retry_policy) at h);
  }
]
  where
    positive_of :
        (fs : List (String × Value)) (path : List Segment)
        → retry_fields fs path ≡ []
        → is_positive_integer (get fs "maxAttempts") ≡ true
    positive_of fs path h =
        let checked =
          append-eq-nil (reject_unknown_keys fs ("maxAttempts" ∷ "backoff" ∷ []) path) _
            (append-eq-nil _ _ h).0 in
        unless-nil (is_positive_integer (get fs "maxAttempts")) (below path "maxAttempts")
          must_be_positive_integer checked.1

pub validate_dependency-Known :
    (names : List String) (step : Value) (fs : List (String × Value)) (d : Value)
    (path : List Segment)
    → record_of step ≡ some fs
    → validate_dependency names (get fs "id") d path ≡ []
    → KnownDependency names step d
unfolding validate_dependency
validate_dependency-Known names step fs d path r h = elim (Option-cases (stable_id_of d)) [
  | inl e ↦ absurd (ground arith)
  | inr (s, e) ↦ record {
    name = s;
    named = e;
    known = ground arith;
    not_itself = λ same.
        let own = stable_id_of-eq-some (get fs "id") s (rw (r, id_of) at same) in
        ground (arith, own, eq_refl s);
  }
]

pub dependency_errors-Known :
    (names : List String) (step : Value) (fs : List (String × Value)) (i : ℕ) (ds : List Value)
    (path : List Segment)
    → record_of step ≡ some fs
    → dependency_errors names (get fs "id") i ds path ≡ []
    → All (KnownDependency names step) ds
unfolding dependency_errors
dependency_errors-Known names step fs i [] path r h = tt
dependency_errors-Known names step fs i (d ∷ ds) path r h =
    let (first, others) = append-eq-nil _ _ h in
    (
      validate_dependency-Known names step fs d _ r first,
      dependency_errors-Known names step fs (suc i) ds path r others,
    )

pub validate_dependencies-Known :
    (names : List String) (step : Value) (fs : List (String × Value)) (v : Value)
    (path : List Segment)
    → record_of step ≡ some fs
    → validate_dependencies names (get fs "id") v path ≡ []
    → (v ≡ Value.undefined)
      ⊎ ((ds : List Value) × (array_of v ≡ some ds) × All (KnownDependency names step) ds)
unfolding validate_dependencies
validate_dependencies-Known names step fs Value.undefined path r h = inl refl
validate_dependencies-Known names step fs Value.null path r h = absurd (cc)
validate_dependencies-Known names step fs (Value.bool b) path r h = absurd (cc)
validate_dependencies-Known names step fs (Value.num n) path r h = absurd (cc)
validate_dependencies-Known names step fs (Value.str t) path r h = absurd (cc)
validate_dependencies-Known names step fs (Value.arr vs) path r h =
    inr (_, refl, dependency_errors-Known names step fs 0 _ path r h)
validate_dependencies-Known names step fs (Value.obj gs) path r h = absurd (cc)
validate_dependencies-Known names step fs (Value.exotic gs) path r h = absurd (cc)
validate_dependencies-Known names step fs Value.other path r h = absurd (cc)

pub step_fields-StepFits :
    (names : List String) (path : List Segment) (step : Value) (fs : List (String × Value))
    → record_of step ≡ some fs
    → step_fields names fs path ≡ []
    → StepFits names step
unfolding step_fields
step_fields-StepFits names path step fs e h =
    let retry = append-eq-nil _ _ (append-eq-nil _ _ h).0 in
    let depends = append-eq-nil _ _ (append-eq-nil _ _ retry.0).0 in
    record {
      fields = fs;
      is_record = e;
      depends = validate_dependencies-Known names step fs (get fs "dependsOn") _ e depends.1;
      retries = retries_of (has fs "retry") _ retry.1;
    }
  where
    retries_of :
        {retry : Value} (there : Bool) (path : List Segment)
        → (if there then validate_retry_policy retry path else []) ≡ []
        → (there ≡ false) ⊎ RetryFits retry
    retries_of true path h = inr (validate_retry_policy-RetryFits _ _ h)
    retries_of false path h = inl refl

pub validate_step-StepFits :
    (names : List String) (i : ℕ) (step : Value)
    → is_some (id_of step) ≡ true
    → validate_step names i step ≡ []
    → StepFits names step
unfolding validate_step
validate_step-StepFits names i step named h = elim (Option-cases (record_of step)) [
  | inl e ↦ absurd (ground (arith, rw (e, id_of) at named))
  | inr (fs, e) ↦ step_fields-StepFits names (step_path i) step fs e (rw (e, validate_step) at h)
]
