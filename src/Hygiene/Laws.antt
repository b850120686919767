-- ===== src/Hygiene/Laws.antt =====
-- src/workflow-artifact-hygiene.ts: which values the search lets pass.
use ensen_flow.Common.{
  ℕ, zero, suc, ◌+◌, ◌≤◌, ◌<◌, String, ◌≡◌, ◌↔◌, refl, inl, inr, Option, none, some, Option-cases,
  arith,
}
use ensen_flow.Common.Codes.{text_length, trim, trim-le}
use ensen_flow.Value.{
  Value, undefined, null, bool, num, str, arr, obj, exotic, other, Items, nil, cons, Fields, end,
  field,
}
use ensen_flow.Hygiene.{
  Category, container_of, Finding, Runtime, classify_unsafe_workflow_artifact_key,
  classify_unsafe_workflow_artifact_string, parse_json_formatted_container, find_nested, otherwise,
  found_at, find_in, find_in_items, find_in_fields, find_within, longest, longest_item,
  longest_field, find_unsafe_workflow_artifact_value,
}

module _ (js : Runtime) where
  -- Nothing in the value is of an unsafe category, texts that are JSON read as what they stand for.
  mutual
    pub data IsSafe : Value → Type 0 where
      safe_text :
          (s : String)
          → classify_unsafe_workflow_artifact_string js s ≡ none
          → parse_json_formatted_container js s ≡ none
          → IsSafe (str s)
      safe_json :
          (s : String) (v : Value)
          → classify_unsafe_workflow_artifact_string js s ≡ none
          → parse_json_formatted_container js s ≡ some v
          → IsSafe v
          → IsSafe (str s)
      safe_array : (vs : Items) → AreSafe vs → IsSafe (arr vs)
      safe_object : (fs : Fields) → HaveSafe fs → IsSafe (obj fs)
      safe_instance : (fs : Fields) → HaveSafe fs → IsSafe (exotic fs)
      safe_undefined : IsSafe undefined
      safe_null : IsSafe null
      safe_bool : (b : _) → IsSafe (bool b)
      safe_num : (n : _) → IsSafe (num n)
      safe_other : IsSafe other

    pub data AreSafe : Items → Type 0 where
      safe_nil : AreSafe nil
      safe_cons : (v : Value) (vs : Items) → IsSafe v → AreSafe vs → AreSafe (cons v vs)

    pub data HaveSafe : Fields → Type 0 where
      safe_end : HaveSafe end
      safe_field :
          (key : String) (v : Value) (fs : Fields)
          → IsSafe v
          → classify_unsafe_workflow_artifact_key key v ≡ none
          → HaveSafe fs
          → HaveSafe (field key v fs)

  -- the texts of a parsed value are shorter than the text that it was parsed from
  abbrev pub IsShrinking : Type 0
  IsShrinking = (s : String) (v : Value) → js.json_parse s ≡ some v → longest v < text_length s

  container-same : (o : Option Value) {v : Value} → container_of o ≡ some v → o ≡ some v
  container-same none h = cc
  container-same (some undefined) h = cc
  container-same (some null) h = cc
  container-same (some (bool b)) h = cc
  container-same (some (num n)) h = cc
  container-same (some (str s)) h = cc
  container-same (some (arr vs)) h = h
  container-same (some (obj fs)) h = h
  container-same (some (exotic fs)) h = h
  container-same (some other) h = cc

  parse-shorter :
      IsShrinking
      → (s : String) (v : Value) → parse_json_formatted_container js s ≡ some v
      → longest v < text_length s
  unfolding parse_json_formatted_container
  parse-shorter shrinks s v h =
      let same : container_of (js.json_parse (trim s)) ≡ some v = ground arith in
      let shorter = shrinks (trim s) v (container-same (js.json_parse (trim s)) same) in
      let trimmed = trim-le s in omega arith

  found_at-none : (path : String) (c : Option Category) → found_at path c ≡ none → c ≡ none
  found_at-none path none h = refl
  found_at-none path (some c) h = cc

  otherwise-none : {A : Type 0} (a b : Option A) → otherwise a b ≡ none → (a ≡ none) × (b ≡ none)
  otherwise-none none b h = (refl, h)
  otherwise-none (some a) b h = cc

  module _ (n : ℕ) (nested : Value → String → Option Finding)
      (sound : (v : Value) (path : String) → longest v < n → nested v path ≡ none → IsSafe v)
      (shrinks : IsShrinking) where
    mutual
      unfolding find_in longest

      find_in-IsSafe :
          (v : Value) (path : String) → longest v ≤ n → find_in js nested v path ≡ none → IsSafe v
      find_in-IsSafe undefined path b h = safe_undefined
      find_in-IsSafe null path b h = safe_null
      find_in-IsSafe (bool x) path b h = safe_bool x
      find_in-IsSafe (num x) path b h = safe_num x
      find_in-IsSafe other path b h = safe_other
      find_in-IsSafe (str s) path b h =
          let (json, own) =
            otherwise-none (find_nested nested (parse_json_formatted_container js s) path)
              (found_at path (classify_unsafe_workflow_artifact_string js s)) h in
          let plain = found_at-none path _ own in
          elim (Option-cases (parse_json_formatted_container js s)) [
            | inl unparsed ↦ safe_text s plain unparsed
            | inr (v, parsed) ↦
                let shorter = parse-shorter shrinks s v parsed in
                let below : longest v < n = omega arith in
                safe_json s v plain parsed (sound v path below (rw parsed at json))
          ]
      find_in-IsSafe (arr vs) path b h = safe_array vs (find_in_items-AreSafe vs 0 path b h)
      find_in-IsSafe (obj fs) path b h = safe_object fs (find_in_fields-HaveSafe fs path b h)
      find_in-IsSafe (exotic fs) path b h = safe_instance fs (find_in_fields-HaveSafe fs path b h)

      find_in_items-AreSafe :
          (vs : Items) (index : ℕ) (path : String)
          → longest_item vs ≤ n
          → find_in_items js nested index vs path ≡ none
          → AreSafe vs
      find_in_items-AreSafe nil index path b h = safe_nil
      find_in_items-AreSafe (cons v vs) index path b h =
          let (here, later) = otherwise-none _ _ h in
          safe_cons v vs (find_in-IsSafe v _ (omega arith) here)
            (find_in_items-AreSafe vs (index + 1) path (omega arith) later)

      find_in_fields-HaveSafe :
          (fs : Fields) (path : String)
          → longest_field fs ≤ n
          → find_in_fields js nested fs path ≡ none
          → HaveSafe fs
      find_in_fields-HaveSafe end path b h = safe_end
      find_in_fields-HaveSafe (field key v fs) path b h =
          let (here, more) = otherwise-none _ _ h in
          let (keyed, later) = otherwise-none _ _ more in
          safe_field key v fs (find_in-IsSafe v _ (omega arith) here) (found_at-none _ _ keyed)
            (find_in_fields-HaveSafe fs path (omega arith) later)

  find_within-IsSafe :
      IsShrinking
      → (n : ℕ) (v : Value) (path : String) → longest v ≤ n
      → find_within js n v path ≡ none
      → IsSafe v
  unfolding find_within
  find_within-IsSafe shrinks zero v path b h =
      find_in-IsSafe 0 (λ v path. none) (λ w p below ok. absurd (omega arith)) shrinks v path b h
  find_within-IsSafe shrinks (suc n) v path b h =
      let before : (w : Value) (p : String)
          → longest w < suc n
          → find_within js n w p ≡ none
          → IsSafe w =
        λ w p below passed. find_within-IsSafe shrinks n w p (omega arith) passed in
      find_in-IsSafe (suc n) (find_within js n) before shrinks v path b h

  module _ (nested : Value → String → Option Finding)
      (complete : (v : Value) (path : String) → IsSafe v → nested v path ≡ none) where
    mutual
      unfolding find_in

      IsSafe-find_in : (v : Value) (path : String) → IsSafe v → find_in js nested v path ≡ none
      IsSafe-find_in (str s) path (safe_text _ plain unparsed) = rw (unparsed, plain) refl
      IsSafe-find_in (str s) path (safe_json _ v plain parsed safe) =
          rw (parsed, complete v path safe, plain) refl
      IsSafe-find_in (arr vs) path (safe_array _ safe) = AreSafe-find_in_items vs 0 path safe
      IsSafe-find_in (obj fs) path (safe_object _ safe) = HaveSafe-find_in_fields fs path safe
      IsSafe-find_in (exotic fs) path (safe_instance _ safe) = HaveSafe-find_in_fields fs path safe
      IsSafe-find_in undefined path safe_undefined = refl
      IsSafe-find_in null path safe_null = refl
      IsSafe-find_in (bool b) path (safe_bool _) = refl
      IsSafe-find_in (num n) path (safe_num _) = refl
      IsSafe-find_in other path safe_other = refl

      AreSafe-find_in_items :
          (vs : Items) (index : ℕ) (path : String)
          → AreSafe vs
          → find_in_items js nested index vs path ≡ none
      AreSafe-find_in_items nil index path safe_nil = refl
      AreSafe-find_in_items (cons v vs) index path (safe_cons _ _ safe more) =
          rw (IsSafe-find_in v _ safe, AreSafe-find_in_items vs (index + 1) path more) refl

      HaveSafe-find_in_fields :
          (fs : Fields) (path : String) → HaveSafe fs → find_in_fields js nested fs path ≡ none
      HaveSafe-find_in_fields end path safe_end = refl
      HaveSafe-find_in_fields (field key v fs) path (safe_field _ _ _ safe keyed more) =
          rw (IsSafe-find_in v _ safe, keyed, HaveSafe-find_in_fields fs path more) refl

  IsSafe-find_within :
      (n : ℕ) (v : Value) (path : String) → IsSafe v → find_within js n v path ≡ none
  unfolding find_within
  IsSafe-find_within zero v path safe = IsSafe-find_in _ (λ w p s. refl) v path safe
  IsSafe-find_within (suc n) v path safe =
      IsSafe-find_in _ (λ w p s. IsSafe-find_within n w p s) v path safe

  -- Where the texts of a value that `JSON.parse` returns are shorter than what it read: the search
  -- finds nothing exactly if no text in the value is of an unsafe category, no key names one whose
  -- value is not empty, and so on within the texts that are arrays or objects in JSON.
  pub find_unsafe_workflow_artifact_value-IsSafe :
      IsShrinking
      → (v : Value) (path : String)
      → (find_unsafe_workflow_artifact_value js v path ≡ none) ↔ IsSafe v
  unfolding find_unsafe_workflow_artifact_value
  find_unsafe_workflow_artifact_value-IsSafe shrinks v path = (
    find_within-IsSafe shrinks (longest v) v path (omega arith),
    IsSafe-find_within (longest v) v path,
  )
