-- ===== src/Hygiene.antt =====
-- src/workflow-artifact-hygiene.ts: the search of a value for what no artifact may hold.
pub mod Laws
mod Tests
use Prim.Native.String.{◌++◌}
use ensen_flow.Common.{
  ℕ, zero, suc, ◌+◌, max, String, Bool, true, false, not, ◌&&◌, ◌||◌, Option, none, some, List, [],
  ◌∷◌, any, eqb, if◌then◌else◌, ◌==◌,
}
use ensen_flow.Common.Codes.{codes, text_length, is_alphanumeric, lower, includes, has_prefix, trim}
use ensen_flow.Value.{
  Value, undefined, null, str, arr, obj, exotic, Items, nil, cons, Fields, end, field,
}

-- `UnsafeWorkflowArtifactCategory`
pub data Category : Type 0 where
  secret credential token private_key session_cookie : Category
  regulated_content customer_identifier workstation_local_path : Category

abbrev pub category_text : Category → String
category_text secret = "secret"
category_text credential = "credential"
category_text token = "token"
category_text private_key = "private-key"
category_text session_cookie = "session-cookie"
category_text regulated_content = "regulated-content"
category_text customer_identifier = "customer-identifier"
category_text workstation_local_path = "workstation-local-path"

-- `UnsafeWorkflowArtifactFinding`
pub record Finding : Type 0 where
  pub path : String
  pub category : Category

-- the regular expressions, by their names
pub data Pattern : Type 0 where
  token_value private_key_block secret_assignment token_assignment : Pattern
  session_cookie_text regulated_content_assignment customer_identifier_assignment : Pattern
  workstation_local_path_text : Pattern

-- What the language's runtime does: `pattern.test(text)`, `JSON.parse(text)` if it does not throw,
-- the text of a number, and `JSON.stringify` of a string.
pub record Runtime : Type 0 where
  pub test : Pattern → String → Bool
  pub json_parse : String → Option Value
  pub number_text : ℕ → String
  pub json_string : String → String

-- `set.has(key)` and `markers.some((marker) => key.includes(marker))`, of a key without case
abbrev same_codes : List ℕ → List ℕ → Bool
same_codes [] [] = true
same_codes (c ∷ cs) (d ∷ ds) = eqb c d && same_codes cs ds
same_codes _ _ = false

abbrev is_key : List String → List ℕ → Bool
is_key names key = any (λ n. same_codes (codes n) key) names

abbrev has_marker : List String → List ℕ → Bool
has_marker names key = any (λ n. includes (codes n) key) names

abbrev session_cookie_field_keys : List String
session_cookie_field_keys = "cookie" ∷ "setcookie" ∷ "sessioncookie" ∷ "sessionid" ∷ []

abbrev regulated_field_keys : List String
regulated_field_keys =
    "ssn" ∷ "socialsecuritynumber" ∷ "patientid" ∷ "patientname" ∷ "medicalrecordnumber" ∷ "mrn"
    ∷ []

abbrev customer_identifier_field_keys : List String
customer_identifier_field_keys =
    "customerid" ∷ "customername" ∷ "customeremail" ∷ "accountnumber" ∷ []

abbrev token_bearing_field_key_markers : List String
token_bearing_field_key_markers = "token" ∷ []

abbrev credential_bearing_field_key_markers : List String
credential_bearing_field_key_markers =
    "authorization" ∷ "password" ∷ "passwd" ∷ "secret" ∷ "apikey" ∷ "accesskey" ∷ "privatekey"
    ∷ "credential" ∷ "sessioncookie" ∷ "sessionid" ∷ []

keep_alphanumeric : List ℕ → List ℕ
keep_alphanumeric [] = []
keep_alphanumeric (c ∷ cs) =
    let rest = keep_alphanumeric cs in if is_alphanumeric c then lower c ∷ rest else rest

unfoldable pub normalize_artifact_key : String → List ℕ
unfolding keep_alphanumeric codes
normalize_artifact_key key = keep_alphanumeric (codes key)

-- `normalizedKey.includes("cookie") || normalizedKey.includes("session")`
abbrev cookie_or_credential : List ℕ → Category
cookie_or_credential key =
    if includes (codes "cookie") key || includes (codes "session") key
    then session_cookie
    else credential

unfoldable pub classify_token_bearing_artifact_key : List ℕ → Option Category
unfolding codes includes
classify_token_bearing_artifact_key key =
    if not (has_marker token_bearing_field_key_markers key)
    then none
    else some (cookie_or_credential key)

unfoldable pub classify_credential_bearing_artifact_key : List ℕ → Option Category
unfolding codes includes
classify_credential_bearing_artifact_key key =
    if is_key session_cookie_field_keys key
    then some session_cookie
    else if not (has_marker credential_bearing_field_key_markers key)
    then none
    else some (cookie_or_credential key)

-- `value.length === 0` and `Object.keys(value).length === 0`
unfoldable pub is_empty_public_placeholder : Value → Bool
is_empty_public_placeholder undefined = true
is_empty_public_placeholder null = true
is_empty_public_placeholder (str s) = s == ""
is_empty_public_placeholder (arr nil) = true
is_empty_public_placeholder (obj end) = true
is_empty_public_placeholder _ = false

-- `value ?? next`, of findings
abbrev pub otherwise : {A : Type 0} → Option A → Option A → Option A
otherwise none next = next
otherwise (some a) next = some a

unfoldable pub classify_unsafe_workflow_artifact_key : String → Value → Option Category
unfolding is_empty_public_placeholder normalize_artifact_key classify_token_bearing_artifact_key
    classify_credential_bearing_artifact_key
classify_unsafe_workflow_artifact_key key value =
    let normalized = normalize_artifact_key key in
    if is_empty_public_placeholder value
    then none
    else otherwise (classify_token_bearing_artifact_key normalized) (
        otherwise (classify_credential_bearing_artifact_key normalized) (
          if is_key regulated_field_keys normalized
          then some regulated_content
          else if is_key customer_identifier_field_keys normalized
          then some customer_identifier
          else none))

unfoldable pub format_unsafe_workflow_artifact_diagnostic : Finding → String
format_unsafe_workflow_artifact_diagnostic finding =
    finding.path
    ++ (" must not contain unsafe workflow artifact values (category: "
        ++ (category_text finding.category ++ ")"))

-- an array or an object
abbrev pub container : Value → Option Value
container (arr vs) = some (arr vs)
container (obj fs) = some (obj fs)
container (exotic fs) = some (exotic fs)
container _ = none

abbrev pub container_of : Option Value → Option Value
container_of none = none
container_of (some v) = container v

-- `category === undefined ? undefined : { path, category }`
abbrev pub found_at : String → Option Category → Option Finding
found_at path none = none
found_at path (some c) = some (record { path = path; category = c })

abbrev pub find_nested : (Value → String → Option Finding) → Option Value → String → Option Finding
find_nested nested none path = none
find_nested nested (some parsed) path = nested parsed path

module _ (js : Runtime) where
  unfoldable pub classify_unsafe_workflow_artifact_string : String → Option Category
  classify_unsafe_workflow_artifact_string value =
      if js.test private_key_block value
      then some private_key
      else if js.test token_value value || js.test token_assignment value
      then some token
      else if js.test session_cookie_text value
      then some session_cookie
      else if js.test regulated_content_assignment value
      then some regulated_content
      else if js.test customer_identifier_assignment value
      then some customer_identifier
      else if js.test secret_assignment value
      then some secret
      else if js.test workstation_local_path_text value
      then some workstation_local_path
      else none

  unfoldable pub parse_json_formatted_container : String → Option Value
  unfolding trim codes has_prefix
  parse_json_formatted_container value =
      let trimmed = trim value in
      if has_prefix (codes "{") (codes trimmed) || has_prefix (codes "[") (codes trimmed)
      then container_of (js.json_parse trimmed)
      else none

  -- The search, by what it does with the value that a text is parsed to.
  module _ (nested : Value → String → Option Finding) where
    unfoldable mutual
      pub find_in : Value → String → Option Finding
      find_in (str s) path =
          otherwise (find_nested nested (parse_json_formatted_container s) path)
            (found_at path (classify_unsafe_workflow_artifact_string s))
      find_in (arr vs) path = find_in_items 0 vs path
      find_in (obj fs) path = find_in_fields fs path
      find_in (exotic fs) path = find_in_fields fs path
      find_in _ path = none

      pub find_in_items : ℕ → Items → String → Option Finding
      find_in_items index nil path = none
      find_in_items index (cons v vs) path =
          otherwise (find_in v (path ++ ("[" ++ (js.number_text index ++ "]"))))
            (find_in_items (index + 1) vs path)

      pub find_in_fields : Fields → String → Option Finding
      find_in_fields end path = none
      find_in_fields (field key v fs) path = otherwise (find_in v (path ++ ("." ++ key))) (
          otherwise (found_at (path ++ ("." ++ key)) (classify_unsafe_workflow_artifact_key key v))
            (find_in_fields fs path))

  -- the search with at most so many texts parsed one within the other
  unfoldable pub find_within : ℕ → Value → String → Option Finding
  unfolding find_in
  find_within zero = find_in (λ v path. none)
  find_within (suc n) = find_in (find_within n)

-- the length of the longest text of a value
unfoldable mutual
  pub longest : Value → ℕ
  longest (str s) = text_length s
  longest (arr vs) = longest_item vs
  longest (obj fs) = longest_field fs
  longest (exotic fs) = longest_field fs
  longest _ = 0

  pub longest_item : Items → ℕ
  longest_item nil = 0
  longest_item (cons v vs) = max (longest v) (longest_item vs)

  pub longest_field : Fields → ℕ
  longest_field end = 0
  longest_field (field key v fs) = max (longest v) (longest_field fs)

-- A text within a value is shorter than the one the value was parsed from, so as many rounds as the
-- longest text has characters are enough.
unfoldable pub find_unsafe_workflow_artifact_value : Runtime → Value → String → Option Finding
unfolding find_within longest
find_unsafe_workflow_artifact_value js v path = find_within js (longest v) v path
