-- ===== src/Intake.antt =====
-- src/webhook-intake.ts: the input of a webhook, and what is accepted of it. A
-- `WebhookIntakeRejectedError` is its message.
pub mod Fingerprint
pub mod Consume
pub mod Laws
mod Tests
use Prim.Native.Char.{code}
use Prim.Native.String.{◌++◌, [] as []ᶜ, ◌∷◌ as ◌∷ᶜ◌}
use ensen_flow.Common.{
  ℕ, ◌+◌, suc, String, Bool, true, false, not, ◌&&◌, ◌||◌, ◌==◌, Option, none, some, List, [], ◌∷◌,
  length, any, eqb, leb, ltb, if◌then◌else◌, is_blank, insert, Result, ok, err, ◌>>=◌, ◌>>◌,
  require,
}
use ensen_flow.Common.Codes.{utf16_length, codes, is_alphanumeric, lower_all, includes}
use ensen_flow.Value.{
  Number, Value, undefined, null, bool, num, str, arr, obj, exotic, Items, nil, cons, Fields, end,
  field, items, entries, record_of, get, is_text, one_of,
}
use ensen_flow.Timestamps.{fits_pattern}

-- What the language's runtime does: `toLowerCase`; the text of a number; `new Date(text)`, if it is
-- a time, by `toISOString`; `left < right`; `JSON.stringify` of what is no object; SHA-256 in
-- hexadecimal.
pub record WebRuntime : Type 0 where
  pub to_lower_case : String → String
  pub number_text : ℕ → String
  pub iso_of_date : String → Option String
  pub less : String → String → Bool
  pub json : Value → String
  pub sha256 : String → String

-- `WebhookInput`, once it is normalized
pub record WebhookInput : Type 0 where
  pub request_id : String
  pub path : String
  pub received_at : String
  pub headers : Option (List (String × String))
  pub payload : Value

abbrev pub schema_version : String
schema_version = "flow.webhook.input.v1"

abbrev pub Checked : Type 0
Checked = Result String (Unit {0})

-- `[a-z0-9]`
abbrev is_word : ℕ → Bool
is_word c = (leb 97 c && leb c 122) || (leb 48 c && leb c 57)

-- `[a-z0-9-]*(?:\/[a-z0-9][a-z0-9-]*)*$`; 45 is the dash and 47 the slash
unfoldable mutual
  pub path_rest : List ℕ → Bool
  path_rest [] = true
  path_rest (c ∷ cs) = if eqb c 47 then path_segment cs else (is_word c || eqb c 45) && path_rest cs

  pub path_segment : List ℕ → Bool
  path_segment [] = false
  path_segment (c ∷ cs) = is_word c && path_rest cs

-- `WEBHOOK_PATH_PATTERN.test(s)`
unfoldable pub is_webhook_path : List ℕ → Bool
unfolding path_segment
is_webhook_path [] = false
is_webhook_path (c ∷ cs) = eqb c 47 && path_segment cs

-- `[A-Za-z0-9._:-]{0,n}$`
unfoldable pub id_rest : ℕ → List ℕ → Bool
id_rest n [] = true
id_rest ℕ.zero (c ∷ cs) = false
id_rest (suc n) (c ∷ cs) =
    (is_alphanumeric c || eqb c 46 || eqb c 95 || eqb c 58 || eqb c 45) && id_rest n cs

-- `WEBHOOK_REQUEST_ID_PATTERN.test(s)`
unfoldable pub is_webhook_request_id : List ℕ → Bool
unfolding id_rest
is_webhook_request_id [] = false
is_webhook_request_id (c ∷ cs) = is_alphanumeric c && id_rest 127 cs

-- `/^[a-z0-9][a-z0-9-]*$/.test(name)`
unfoldable pub name_rest : List ℕ → Bool
name_rest [] = true
name_rest (c ∷ cs) = (is_word c || eqb c 45) && name_rest cs

unfoldable pub is_header_name : List ℕ → Bool
unfolding name_rest
is_header_name [] = false
is_header_name (c ∷ cs) = is_word c && name_rest cs

abbrev blocked_header_names : List String
blocked_header_names =
    "authorization" ∷ "cookie" ∷ "set-cookie" ∷ "x-api-key" ∷ "x-auth-token" ∷ "x-signature"
    ∷ "x-webhook-signature" ∷ "x-forwarded-for" ∷ "x-forwarded-host" ∷ "x-forwarded-proto"
    ∷ "forwarded" ∷ "host" ∷ "x-tenant-id" ∷ "x-user-id" ∷ []

abbrev webhook_input_allowed_keys : List String
webhook_input_allowed_keys =
    "schemaVersion" ∷ "requestId" ∷ "path" ∷ "receivedAt" ∷ "headers" ∷ "payload" ∷ []

abbrev credential_words : List String
credential_words =
    "secret" ∷ "token" ∷ "password" ∷ "credential" ∷ "apikey" ∷ "api-key" ∷ "api_key" ∷ "signature"
    ∷ []

-- `CREDENTIAL_KEY_PATTERN.test(key)`
unfoldable pub is_credential_key : String → Bool
unfolding codes lower_all includes
is_credential_key key = any (λ w. includes (codes w) (lower_all (codes key))) credential_words

unfoldable pub reject_unknown_keys : List (String × Value) → Checked
reject_unknown_keys [] = ok tt
reject_unknown_keys ((key, v) ∷ fs) = do
  require (one_of webhook_input_allowed_keys key) (key ++ " is outside the webhook intake boundary")
  reject_unknown_keys fs

abbrev need_record : Value → String → Result String (List (String × Value))
need_record v message = elim (record_of v) [ none ↦ err message | some fs ↦ ok fs ]

-- a text that passes a test
abbrev need_text : (String → Bool) → Value → String → Result String String
need_text test (str s) message = if test s then ok s else err message
need_text test _ message = err message

module _ (js : WebRuntime) where
  unfoldable pub add_headers :
      List (String × Value) → List (String × String) → Result String (List (String × String))
  unfolding is_header_name codes utf16_length insert
  add_headers [] headers = ok headers
  add_headers ((raw_name, raw_value) ∷ fs) headers = do
    let name = js.to_lower_case raw_name
    require (is_header_name (codes name)) "webhook input header names must be stable tokens"
    require (not (one_of blocked_header_names name))
        "webhook headers must not include credential or forwarded boundary headers"
    value ←
        need_text (λ s. leb (utf16_length s) 512) raw_value
          "webhook input header values must be bounded strings"
    add_headers fs (insert name value headers)

  abbrev some_headers :
      Result String (List (String × String)) → Result String (Option (List (String × String)))
  some_headers (ok headers) = ok (some headers)
  some_headers (err message) = err message

  unfoldable pub normalize_headers : Value → Result String (Option (List (String × String)))
  unfolding add_headers
  normalize_headers undefined = ok none
  normalize_headers v = do
    fs ← need_record v "webhook input headers must be an object"
    require (leb (length fs) 20) "webhook input headers exceed the bounded header count"
    some_headers (add_headers fs [])

  unfoldable mutual
    -- of a value that is not too deep
    pub bounded_value : Value → String → ℕ → Checked
    bounded_value null path depth = ok tt
    bounded_value (bool b) path depth = ok tt
    bounded_value (str s) path depth =
        require (leb (utf16_length s) 2048) (path ++ " string value is too large")
    bounded_value (num Number.not_finite) path depth =
        err (path ++ " must contain only finite numbers")
    bounded_value (num n) path depth = ok tt
    bounded_value (arr vs) path depth =
        require (leb (length (items vs)) 50) (path ++ " array is too large")
        >> bounded_items 0 vs path (suc depth)
    bounded_value (obj fs) path depth =
        require (leb (length (entries fs)) 50) (path ++ " object has too many keys")
        >> bounded_fields fs path (suc depth)
    bounded_value (exotic fs) path depth =
        require (leb (length (entries fs)) 50) (path ++ " object has too many keys")
        >> bounded_fields fs path (suc depth)
    bounded_value _ path depth = err (path ++ " must contain only JSON values")

    pub bounded_items : ℕ → Items → String → ℕ → Checked
    bounded_items index nil path depth = ok tt
    bounded_items index (cons v vs) path depth =
        (require (leb depth 6)
            (path ++ ("[" ++ (js.number_text index ++ "]")) ++ " exceeds the maximum JSON depth")
          >> bounded_value v (path ++ ("[" ++ (js.number_text index ++ "]"))) depth)
        >> bounded_items (suc index) vs path depth

    pub bounded_fields : Fields → String → ℕ → Checked
    bounded_fields end path depth = ok tt
    bounded_fields (field key v fs) path depth =
        (require (leb depth 6) (path ++ ("." ++ key) ++ " exceeds the maximum JSON depth")
          >> bounded_value v (path ++ ("." ++ key)) depth)
        >> bounded_fields fs path depth

  unfoldable pub validate_bounded_json : Value → String → ℕ → Checked
  unfolding bounded_value
  validate_bounded_json v path depth =
      require (leb depth 6) (path ++ " exceeds the maximum JSON depth")
      >> bounded_value v path depth

  unfoldable mutual
    pub reject_credential_shaped_value : Value → String → Checked
    reject_credential_shaped_value (arr vs) path = reject_in_items 0 vs path
    reject_credential_shaped_value (obj fs) path = reject_in_fields fs path
    reject_credential_shaped_value (exotic fs) path = reject_in_fields fs path
    reject_credential_shaped_value _ path = ok tt

    pub reject_in_items : ℕ → Items → String → Checked
    reject_in_items index nil path = ok tt
    reject_in_items index (cons v vs) path =
        reject_credential_shaped_value v (path ++ ("[" ++ (js.number_text index ++ "]")))
        >> reject_in_items (suc index) vs path

    pub reject_in_fields : Fields → String → Checked
    reject_in_fields end path = ok tt
    reject_in_fields (field key v fs) path =
        (require (not (is_credential_key key))
            (path ++ ("." ++ (key ++ " looks credential-shaped")))
          >> reject_credential_shaped_value v (path ++ ("." ++ key)))
        >> reject_in_fields fs path

  unfoldable pub is_strict_utc_millis_timestamp : String → Bool
  unfolding fits_pattern codes
  is_strict_utc_millis_timestamp value =
      fits_pattern (codes "dddd-dd-ddTdd:dd:dd.dddZ") (codes value)
      && elim (js.iso_of_date value) [ none ↦ false | some iso ↦ iso == value ]

  abbrev is_request_id : String → Bool
  is_request_id s = not (is_blank s) && is_webhook_request_id (codes s)

  unfoldable pub normalize_webhook_input : Value → String → Result String WebhookInput
  unfolding reject_unknown_keys normalize_headers validate_bounded_json
      is_strict_utc_millis_timestamp is_webhook_path is_webhook_request_id is_blank codes
  normalize_webhook_input v expected_path = do
    fs ← need_record v "webhook input must be an object"
    reject_unknown_keys fs
    require (is_text schema_version (get fs "schemaVersion"))
        ("webhook input schemaVersion must be " ++ schema_version)
    request_id ←
        need_text is_request_id (get fs "requestId")
          "webhook input requestId must be a bounded stable identifier"
    path ←
        need_text (λ s. is_webhook_path (codes s)) (get fs "path")
          "webhook input path must be a local absolute path with stable kebab-case segments"
    require (path == expected_path) "webhook input path must match workflow trigger.path"
    received_at ←
        need_text is_strict_utc_millis_timestamp (get fs "receivedAt")
          "webhook input receivedAt must be an ISO-8601 UTC timestamp with milliseconds"
    headers ← normalize_headers (get fs "headers")
    payload ← need_record (get fs "payload") "webhook input payload must be an object"
    validate_bounded_json (get fs "payload") "webhook input payload" 0
    ok (record {
      request_id = request_id;
      path = path;
      received_at = received_at;
      headers = headers;
      payload = get fs "payload";
    })
