-- ===== src/Intake/Fingerprint.antt =====
-- src/webhook-intake.ts: the fingerprint of an input, by itself and as a run keeps it, and run ids.
use Prim.Native.Char.{code}
use Prim.Native.String.{◌++◌, [] as []ᶜ, ◌∷◌ as ◌∷ᶜ◌}
use ensen_flow.Common.{
  ℕ, zero, suc, String, Bool, true, false, ◌||◌, ◌&&◌, ◌==◌, Option, none, some, List, [], ◌∷◌, eqb,
  leb, if◌then◌else◌, insert, map,
}
use ensen_flow.Value.{
  Value, str, arr, obj, exotic, Items, nil, cons, Fields, end, field, from_entries, record_of,
  string_of, get,
}
use ensen_flow.RunState.{RunState}
use ensen_flow.Intake.{WebRuntime, WebhookInput, schema_version}

-- `parts.join(",")`
unfoldable pub join_comma : List String → String
join_comma [] = ""
join_comma (part ∷ []) = part
join_comma (part ∷ (next ∷ parts)) = part ++ ("," ++ join_comma (next ∷ parts))

module _ (js : WebRuntime) where
  -- `entries.sort(...)`, an entry as its key and the text of its value
  unfoldable pub insert_sorted : String × String → List (String × String) → List (String × String)
  insert_sorted e [] = e ∷ []
  insert_sorted (k, v) ((l, u) ∷ es) =
      let rest = insert_sorted (k, v) es in
      if js.less l k || (l == k) then (l, u) ∷ rest else (k, v) ∷ ((l, u) ∷ es)

  -- later entries stay behind earlier ones of the same key
  unfoldable pub sort_entries :
      List (String × String) → List (String × String) → List (String × String)
  unfolding insert_sorted
  sort_entries sorted [] = sorted
  sort_entries sorted (e ∷ es) = sort_entries (insert_sorted e sorted) es

  abbrev entry_text : String × String → String
  entry_text (k, v) = js.json (str k) ++ (":" ++ v)

  abbrev object_text : List (String × String) → String
  object_text es = "{" ++ (join_comma (map entry_text (sort_entries [] es)) ++ "}")

  unfoldable mutual
    unfolding sort_entries join_comma

    pub stable_stringify : Value → String
    stable_stringify (arr vs) = "[" ++ (join_comma (item_texts vs) ++ "]")
    stable_stringify (obj fs) = object_text (field_texts fs)
    stable_stringify (exotic fs) = object_text (field_texts fs)
    stable_stringify v = js.json v

    pub item_texts : Items → List String
    item_texts nil = []
    item_texts (cons v vs) = stable_stringify v ∷ item_texts vs

    pub field_texts : Fields → List (String × String)
    field_texts end = []
    field_texts (field key v fs) = (key, stable_stringify v) ∷ field_texts fs

  abbrev pub header_value : String × String → String × Value
  header_value (name, value) = (name, str value)

  abbrev pub headers_field : Option (List (String × String)) → Fields → Fields
  headers_field none fs = fs
  headers_field (some headers) fs =
      field "headers" (obj (from_entries (map header_value headers))) fs

  -- the input as a value
  abbrev pub input_value : WebhookInput → Value
  input_value input = obj (
      field "schemaVersion" (str schema_version) (
        field "requestId" (str input.request_id) (
          field "path" (str input.path) (
            field "receivedAt" (str input.received_at)
              (headers_field input.headers (field "payload" input.payload end))))))

  unfoldable pub create_webhook_input_fingerprint : WebhookInput → String
  unfolding stable_stringify
  create_webhook_input_fingerprint input = js.sha256 (stable_stringify (input_value input))

  -- `isRecord(value) ? value[key] : undefined`
  abbrev field_of : String → Value → Value
  field_of key v = elim (record_of v) [ none ↦ Value.undefined | some fs ↦ get fs key ]

  abbrev webhook_of : Option Value → Value
  webhook_of none = Value.undefined
  webhook_of (some context) = field_of "webhook" context

  unfoldable pub read_stored_webhook_input_fingerprint : RunState → Option String
  read_stored_webhook_input_fingerprint s =
      string_of (field_of "inputFingerprint" (webhook_of s.run.trigger.context))

  unfoldable pub read_headers :
      List (String × Value) → List (String × String) → Option (List (String × String))
  unfolding insert
  read_headers [] headers = some headers
  read_headers ((key, str value) ∷ fs) headers = read_headers fs (insert key value headers)
  read_headers ((key, _) ∷ fs) headers = none

  abbrev found_headers : Option (List (String × String)) → Option (Option (List (String × String)))
  found_headers none = none
  found_headers (some headers) = some (some headers)

  -- none where the source has `null`
  unfoldable pub read_legacy_webhook_headers : Value → Option (Option (List (String × String)))
  unfolding read_headers
  read_legacy_webhook_headers Value.undefined = some none
  read_legacy_webhook_headers v = elim (record_of v) [
    | none ↦ none
    | some fs ↦ found_headers (read_headers fs [])
  ]

  abbrev legacy_input :
      Option String
      → Option String
      → Option String
      → Option (Option (List (String × String)))
      → Value
      → Option WebhookInput
  legacy_input (some request_id) (some path) (some received_at) (some headers) payload =
      elim (record_of payload) [
        | none ↦ none
        | some fs ↦ some (record {
          request_id = request_id;
          path = path;
          received_at = received_at;
          headers = headers;
          payload = payload;
        })
      ]
  legacy_input _ _ _ _ payload = none

  abbrev fingerprint_of : Option WebhookInput → Option String
  fingerprint_of none = none
  fingerprint_of (some input) = some (create_webhook_input_fingerprint input)

  abbrev context_field : String → Option Value → Value
  context_field key none = Value.undefined
  context_field key (some context) = field_of key context

  unfoldable pub derive_legacy_webhook_input_fingerprint : RunState → Option String
  unfolding create_webhook_input_fingerprint read_legacy_webhook_headers
  derive_legacy_webhook_input_fingerprint s =
      let webhook = webhook_of s.run.trigger.context in
      fingerprint_of (
        legacy_input (string_of (context_field "requestId" s.run.trigger.context))
          (string_of (field_of "path" webhook)) (string_of (field_of "receivedAt" webhook))
          (read_legacy_webhook_headers (field_of "headers" webhook)) (field_of "payload" webhook))

  abbrev stored_or : Option String → Option String → Option String
  stored_or none legacy = legacy
  stored_or (some fingerprint) legacy = some fingerprint

  -- the fingerprint that `assertWebhookInputMatchesState` compares with
  unfoldable pub existing_fingerprint : RunState → Option String
  unfolding read_stored_webhook_input_fingerprint derive_legacy_webhook_input_fingerprint
  existing_fingerprint s =
      stored_or (read_stored_webhook_input_fingerprint s)
        (derive_legacy_webhook_input_fingerprint s)

  -- `[a-z0-9-]`
  abbrev is_slug : ℕ → Bool
  is_slug c = (leb 97 c && leb c 122) || (leb 48 c && leb c 57) || eqb c 45

  -- `text.replaceAll(/[^a-z0-9-]+/g, "-")`, after a character that was replaced or not
  unfoldable pub dashed : Bool → String → String
  dashed replaced []ᶜ = ""
  dashed replaced (c ∷ᶜ s) =
      let kept = dashed false s in
      let more = dashed true s in
      if is_slug (code c) then c ∷ᶜ kept else if replaced then more else "-" ++ more

  -- `text.replace(/^-+|-+$/g, "")`
  unfoldable pub drop_dashes : String → String
  drop_dashes []ᶜ = ""
  drop_dashes (c ∷ᶜ s) = if eqb (code c) 45 then drop_dashes s else c ∷ᶜ s

  unfoldable pub only_dashes : String → Bool
  only_dashes []ᶜ = true
  only_dashes (c ∷ᶜ s) = eqb (code c) 45 && only_dashes s

  unfoldable pub drop_last_dashes : String → String
  unfolding only_dashes
  drop_last_dashes []ᶜ = ""
  drop_last_dashes (c ∷ᶜ s) = if only_dashes (c ∷ᶜ s) then "" else c ∷ᶜ drop_last_dashes s

  -- `text.slice(0, n)`
  unfoldable pub take_chars : ℕ → String → String
  take_chars zero s = ""
  take_chars (suc n) []ᶜ = ""
  take_chars (suc n) (c ∷ᶜ s) = c ∷ᶜ take_chars n s

  unfoldable pub create_webhook_run_id : String → String → String
  unfolding dashed drop_dashes drop_last_dashes take_chars
  create_webhook_run_id workflow_id request_id =
      let slug = drop_last_dashes (drop_dashes (dashed false (js.to_lower_case request_id))) in
      workflow_id
      ++ ("-webhook-"
          ++ ((if slug == "" then "request" else slug)
              ++ ("-" ++ take_chars 12 (js.sha256 request_id))))
