-- ===== src/Connector/File.antt =====
-- src/file-connector.ts: the connector for local files: its requests, and the roots it is given.
pub mod Resolve
mod Allowed
pub mod Contained
pub mod Receipt
pub mod Submit
pub mod Fingerprint
pub mod Laws
mod Tests
use Prim.Native.Char.{Char}
use Prim.Native.String.{◌++◌}
use ensen_flow.Common.{
  ℕ, String, Bool, true, false, not, ◌&&◌, ◌==◌, Option, none, some, List, [], ◌∷◌, any,
  if◌then◌else◌, is_some, is_blank, lookup, insert, Result, ok, err, ◌>>=◌, ◌>>◌, require,
}
use ensen_flow.Common.Codes.{codes, lower_all, includes}
use ensen_flow.Value.{Value, undefined, str, record_of, array_of, string_of, get, is_text}
use ensen_flow.Definition.Patterns.{is_stable_id}

pub data LocalFileAction : Type 0 where
  read write : LocalFileAction

-- `LocalFileRequest` and `LocalFileSubmitRequest`, once they are validated
pub record LocalFileRequest : Type 0 where
  pub action : LocalFileAction
  pub root_alias : String
  pub path : String
  pub content : Option String

pub record LocalFileSubmitRequest : Type 0 where
  pub workflow_id : String
  pub run_id : String
  pub step_id : String
  pub idempotency_key : String
  pub file : LocalFileRequest

-- `NormalizedAllowedRoot`, under its alias
pub record NormalizedAllowedRoot : Type 0 where
  pub alias : String
  pub path : String

pub data NodeError : Type 0 where
  enoent other_error : NodeError

-- What Node does: the functions of `node:path`, those of `node:fs/promises` on the files of a world
-- (`lstat` tells whether the path is a symbolic link), `Buffer.byteLength`, and `now`.
pub record Node (W : Type 0) : Type 0 where
  pub sep : Char
  pub is_absolute : String → Bool
  pub normalize : String → String
  pub resolve : String → String
  pub resolve_from : String → String → String
  pub relative : String → String → String
  pub root_of : String → String
  pub dirname : String → String
  pub lstat : String → W → Result NodeError Bool
  pub mkdir : String → W → Result NodeError (Unit {0}) × W
  pub read_file : String → W → Result NodeError String
  pub write_file : String → String → W → Result NodeError (Unit {0}) × W
  pub byte_length : String → ℕ
  pub now : W → String

-- `typeof fs[k] === "string" && fs[k].trim() !== ""`, or the message
abbrev some_text : Option String → String → Result String String
some_text none message = err message
some_text (some s) message = if is_blank s then err message else ok s

unfoldable pub text_field : List (String × Value) → String → String → Result String String
text_field fs k message = some_text (string_of (get fs k)) message

abbrev action_of : Value → Option LocalFileAction
action_of v = if is_text "read" v then some read else if is_text "write" v then some write else none

abbrev or_refused : {A : Type 0} → Option A → String → Result String A
or_refused none message = err message
or_refused (some a) message = ok a

abbrev alias_of : Option String → Option String
alias_of none = none
alias_of (some s) = if is_stable_id s then some s else none

-- `content`, by the action
unfoldable pub content_field : LocalFileAction → Value → Result String (Option String)
content_field write (str s) = ok (some s)
content_field write _ = err "local file write content must be a string"
content_field read undefined = ok none
content_field read _ = err "local file read request must not include content"

unfoldable pub validate_file : List (String × Value) → Result String LocalFileRequest
unfolding text_field content_field is_stable_id
validate_file fs = do
  action ← or_refused (action_of (get fs "action")) "local file action must be read or write"
  root_alias ←
      or_refused (alias_of (string_of (get fs "rootAlias")))
        "local file rootAlias must be a configured stable alias"
  path ← text_field fs "path" "local file path must be a non-empty relative path"
  content ← content_field action (get fs "content")
  ok (record { action = action; root_alias = root_alias; path = path; content = content })

-- `validateSubmitRequest`: the message, or the request that the rest of `submit` reads
unfoldable pub validate_submit_request :
    List (String × Value) → Result String LocalFileSubmitRequest
unfolding validate_file text_field
validate_submit_request fs = do
  workflow_id ← text_field fs "workflowId" "local file workflowId must be a non-empty string"
  run_id ← text_field fs "runId" "local file runId must be a non-empty string"
  step_id ← text_field fs "stepId" "local file stepId must be a non-empty string"
  idempotency_key ←
      text_field fs "idempotencyKey" "local file idempotencyKey must be a non-empty string"
  file_fields ←
      or_refused (record_of (get fs "file")) "local file request must include a file object"
  file ← validate_file file_fields
  ok (record {
    workflow_id = workflow_id;
    run_id = run_id;
    step_id = step_id;
    idempotency_key = idempotency_key;
    file = file;
  })

-- `credentialValuePattern.test(text)`
abbrev credential_words : List String
credential_words =
    "authorization" ∷ "cookie" ∷ "password" ∷ "secret" ∷ "token" ∷ "apikey" ∷ "api-key" ∷ "api_key"
    ∷ []

unfoldable pub has_credential_value : String → Bool
unfolding codes lower_all includes
has_credential_value text = any (λ w. includes (codes w) (lower_all (codes text))) credential_words

-- an array that is not empty
abbrev pub some_roots : Option (List Value) → Result String (List Value)
some_roots (some (root ∷ roots)) = ok (root ∷ roots)
some_roots _ = err "local file connector requires at least one allowed root"

-- the map, in the order of its entries
abbrev pub Roots : Type 0
Roots = List (String × NormalizedAllowedRoot)

module _ {W : Type 0} (node : Node W) where
  -- one round of the loop of `normalizeAllowedRoots`
  unfoldable pub normalize_allowed_root : Value → Roots → Result String (Roots)
  unfolding has_credential_value is_stable_id lookup insert is_blank
  normalize_allowed_root root normalized = do
    fs ← or_refused (record_of root) "local file allowed root must be an object"
    alias ←
        or_refused (alias_of (string_of (get fs "alias")))
          "local file allowed root alias must be stable kebab-case"
    require (not (is_some (lookup alias normalized)))
        ("local file allowed root alias " ++ (alias ++ " must be unique"))
    path ← text_field fs "path" "local file allowed root path must be a non-empty absolute path"
    require (node.is_absolute path) "local file allowed root path must be absolute"
    require (not (has_credential_value path))
        "local file allowed root path must not contain credential-shaped segments"
    let root_path = node.resolve path
    require (not (root_path == node.root_of root_path))
        "local file allowed root path must not be a filesystem root"
    ok (insert alias (record { alias = alias; path = root_path }) normalized)

  unfoldable pub normalize_roots : List Value → Roots → Result String (Roots)
  unfolding normalize_allowed_root
  normalize_roots [] normalized = ok normalized
  normalize_roots (root ∷ roots) normalized = do
    more ← normalize_allowed_root root normalized
    normalize_roots roots more

  unfoldable pub normalize_allowed_roots : Value → Result String (Roots)
  unfolding normalize_roots
  normalize_allowed_roots allowed_roots = do
    roots ← some_roots (array_of allowed_roots)
    normalize_roots roots []
