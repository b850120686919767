-- ===== src/Connector/File/Tests.antt =====
-- The file connector at concrete requests.
use Prim.Native.Char.{Char}
use Prim.Native.String.{◌++◌, [] as []ᶜ, ◌∷◌ as ◌∷ᶜ◌}
use text.Mathlib.Text.{starts_with}
use text.Mathlib.TextLemmas.{append_assoc, cons-append, append_cancel_left}
use ensen_flow.Common.{
  String, Bool, false, ◌≡◌, ◌≢◌, is_blank, refl, sym, ap, ◌∙◌, Option, none, some, List, [], ◌∷◌,
  lookup, insert, Result, ok, err, arith,
}
use ensen_flow.Common.Codes.{text_length}
use ensen_flow.Value.{Value, str, arr, obj, nil, cons, end, field, entries}
use ensen_flow.Definition.Patterns.{matches_rest}
use ensen_flow.Hygiene.{
  Runtime, find_unsafe_workflow_artifact_value, parse_json_formatted_container,
  classify_unsafe_workflow_artifact_string,
}
use ensen_flow.Connector.Idempotency.{empty}
use ensen_flow.Connector.File.{text_field, write, LocalFileSubmitRequest, NodeError, enoent, Node}
use ensen_flow.Connector.File.Submit.{LocalFileConnector, create_local_file_connector, submit_file}
use ensen_flow.Connector.File.Laws.{Acts, submit_file-Acts}
use ensen_flow.Connector.File.Fingerprint.{
  first_code, first_code-append, IsQuoting, IsSameAction, fingerprint_file_request-inj,
}

-- a quoting that escapes each character
unfoldable escape : String → String
escape []ᶜ = "\""
escape (c ∷ᶜ s) = "\\" ++ (c ∷ᶜ escape s)

abbrev small : Runtime
small = record {
  test = λ p s. false;
  json_parse = λ s. none;
  number_text = λ n. "0";
  json_string = λ s. "\"" ++ escape s;
}

-- a world is its files, each under its path
abbrev Files : Type 0
Files = List (String × String)

abbrev drop_first : String → String → String
drop_first []ᶜ []ᶜ = []ᶜ
drop_first []ᶜ (c ∷ᶜ s) = s
drop_first (c ∷ᶜ a) []ᶜ = []ᶜ
drop_first (c ∷ᶜ a) (d ∷ᶜ b) = drop_first a b

abbrev found : {A : Type 0} → Option A → Result NodeError A
found none = err enoent
found (some a) = ok a

abbrev no_link : Option String → Result NodeError Bool
no_link none = err enoent
no_link (some a) = ok false

abbrev posix : Node Files
posix = record {
  sep = "/";
  is_absolute = λ p. starts_with p "/";
  normalize = λ p. p;
  resolve = λ p. p;
  resolve_from = λ a b. a ++ ("/" ++ b);
  relative = drop_first;
  root_of = λ p. "/";
  dirname = λ p. p;
  lstat = λ p w. no_link (lookup p w);
  mkdir = λ p w. (ok tt, w);
  read_file = λ p w. found (lookup p w);
  write_file = λ p content w. (ok tt, insert p content w);
  byte_length = text_length;
  now = λ w. "2024-05-01T00:00:00.000Z";
}

abbrev roots : Value
roots = arr (cons (obj (field "alias" (str "work") (field "path" (str "/work") end))) nil)

abbrev write_fields : List (String × Value)
write_fields = entries (
    field "workflowId" (str "w") (
      field "runId" (str "r") (
        field "stepId" (str "s") (
          field "idempotencyKey" (str "k") (
            field "file"
              (obj (
                field "action" (str "write") (
                  field "rootAlias" (str "work")
                    (field "path" (str "a.txt") (field "content" (str "hello") end)))))
              end)))))

abbrev connector : LocalFileConnector
connector = record {
  connector_id = "local-file";
  allowed_roots = ("work", record { alias = "work"; path = "/work" }) ∷ [];
}

connector_created : create_local_file_connector posix none roots ≡ ok connector
unfolding create_local_file_connector matches_rest text_field
connector_created = refl

-- the file is written, and nothing else
submit_writes :
    (submit_file posix small connector write_fields (("/work", "") ∷ []) empty).1
    ≡ ("/work", "") ∷ ("/work/a.txt", "hello") ∷ []
unfolding submit_file empty is_blank matches_rest find_unsafe_workflow_artifact_value text_length
    parse_json_formatted_container classify_unsafe_workflow_artifact_string insert
submit_writes = refl

submit_file-Acts_example :
    Acts posix small connector.allowed_roots write_fields
      (("/work", "") ∷ [])
      empty
      (submit_file posix small connector write_fields (("/work", "") ∷ []) empty).1
submit_file-Acts_example =
    submit_file-Acts posix small none roots connector connector_created write_fields
      (("/work", "") ∷ []) empty

quote-ne-escaped : (c : Char) (t u v : String) → "\"" ++ u ≢ ("\\" ++ (c ∷ᶜ escape t)) ++ v
unfolding first_code
quote-ne-escaped c t u v h =
    let c1 = ap first_code h in
    let left = first_code-append "\"" u (omega arith) in
    let inner = first_code-append "\\" (c ∷ᶜ escape t) (omega arith) in
    let right = first_code-append ("\\" ++ (c ∷ᶜ escape t)) v (omega arith) in absurd (omega arith)

escape-ends : (s t u v : String) → escape s ++ u ≡ escape t ++ v → (s ≡ t) × (u ≡ v)
unfolding escape
escape-ends []ᶜ []ᶜ u v h = (refl, append_cancel_left "\"" u v h)
escape-ends []ᶜ (c ∷ᶜ t) u v h = absurd (quote-ne-escaped c t u v h)
escape-ends (c ∷ᶜ s) []ᶜ u v h = absurd (quote-ne-escaped c s v u (sym h))
escape-ends (c ∷ᶜ s) (d ∷ᶜ t) u v h =
    let bare =
      append_cancel_left "\\" _ _ (sym (append_assoc "\\" _ u) ∙ h ∙ append_assoc "\\" _ v) in
    let after : c ∷ᶜ (escape s ++ u) ≡ d ∷ᶜ (escape t ++ v) =
      sym (cons-append c (escape s) u) ∙ bare ∙ cons-append d (escape t) v in
    let (same, rest) = escape-ends s t u v (cc) in (cc, rest)

small-IsQuoting : IsQuoting small
small-IsQuoting = record {
  ends = λ s t u v h. escape-ends s t u v (
      append_cancel_left "\"" _ _
        (sym (append_assoc "\"" (escape s) u) ∙ h ∙ append_assoc "\"" (escape t) v));
  quoted = λ s. (escape s, refl);
}

abbrev request : LocalFileSubmitRequest
request = record {
  workflow_id = "w";
  run_id = "r";
  step_id = "s";
  idempotency_key = "k";
  file = record { action = write; root_alias = "work"; path = "a.txt"; content = some "hello" };
}

fingerprint_file_request-inj_example : IsSameAction small request request "a.txt" "a.txt"
fingerprint_file_request-inj_example =
    fingerprint_file_request-inj small small-IsQuoting request request "a.txt" "a.txt" refl
