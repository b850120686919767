-- ===== src/Connector/File/Fingerprint.antt =====
-- src/file-connector.ts: when `fingerprintFileRequest` is the same for two requests.
use Prim.Native.Char.{code}
use Prim.Native.String.{◌++◌, [] as []ᶜ, ◌∷◌ as ◌∷ᶜ◌}
use text.Mathlib.TextLemmas.{cons-append, append_cancel_left}
use ensen_flow.Common.{◌<◌, ℕ, String, ◌≡◌, ◌≢◌, refl, sym, ap, Option, none, some, arith}
use ensen_flow.Hygiene.{Runtime}
use ensen_flow.Connector.File.{LocalFileAction, read, write, LocalFileSubmitRequest}
use ensen_flow.Connector.File.Submit.{
  action_text, json_content, stringify_entries, fingerprint_file_request,
}

unfoldable pub first_code : String → ℕ
first_code []ᶜ = 0
first_code (c ∷ᶜ s) = code c

pub first_code-append : (s u : String) → 0 < first_code s → first_code (s ++ u) ≡ first_code s
unfolding first_code
first_code-append []ᶜ u h = absurd (omega arith)
first_code-append (c ∷ᶜ s) u h = ap first_code (cons-append c s u)

module _ (js : Runtime) where
  -- The text that `JSON.stringify` makes of a string starts with a quote, and ends where the next
  -- quote is that is not escaped.
  pub record IsQuoting : Type 0 where
    pub ends :
        (s t u v : String) → js.json_string s ++ u ≡ js.json_string t ++ v → (s ≡ t) × (u ≡ v)
    pub quoted : (s : String) → (rest : String) × (js.json_string s ≡ "\"" ++ rest)

  -- the fields of two requests that the reuse of a key must keep
  pub record IsSameAction (r r' : LocalFileSubmitRequest) (path path' : String) : Type 0 where
    pub workflow_id : r.workflow_id ≡ r'.workflow_id
    pub run_id : r.run_id ≡ r'.run_id
    pub step_id : r.step_id ≡ r'.step_id
    pub action : r.file.action ≡ r'.file.action
    pub root_alias : r.file.root_alias ≡ r'.file.root_alias
    pub paths : path ≡ path'
    pub content : r.file.content ≡ r'.file.content

  action_text-inj : (a b : LocalFileAction) → action_text a ≡ action_text b → a ≡ b
  unfolding first_code
  action_text-inj read read h = refl
  action_text-inj write write h = refl
  action_text-inj read write h = let c = ap first_code h in absurd (omega arith)
  action_text-inj write read h = let c = ap first_code h in absurd (omega arith)

  module _ (quoting : IsQuoting) where
    -- an entry whose value is a string
    entry-eq :
        (k a b : String) {u v : String}
        → js.json_string k ++ (":" ++ (js.json_string a ++ u))
          ≡ js.json_string k ++ (":" ++ (js.json_string b ++ v))
        → (a ≡ b) × (u ≡ v)
    entry-eq k a b {u} {v} h =
        let (same_key, after) =
          quoting.ends k k (":" ++ (js.json_string a ++ u)) (":" ++ (js.json_string b ++ v)) h in
        quoting.ends a b u v (append_cancel_left ":" _ _ after)

    null-ne-quoted : (s u v : String) → "null" ++ u ≢ js.json_string s ++ v
    unfolding first_code
    null-ne-quoted s u v h =
        let (rest, starts) = quoting.quoted s in
        let same : "null" ++ u ≡ ("\"" ++ rest) ++ v = rw (← starts) h in
        let c = ap first_code same in
        let left = first_code-append "null" u (omega arith) in
        let opening = first_code-append "\"" rest (omega arith) in
        let right = first_code-append ("\"" ++ rest) v (omega arith) in absurd (omega arith)

    content-eq :
        (a b : Option String) {u v : String}
        → json_content js a ++ u ≡ json_content js b ++ v
        → (a ≡ b) × (u ≡ v)
    content-eq none none {u} {v} h = (refl, append_cancel_left "null" u v h)
    content-eq (some a) (some b) {u} {v} h =
        let (same, rest) = quoting.ends a b u v h in (ap some same, rest)
    content-eq none (some b) {u} {v} h = absurd (null-ne-quoted b u v h)
    content-eq (some a) none {u} {v} h = absurd (null-ne-quoted a v u (sym h))

    -- Where a string's JSON text tells where it ends: two requests have the same fingerprint only if
    -- they have the same ids of workflow, run and step, and the same action, root, path and content.
    pub fingerprint_file_request-inj :
        (r r' : LocalFileSubmitRequest) (path path' : String)
        → fingerprint_file_request js r path ≡ fingerprint_file_request js r' path'
        → IsSameAction r r' path path'
    unfolding fingerprint_file_request stringify_entries
    fingerprint_file_request-inj r r' path path' h =
        let (actions, h1) = entry-eq "action" _ _ (append_cancel_left "{" _ _ h) in
        let (t2, h2) = quoting.ends "content" "content" _ _ (append_cancel_left "," _ _ h1) in
        let (contents, h3) =
          content-eq r.file.content r'.file.content (append_cancel_left ":" _ _ h2) in
        let (paths, h4) = entry-eq "path" path path' (append_cancel_left "," _ _ h3) in
        let (roots, h5) =
          entry-eq "rootAlias" r.file.root_alias r'.file.root_alias
            (append_cancel_left "," _ _ h4) in
        let (runs, h6) = entry-eq "runId" r.run_id r'.run_id (append_cancel_left "," _ _ h5) in
        let (steps, h7) = entry-eq "stepId" r.step_id r'.step_id (append_cancel_left "," _ _ h6) in
        let (workflows, h8) =
          entry-eq "workflowId" r.workflow_id r'.workflow_id (append_cancel_left "," _ _ h7) in
        record {
          workflow_id = workflows;
          run_id = runs;
          step_id = steps;
          action = action_text-inj _ _ actions;
          root_alias = roots;
          paths = paths;
          content = contents;
        }
