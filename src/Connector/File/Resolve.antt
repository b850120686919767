-- ===== src/Connector/File/Resolve.antt =====
-- src/file-connector.ts: the path of a request, under the root that its alias names.
use Prim.Native.String.{◌++◌, [] as []ᶜ, ◌∷◌ as ◌∷ᶜ◌}
use text.Mathlib.Text.{starts_with}
use ensen_flow.Common.{
  String, Bool, true, false, ◌||◌, ◌==◌, Option, none, some, List, [], ◌∷◌, lookup, Result, ok, err,
  ◌>>=◌, ◌>>◌, require, not,
}
use ensen_flow.Common.Codes.{codes, includes, split_at}
use ensen_flow.Connector.File.{
  LocalFileRequest, NormalizedAllowedRoot, NodeError, enoent, other_error, Node, Roots,
}

pub record ResolvedLocalFileRequest : Type 0 where
  pub file : LocalFileRequest
  pub sanitized_path : String
  pub absolute_path : String

pub data PathState : Type 0 where
  regular symbolic_link missing blocked : PathState

-- `parts.join("/")`
unfoldable pub join_slash : List String → String
join_slash [] = ""
join_slash (part ∷ []) = part
join_slash (part ∷ (next ∷ parts)) = part ++ ("/" ++ join_slash (next ∷ parts))

abbrev pub outside : String
outside = "local file path must stay under the allowed root"

abbrev pub refused_by : Option String → Result String (Unit {0})
refused_by none = ok tt
refused_by (some message) = err message

abbrev pub configured : Option NormalizedAllowedRoot → Result String NormalizedAllowedRoot
configured none = err "local file rootAlias is not configured"
configured (some root) = ok root

module _ {W : Type 0} (node : Node W) where
  abbrev state_of : Result NodeError Bool → PathState
  state_of (ok true) = symbolic_link
  state_of (ok false) = regular
  state_of (err enoent) = missing
  state_of (err other_error) = blocked

  unfoldable pub read_path_state : String → W → PathState
  read_path_state path w = state_of (node.lstat path w)

  -- the loop over the segments
  unfoldable pub walk : String → List String → W → Option String
  walk current_path [] w = none
  walk current_path (segment ∷ segments) w =
      let here = node.resolve_from current_path segment in
      let rest = walk here segments w in
      elim (read_path_state here w) [
        | missing ↦ none
        | symbolic_link ↦ some outside
        | blocked ↦ some outside
        | regular ↦ rest
      ]

  unfoldable pub validate_no_symbolic_link_traversal : String → String → W → Option String
  unfolding walk read_path_state split_at
  validate_no_symbolic_link_traversal root_path relative_path w =
      let rest = walk root_path (split_at node.sep relative_path) w in
      elim (read_path_state root_path w) [
        | symbolic_link ↦ some outside
        | blocked ↦ some outside
        | missing ↦ rest
        | regular ↦ rest
      ]

  -- `path === ".." || path.startsWith(`..${sep}`)`
  abbrev pub goes_up : String → Bool
  goes_up path = (path == "..") || starts_with path (".." ++ (node.sep ∷ᶜ []ᶜ))

  abbrev pub escapes : String → Bool
  escapes relative_to_root =
      (relative_to_root == "") || goes_up relative_to_root || node.is_absolute relative_to_root

  unfoldable pub resolve_local_file_request :
      LocalFileRequest → Roots → W → Result String ResolvedLocalFileRequest
  unfolding validate_no_symbolic_link_traversal codes includes lookup join_slash split_at
  resolve_local_file_request file allowed_roots w = do
    root ← configured (lookup file.root_alias allowed_roots)
    require (not (includes (codes "\\") (codes file.path) || node.is_absolute file.path))
        "local file path must be relative to an allowed root"
    let normalized_relative_path = node.normalize file.path
    require (not (goes_up normalized_relative_path)) outside
    let absolute_path = node.resolve_from root.path normalized_relative_path
    let relative_to_root = node.relative root.path absolute_path
    require (not (escapes relative_to_root)) outside
    refused_by (validate_no_symbolic_link_traversal root.path relative_to_root w)
    ok (record {
      file = file;
      sanitized_path = join_slash (split_at node.sep relative_to_root);
      absolute_path = absolute_path;
    })
