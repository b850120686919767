-- ===== src/Connector/File/Contained.antt =====
-- src/file-connector.ts: what is known of a path that `resolveLocalFileRequest` accepts.
use ensen_flow.Common.{
  subst, require->>-eq-ok, ◌||◌, String, Bool, true, false, not, ◌≡◌, ◌⊎◌, inl, inr, refl, ap, sym,
  Option, none, some, List, [], ◌∷◌, lookup, Result, ok, >>=-eq-ok, arith,
}
use ensen_flow.Common.Codes.{codes, includes, split_at}
use ensen_flow.Connector.File.{LocalFileRequest, NormalizedAllowedRoot, Node, Roots}
use ensen_flow.Connector.File.Resolve.{
  ResolvedLocalFileRequest, PathState, regular, symbolic_link, missing, blocked, read_path_state,
  walk, validate_no_symbolic_link_traversal, goes_up, escapes, refused_by, configured,
  resolve_local_file_request,
}

pub ok-inj : {E A : Type 0} (m : Result E A) {a b : A} → m ≡ ok a → m ≡ ok b → a ≡ b
ok-inj m h k = cc

pub not-eq-true : (b : Bool) → not b ≡ true → b ≡ false
not-eq-true b h = ground arith

module _ {W : Type 0} (node : Node W) where
  -- From here each segment leads to a file or directory that is no symbolic link, up to the end or to
  -- the first that is not there.
  pub data Walked (w : W) : String → List String → Type 0 where
    at_end : (path : String) → Walked w path []
    absent :
        (path segment : String) (segments : List String)
        → read_path_state node (node.resolve_from path segment) w ≡ missing
        → Walked w path (segment ∷ segments)
    through :
        (path segment : String) (segments : List String)
        → read_path_state node (node.resolve_from path segment) w ≡ regular
        → Walked w (node.resolve_from path segment) segments
        → Walked w path (segment ∷ segments)

  PathState-cases :
      (state : PathState)
      → ((state ≡ regular) ⊎ (state ≡ missing)) ⊎ ((state ≡ symbolic_link) ⊎ (state ≡ blocked))
  PathState-cases regular = inl (inl refl)
  PathState-cases missing = inl (inr refl)
  PathState-cases symbolic_link = inr (inl refl)
  PathState-cases blocked = inr (inr refl)

  walk-Walked :
      (path : String) (segments : List String) (w : W)
      → walk node path segments w ≡ none
      → Walked w path segments
  unfolding walk
  walk-Walked path [] w h = at_end path
  walk-Walked path (segment ∷ segments) w h =
      elim (PathState-cases (read_path_state node (node.resolve_from path segment) w)) [
        | inl (inl here) ↦
            through path segment segments here
              (walk-Walked (node.resolve_from path segment) segments w (ground arith))
        | inl (inr here) ↦ absent path segment segments here
        | inr (inl here) ↦ absurd (ground arith)
        | inr (inr here) ↦ absurd (ground arith)
      ]

  -- what is known of the path that a request was resolved to
  pub record Contained (roots : Roots) (file : LocalFileRequest) (w : W) (path : String)
      : Type 0 where
    pub root : NormalizedAllowedRoot
    pub configures : lookup file.root_alias roots ≡ some root
    pub inside : escapes node (node.relative root.path path) ≡ false
    pub root_state :
        (read_path_state node root.path w ≡ regular) ⊎ (read_path_state node root.path w ≡ missing)
    pub plain : Walked w root.path (split_at node.sep (node.relative root.path path))

  refused_by-eq-ok : (o : Option String) → refused_by o ≡ ok tt → o ≡ none
  refused_by-eq-ok none h = refl
  refused_by-eq-ok (some message) h = cc

  traversal-Walked :
      (root relative : String) (w : W)
      → validate_no_symbolic_link_traversal node root relative w ≡ none
      → ((read_path_state node root w ≡ regular) ⊎ (read_path_state node root w ≡ missing))
        × Walked w root (split_at node.sep relative)
  unfolding validate_no_symbolic_link_traversal
  traversal-Walked root relative w h = elim (PathState-cases (read_path_state node root w)) [
    | inl here ↦ (here, walk-Walked root (split_at node.sep relative) w (ground arith))
    | inr (inl here) ↦ absurd (ground arith)
    | inr (inr here) ↦ absurd (ground arith)
  ]

  configured-eq-ok :
      (o : Option NormalizedAllowedRoot) {root : NormalizedAllowedRoot}
      → configured o ≡ ok root
      → o ≡ some root
  configured-eq-ok none h = cc
  configured-eq-ok (some root) h = ground arith

  pub resolve-Contained :
      (file : LocalFileRequest) (roots : Roots) (w : W) (r : ResolvedLocalFileRequest)
      → resolve_local_file_request node file roots w ≡ ok r
      → (r.file ≡ file) × Contained roots file w r.absolute_path
  unfolding resolve_local_file_request
  resolve-Contained file roots w r h =
      let (root, has_root, h1) = >>=-eq-ok (configured (lookup file.root_alias roots)) _ h in
      let (relative_path, h2) =
        require->>-eq-ok
          (not (includes (codes "\\") (codes file.path) || node.is_absolute file.path)) _ _ h1 in
      let (stays, h3) = require->>-eq-ok (not (goes_up node (node.normalize file.path))) _ _ h2 in
      let path = node.resolve_from root.path (node.normalize file.path) in
      let (inside, h4) =
        require->>-eq-ok (not (escapes node (node.relative root.path path))) _ _ h3 in
      let traversal =
        validate_no_symbolic_link_traversal node root.path (node.relative root.path path) w in
      let (t4, walked, h5) = >>=-eq-ok (refused_by traversal) _ h4 in
      let (root_state, plain) =
        traversal-Walked root.path (node.relative root.path path) w
          (refused_by-eq-ok traversal walked) in
      let made = ok-inj _ refl h5 in
      let contained : Contained roots file w path = record {
        root = root;
        configures = configured-eq-ok _ has_root;
        inside = not-eq-true _ inside;
        root_state = root_state;
        plain = plain;
      } in
      (
        sym (ap (λ x. x.file) made),
        subst (λ x. Contained roots file w x.absolute_path) made contained,
      )
