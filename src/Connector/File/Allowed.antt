-- ===== src/Connector/File/Allowed.antt =====
-- src/file-connector.ts: what is known of the roots that `normalizeAllowedRoots` returns.
use ensen_flow.Common.{
  String, true, false, not, ◌≡◌, inl, inr, refl, ◌==◌, Option, none, some, List, [], ◌∷◌, lookup,
  insert, lookup-insert, is_some, ok, >>=-eq-ok, require->>-eq-ok, Bool-cases, arith,
}
use ensen_flow.Value.{Value, record_of, array_of, string_of, get}
use ensen_flow.Definition.Patterns.{is_stable_id}
use ensen_flow.Connector.File.{
  NormalizedAllowedRoot, Node, Roots, alias_of, or_refused, text_field, has_credential_value,
  normalize_allowed_root, normalize_roots, some_roots, normalize_allowed_roots,
}
use ensen_flow.Connector.File.Contained.{ok-inj, not-eq-true}

alias_of-IsStable :
    (o : Option String) (message : String) {alias : String}
    → or_refused (alias_of o) message ≡ ok alias
    → is_stable_id alias ≡ true
alias_of-IsStable none message h = absurd (ground arith)
alias_of-IsStable (some s) message h = elim (Bool-cases (is_stable_id s)) [
  | inl stable ↦ let same : s ≡ _ = ground arith in rw same at stable
  | inr other ↦ absurd (ground arith)
]

module _ {W : Type 0} (node : Node W) where
  -- a root that the connector may be given
  pub record IsAllowed (root : NormalizedAllowedRoot) : Type 0 where
    pub given : String
    pub absolute : node.is_absolute given ≡ true
    pub plain : has_credential_value given ≡ false
    pub resolved : root.path ≡ node.resolve given
    pub below_root : (root.path == node.root_of root.path) ≡ false
    pub stable : is_stable_id root.alias ≡ true

  abbrev pub AreAllowed : Roots → Type 0
  AreAllowed roots =
      (alias : String) (root : NormalizedAllowedRoot)
      → lookup alias roots ≡ some root
      → IsAllowed root

  insert-AreAllowed :
      (alias : String) (root : NormalizedAllowedRoot) (roots : Roots)
      → IsAllowed root
      → AreAllowed roots
      → AreAllowed (insert alias root roots)
  insert-AreAllowed alias root roots new old other found h =
      let at = lookup-insert alias other root roots in
      elim (Bool-cases (alias == other)) [
        | inl same ↦ let one : root ≡ found = ground arith in rw one at new
        | inr differs ↦ old other found (ground arith)
      ]

  normalize_allowed_root-AreAllowed :
      (v : Value) (roots roots' : Roots)
      → normalize_allowed_root node v roots ≡ ok roots'
      → AreAllowed roots
      → AreAllowed roots'
  unfolding normalize_allowed_root
  normalize_allowed_root-AreAllowed v roots roots' h old =
      let (fs, is_object, h1) = >>=-eq-ok (or_refused (record_of v) _) _ h in
      let (alias, has_alias, h2) =
        >>=-eq-ok (or_refused (alias_of (string_of (get fs "alias"))) _) _ h1 in
      let (unique, h3) = require->>-eq-ok (not (is_some (lookup alias roots))) _ _ h2 in
      let (path, has_path, h4) = >>=-eq-ok (text_field fs "path" _) _ h3 in
      let (absolute, h5) = require->>-eq-ok (node.is_absolute path) _ _ h4 in
      let (plain, h6) = require->>-eq-ok (not (has_credential_value path)) _ _ h5 in
      let (below, h7) =
        require->>-eq-ok (not (node.resolve path == node.root_of (node.resolve path))) _ _ h6 in
      let root : NormalizedAllowedRoot = record { alias = alias; path = node.resolve path } in
      let made : insert alias root roots ≡ roots' = ok-inj _ refl h7 in
      let new : IsAllowed root = record {
        given = path;
        absolute = absolute;
        plain = not-eq-true _ plain;
        resolved = refl;
        below_root = not-eq-true _ below;
        stable = alias_of-IsStable (string_of (get fs "alias")) _ has_alias;
      } in
      rw made at (insert-AreAllowed alias root roots new old)

  normalize_roots-AreAllowed :
      (vs : List Value) (roots roots' : Roots)
      → normalize_roots node vs roots ≡ ok roots'
      → AreAllowed roots
      → AreAllowed roots'
  unfolding normalize_roots
  normalize_roots-AreAllowed [] roots roots' h old =
      let same : roots ≡ roots' = ok-inj _ refl h in rw same at old
  normalize_roots-AreAllowed (v ∷ vs) roots roots' h old =
      let (more, first, rest) = >>=-eq-ok (normalize_allowed_root node v roots) _ h in
      normalize_roots-AreAllowed vs more roots' rest
        (normalize_allowed_root-AreAllowed v roots more first old)

  pub normalize_allowed_roots-AreAllowed :
      (v : Value) (roots : Roots) → normalize_allowed_roots node v ≡ ok roots → AreAllowed roots
  unfolding normalize_allowed_roots lookup
  normalize_allowed_roots-AreAllowed v roots h =
      let (vs, given, rest) = >>=-eq-ok (some_roots (array_of v)) _ h in
      normalize_roots-AreAllowed vs [] roots rest (λ alias root found. cc)
