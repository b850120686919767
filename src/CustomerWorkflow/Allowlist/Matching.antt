-- ===== src/CustomerWorkflow/Allowlist/Matching.antt =====
-- src/customer-workflow-allowlist.ts: which entries of a policy match a customer workflow.
use mathlib.Core.Bool.{false≢true}
use mathlib.Core.List.{Memᴰ}
use mathlib.Core.List.Memᴰ
use ensen_flow.Common.{
  require-eq, String, true, ◌≡◌, ◌↔◌, refl, sym, subst, inl, inr, Option, none, some, List, [], ◌∷◌,
  ◌==◌, any, any-Mem, Mem-any, Bool-cases, Option-cases, ok, eq_iff, eq_refl, arith,
}
use ensen_flow.CustomerWorkflow.{Mode, mode_of_text, mode_text}
use ensen_flow.CustomerWorkflow.Allowlist.{
  CustomerWorkflowErpNextAllowlist, CustomerWorkflowAllowlistEntry,
  CustomerWorkflowErpNextReference, CustomerWorkflowInput, reference_not_allowlisted, chain,
  same_mode, string_field_matches, erp_next_reference_matches_policy, meaningful_erp_next_reference,
  matching_entries, assert_matching,
}

-- A name that is not given is within any list; one that is given is in the list.
pub data Within : Option String → Option (List String) → Type 0 where
  not_given : {allowed : Option (List String)} → Within none allowed
  given : {v : String} {vs : List String} → Memᴰ v vs → Within (some v) (some vs)

-- each name of the reference is within the list that the entry has for it
pub record Covers (reference : Option CustomerWorkflowErpNextReference)
    (allowlist : Option CustomerWorkflowErpNextAllowlist) : Type 0 where
  pub sites : Within (chain (λ r. r.site_ref) reference) (chain (λ a. a.site_refs) allowlist)
  pub types : Within (chain (λ r. r.object_type) reference) (chain (λ a. a.object_types) allowlist)
  pub endpoints :
      Within (chain (λ r. r.endpoint_ref) reference) (chain (λ a. a.endpoint_refs) allowlist)

string_field_matches-Within :
    (o : Option String) (allowed : Option (List String))
    → string_field_matches o allowed ≡ true ↔ Within o allowed
unfolding string_field_matches
string_field_matches-Within none allowed = (λ h. not_given, λ w. refl)
string_field_matches-Within (some v) none = (λ h. absurd (false≢true h), λ w. absurd (never w))
  where
    never : Within (some v) none → ⊥
    never w = elim w [ ]
string_field_matches-Within (some v) (some vs) = (inside, outside)
  where
    inside : any (λ x. x == v) vs ≡ true → Within (some v) (some vs)
    inside h =
        let (x, m, e) = any-Mem (λ x. x == v) vs h in
        given (subst (λ x. Memᴰ x vs) ((eq_iff x v).0 e) m)

    outside : Within (some v) (some vs) → any (λ x. x == v) vs ≡ true
    outside (given m) = Mem-any (λ x. x == v) vs v m (eq_refl v)

mode_of_text-mode_text : (m : Mode) → mode_of_text (mode_text m) ≡ some m
unfolding mode_of_text
mode_of_text-mode_text Mode.fake = refl
mode_of_text-mode_text Mode.read_only = refl
mode_of_text-mode_text Mode.draft_only = refl
mode_of_text-mode_text Mode.live_write_back = refl

same_mode-eq : (m n : Mode) → same_mode m n ≡ true → m ≡ n
same_mode-eq m n h =
    let same = (eq_iff (mode_text m) (mode_text n)).0 h in
    cc (mode_of_text-mode_text m, mode_of_text-mode_text n, same)

-- no field of the reference is given
Names : Option CustomerWorkflowErpNextReference → Type 0
Names r =
    (chain (λ (x : CustomerWorkflowErpNextReference). x.site_ref) r ≡ none)
    × (chain (λ (x : CustomerWorkflowErpNextReference). x.object_type) r ≡ none)
    × (chain (λ (x : CustomerWorkflowErpNextReference). x.endpoint_ref) r ≡ none)

meaningful-eq-none :
    (r : Option CustomerWorkflowErpNextReference) → meaningful_erp_next_reference r ≡ none → Names r
unfolding meaningful_erp_next_reference Names
meaningful-eq-none none h = (refl, refl, refl)
meaningful-eq-none (some r) h = (ground arith, ground arith, ground arith)

meaningful-eq-some :
    (r : Option CustomerWorkflowErpNextReference) (r' : CustomerWorkflowErpNextReference)
    → meaningful_erp_next_reference r ≡ some r'
    → (r ≡ some r') × ¬ (Names r)
unfolding meaningful_erp_next_reference Names
meaningful-eq-some none r' h = absurd (cc)
meaningful-eq-some (some r) r' h = (
  ground arith,
  λ n.
      let site : r.site_ref ≡ none = n.0 in
      let type : r.object_type ≡ none = n.1 in
      let endpoint : r.endpoint_ref ≡ none = n.2 in ground arith,
)

Names-Covers :
    (r : Option CustomerWorkflowErpNextReference) (a : Option CustomerWorkflowErpNextAllowlist)
    → Names r
    → Covers r a
unfolding Names
Names-Covers r a n = record {
  sites = rw (n.0) not_given;
  types = rw (n.1) not_given;
  endpoints = rw (n.2) not_given;
}

matches-Covers :
    (r : CustomerWorkflowErpNextReference) (a : Option CustomerWorkflowErpNextAllowlist)
    → erp_next_reference_matches_policy r a ≡ true
    → Covers (some r) a
unfolding erp_next_reference_matches_policy
matches-Covers r none h = absurd (false≢true h)
matches-Covers r (some a) h = record {
  sites = (string_field_matches-Within r.site_ref a.site_refs).0 (ground arith);
  types = (string_field_matches-Within r.object_type a.object_types).0 (ground arith);
  endpoints = (string_field_matches-Within r.endpoint_ref a.endpoint_refs).0 (ground arith);
}

Within-none : {o : Option String} → Within o none → o ≡ none
Within-none not_given = refl

Covers-matches :
    (r : CustomerWorkflowErpNextReference) (a : Option CustomerWorkflowErpNextAllowlist)
    → Covers (some r) a
    → ¬ (Names (some r))
    → erp_next_reference_matches_policy r a ≡ true
unfolding erp_next_reference_matches_policy Names
Covers-matches r none c n =
    absurd (n (Within-none c.sites, Within-none c.types, Within-none c.endpoints))
Covers-matches r (some a) c n =
    let sites = (string_field_matches-Within r.site_ref a.site_refs).1 c.sites in
    let types = (string_field_matches-Within r.object_type a.object_types).1 c.types in
    let endpoints = (string_field_matches-Within r.endpoint_ref a.endpoint_refs).1 c.endpoints in
    rw (sites, types, endpoints) refl

-- the test of the filter
abbrev pub Matches : CustomerWorkflowInput → CustomerWorkflowAllowlistEntry → Type 0
Matches c e = (e.customer_workflow_ref ≡ c.ref) × Memᴰ c.mode e.modes

has_mode-Mem : (m : Mode) (ms : List Mode) → any (λ n. same_mode n m) ms ≡ true → Memᴰ m ms
has_mode-Mem m ms h =
    let (n, found, e) = any-Mem (λ n. same_mode n m) ms h in
    subst (λ n. Memᴰ n ms) (same_mode-eq n m e) found

pub matching_entries-Matches :
    (c : CustomerWorkflowInput) (es : List CustomerWorkflowAllowlistEntry)
    (e : CustomerWorkflowAllowlistEntry)
    → Memᴰ e (matching_entries c es)
    → Memᴰ e es × Matches c e
unfolding matching_entries
matching_entries-Matches c [] e m = absurd (Memᴰ.not-nil m)
matching_entries-Matches c (x ∷ xs) e m =
    let more = matching_entries-Matches c xs e in
    elim (Bool-cases (x.customer_workflow_ref == c.ref)) [
      | inr n ↦ let (l, t) = more (subst (Memᴰ e) (rw n refl) m) in (Memᴰ.tail l, t)
      | inl y ↦ elim (Bool-cases (any (λ n. same_mode n c.mode) x.modes)) [
        | inr n ↦ let (l, t) = more (subst (Memᴰ e) (rw (y, n) refl) m) in (Memᴰ.tail l, t)
        | inl z ↦ here more y z (subst (Memᴰ e) (rw (y, z) refl) m)
      ]
    ]
  where
    here :
        (Memᴰ e (matching_entries c xs) → Memᴰ e xs × Matches c e)
        → (x.customer_workflow_ref == c.ref) ≡ true
        → any (λ n. same_mode n c.mode) x.modes ≡ true
        → Memᴰ e (x ∷ matching_entries c xs)
        → Memᴰ e (x ∷ xs) × Matches c e
    here more y z (Memᴰ.head p) = (
      Memᴰ.head p,
      subst (Matches c) (sym p)
          ((eq_iff x.customer_workflow_ref c.ref).0 y, has_mode-Mem c.mode x.modes z),
    )
    here more y z (Memᴰ.tail l) = let (l', t) = more l in (Memᴰ.tail l', t)

pub Matches-matching_entries :
    (c : CustomerWorkflowInput) (es : List CustomerWorkflowAllowlistEntry)
    (e : CustomerWorkflowAllowlistEntry)
    → Memᴰ e es
    → Matches c e
    → Memᴰ e (matching_entries c es)
unfolding matching_entries
Matches-matching_entries c [] e m t = absurd (Memᴰ.not-nil m)
Matches-matching_entries c (x ∷ xs) e (Memᴰ.head p) t =
    let here : Matches c x = subst (Matches c) p t in
    let y : (x.customer_workflow_ref == c.ref) ≡ true =
      (eq_iff x.customer_workflow_ref c.ref).1 here.0 in
    let z : any (λ n. same_mode n c.mode) x.modes ≡ true =
      Mem-any (λ n. same_mode n c.mode) x.modes c.mode here.1 (eq_refl (mode_text c.mode)) in
    rw (y, z) (Memᴰ.head p)
Matches-matching_entries c (x ∷ xs) e (Memᴰ.tail l) t =
    let more = Matches-matching_entries c xs e l t in
    elim (Bool-cases (x.customer_workflow_ref == c.ref)) [
      | inr n ↦ rw n more
      | inl y ↦ elim (Bool-cases (any (λ n. same_mode n c.mode) x.modes)) [
        | inr n ↦ rw (y, n) more
        | inl z ↦ rw (y, z) (Memᴰ.tail more)
      ]
    ]

pub assert_matching-Covers :
    (c : CustomerWorkflowInput) (es : List CustomerWorkflowAllowlistEntry)
    → assert_matching c es ≡ ok tt
    → (e : CustomerWorkflowAllowlistEntry) × Memᴰ e es × Covers c.erp_next e.erp_next
unfolding assert_matching
assert_matching-Covers c [] h = absurd (cc)
assert_matching-Covers c (x ∷ xs) h =
    elim (Option-cases (meaningful_erp_next_reference c.erp_next)) [
      | inl n ↦ (x, Memᴰ.head refl, Names-Covers _ _ (meaningful-eq-none c.erp_next n))
      | inr (r, m) ↦
          let passes = λ (y : CustomerWorkflowAllowlistEntry).
            erp_next_reference_matches_policy r y.erp_next in
          let some_passes =
            require-eq (any passes (x ∷ xs)) (reference_not_allowlisted c.mode)
              (rw (m, assert_matching) at h) in
          let (e, l, p) = any-Mem passes (x ∷ xs) some_passes in
          (
            e,
            l,
            subst (λ o. Covers o e.erp_next) (sym ((meaningful-eq-some c.erp_next r m).0))
                (matches-Covers r e.erp_next p),
          )
    ]

pub Covers-assert_matching :
    (c : CustomerWorkflowInput) (es : List CustomerWorkflowAllowlistEntry)
    (e : CustomerWorkflowAllowlistEntry)
    → Memᴰ e es
    → Covers c.erp_next e.erp_next
    → assert_matching c es ≡ ok tt
unfolding assert_matching
Covers-assert_matching c [] e m k = absurd (Memᴰ.not-nil m)
Covers-assert_matching c (x ∷ xs) e m k =
    elim (Option-cases (meaningful_erp_next_reference c.erp_next)) [
      | inl n ↦ rw (n, assert_matching) refl
      | inr (r, f) ↦
          let (same, n) = meaningful-eq-some c.erp_next r f in
          let p =
            Covers-matches r e.erp_next (subst (λ o. Covers o e.erp_next) same k)
              (subst (λ o. ¬ (Names o)) same n) in
          let passes = λ (y : CustomerWorkflowAllowlistEntry).
            erp_next_reference_matches_policy r y.erp_next in
          let some_passes = Mem-any passes (x ∷ xs) e m p in
          rw (f, assert_matching, some_passes) refl
    ]
