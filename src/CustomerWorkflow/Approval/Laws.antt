-- ===== src/CustomerWorkflow/Approval/Laws.antt =====
-- src/customer-workflow-approval-boundary.ts: what an accepted output leaves to a human.
use mathlib.Core.Bool.{false≢true}
use mathlib.Core.List.{Memᴰ}
use mathlib.Core.List.Memᴰ
use ensen_flow.Common.{
  String, Bool, true, false, ◌||◌, ◌≡◌, ◌≢◌, ◌↔◌, refl, ap, subst, inl, inr, Option, none, some,
  List, [], ◌∷◌, any, any-Mem, Mem-any, Bool-cases, Option-cases, ok, >>=-eq-ok, require,
  require-eq, eq_iff, eq_refl, arith,
}
use ensen_flow.Value.{Value, undefined, null, bool, num, str, arr, obj, exotic, other, is_text, get}
use ensen_flow.CustomerWorkflow.{Mode}
use ensen_flow.CustomerWorkflow.Allowlist.{is_non_empty_string}
use ensen_flow.CustomerWorkflow.Approval.{
  ApprovalState, Record, parse_approval_state, artifact_intent, is_undefined, is_non_committed,
  is_approved, has_non_empty_string, read_only_boundary, draft_only_boundary, boundary_of_mode,
  assert_artifact_boundary, not_kept_unapplied,
}

-- no intent, or one of these
pub data Intends (names : List String) : Value → Type 0 where
  silent : Intends names undefined
  says : {s : String} → Memᴰ s names → Intends names (str s)

-- What a mode lets an artifact say: nothing of approval in read-only mode; in draft-only mode either
-- that it is committed, with the approval, the human's reference and the boundary of the decision,
-- or that it is a draft in a state other than approved.
pub data Respects (artifact : Record) : Mode → Option ApprovalState → Type 0 where
  fakes : {state : Option ApprovalState} → Respects artifact Mode.fake state
  writes : {state : Option ApprovalState} → Respects artifact Mode.live_write_back state
  observes :
      Intends ("read-only" ∷ "observation" ∷ []) (artifact_intent artifact)
      → Respects artifact Mode.read_only none
  commits :
      (ref boundary : String)
      → artifact_intent artifact ≡ str "committed"
      → is_non_empty_string (get artifact "humanApprovalRef") ≡ some ref
      → is_non_empty_string (get artifact "decisionBoundary") ≡ some boundary
      → Respects artifact Mode.draft_only (some ApprovalState.approved)
  drafts :
      (s : ApprovalState)
      → Intends ("draft-only" ∷ []) (artifact_intent artifact)
      → s ≢ ApprovalState.approved
      → Respects artifact Mode.draft_only (some s)

pub record Kept (mode : Mode) (artifact : Record) : Type 0 where
  pub state : Option ApprovalState
  pub parsed : parse_approval_state artifact ≡ ok state
  pub unapplied : get artifact "externalApplicationState" ≡ str "not-applied"
  pub respects : Respects artifact mode state

pub is_text-eq : (s : String) (v : Value) → is_text s v ≡ true → v ≡ str s
is_text-eq s (str t) h = ap str ((eq_iff t s).0 h)
is_text-eq s undefined h = absurd (false≢true h)
is_text-eq s null h = absurd (false≢true h)
is_text-eq s (bool b) h = absurd (false≢true h)
is_text-eq s (num n) h = absurd (false≢true h)
is_text-eq s (arr vs) h = absurd (false≢true h)
is_text-eq s (obj fs) h = absurd (false≢true h)
is_text-eq s (exotic fs) h = absurd (false≢true h)
is_text-eq s other h = absurd (false≢true h)

is_undefined-eq : (v : Value) → is_undefined v ≡ true → v ≡ undefined
is_undefined-eq undefined h = refl
is_undefined-eq (str t) h = absurd (false≢true h)
is_undefined-eq null h = absurd (false≢true h)
is_undefined-eq (bool b) h = absurd (false≢true h)
is_undefined-eq (num n) h = absurd (false≢true h)
is_undefined-eq (arr vs) h = absurd (false≢true h)
is_undefined-eq (obj fs) h = absurd (false≢true h)
is_undefined-eq (exotic fs) h = absurd (false≢true h)
is_undefined-eq other h = absurd (false≢true h)

-- the tests of an intent
intends : List String → Value → Bool
intends names v = is_undefined v || any (λ n. is_text n v) names

intends-Intends : (names : List String) (v : Value) → intends names v ≡ true → Intends names v
unfolding intends
intends-Intends names v h = elim (Bool-cases (is_undefined v)) [
  | inl u ↦ rw (is_undefined-eq v u) silent
  | inr n ↦
      let (s, m, e) = any-Mem (λ n. is_text n v) names (ground arith) in
      rw (is_text-eq s v e) (says m)
]

Intends-intends : (names : List String) {v : Value} → Intends names v → intends names v ≡ true
unfolding intends
Intends-intends names silent = refl
Intends-intends names (says {s} m) = Mem-any (λ n. is_text n (str s)) names s m (eq_refl s)

not_approved : (s : ApprovalState) → is_non_committed s ≡ true → s ≢ ApprovalState.approved
unfolding is_non_committed
not_approved s h e = absurd (false≢true (subst (λ x. is_non_committed x ≡ true) e h))

approved_eq : (o : Option ApprovalState) → is_approved o ≡ true → o ≡ some ApprovalState.approved
approved_eq none h = absurd (false≢true h)
approved_eq (some ApprovalState.approved) h = refl
approved_eq (some ApprovalState.approval_required) h = absurd (false≢true h)
approved_eq (some ApprovalState.rejected) h = absurd (false≢true h)
approved_eq (some ApprovalState.revoked) h = absurd (false≢true h)
approved_eq (some ApprovalState.superseded) h = absurd (false≢true h)

non_committed : (s : ApprovalState) → s ≢ ApprovalState.approved → is_non_committed s ≡ true
unfolding is_non_committed
non_committed ApprovalState.approved n = absurd (n refl)
non_committed ApprovalState.approval_required n = refl
non_committed ApprovalState.rejected n = refl
non_committed ApprovalState.revoked n = refl
non_committed ApprovalState.superseded n = refl

string_in :
    (v : Value) → has_non_empty_string v ≡ true → (s : String) × (is_non_empty_string v ≡ some s)
string_in v h = elim (Option-cases (is_non_empty_string v)) [
  | inl n ↦ absurd (false≢true (rw n at h))
  | inr f ↦ f
]

read_only-Respects :
    (artifact : Record) (state : Option ApprovalState)
    → read_only_boundary (artifact_intent artifact) state ≡ ok tt
    → Respects artifact Mode.read_only state
unfolding read_only_boundary intends
read_only-Respects artifact none h =
    observes
      (intends-Intends ("read-only" ∷ "observation" ∷ []) (artifact_intent artifact) (ground arith))
read_only-Respects artifact (some s) h = absurd (ground arith)

drafts_only : {v : Value} → Intends ("draft-only" ∷ []) v → is_text "committed" v ≡ false
drafts_only silent = refl
drafts_only (says (Memᴰ.head e)) = rw e refl
drafts_only (says (Memᴰ.tail m)) = absurd (Memᴰ.not-nil m)

draft_only-Respects :
    (artifact : Record) (state : Option ApprovalState)
    → draft_only_boundary artifact (artifact_intent artifact) state ≡ ok tt
    → Respects artifact Mode.draft_only state
unfolding draft_only_boundary intends
draft_only-Respects artifact state h =
    elim (Bool-cases (is_text "committed" (artifact_intent artifact))) [
      | inl y ↦
          let a : is_approved state ≡ true = ground arith in
          let r : has_non_empty_string (get artifact "humanApprovalRef") ≡ true = ground arith in
          let b : has_non_empty_string (get artifact "decisionBoundary") ≡ true = ground arith in
          let (ref, r') = string_in _ r in
          let (boundary, b') = string_in _ b in
          rw (approved_eq state a) (commits ref boundary (is_text-eq "committed" _ y) r' b')
      | inr n ↦ drafted state n h
    ]
  where
    drafted :
        (o : Option ApprovalState)
        → is_text "committed" (artifact_intent artifact) ≡ false
        → draft_only_boundary artifact (artifact_intent artifact) o ≡ ok tt
        → Respects artifact Mode.draft_only o
    drafted none n h = absurd (ground arith)
    drafted (some s) n h =
        let i : intends ("draft-only" ∷ []) (artifact_intent artifact) ≡ true = ground arith in
        let c : is_non_committed s ≡ true = ground arith in
        drafts s (intends-Intends ("draft-only" ∷ []) (artifact_intent artifact) i)
          (not_approved s c)

boundary-Respects :
    (mode : Mode) (artifact : Record) (state : Option ApprovalState)
    → boundary_of_mode mode artifact state ≡ ok tt
    → Respects artifact mode state
unfolding boundary_of_mode
boundary-Respects Mode.fake artifact state h = fakes
boundary-Respects Mode.live_write_back artifact state h = writes
boundary-Respects Mode.read_only artifact state h = read_only-Respects artifact state h
boundary-Respects Mode.draft_only artifact state h = draft_only-Respects artifact state h

observed :
    (artifact : Record)
    → Intends ("read-only" ∷ "observation" ∷ []) (artifact_intent artifact)
    → read_only_boundary (artifact_intent artifact) none ≡ ok tt
unfolding read_only_boundary intends
observed artifact i =
    let said = Intends-intends ("read-only" ∷ "observation" ∷ []) i in ground arith

committed :
    (artifact : Record) (ref boundary : String)
    → artifact_intent artifact ≡ str "committed"
    → is_non_empty_string (get artifact "humanApprovalRef") ≡ some ref
    → is_non_empty_string (get artifact "decisionBoundary") ≡ some boundary
    → draft_only_boundary artifact (artifact_intent artifact) (some ApprovalState.approved) ≡ ok tt
unfolding draft_only_boundary
committed artifact ref boundary i r b = rw (i, r, b) refl

drafted :
    (artifact : Record) (s : ApprovalState)
    → Intends ("draft-only" ∷ []) (artifact_intent artifact)
    → is_non_committed s ≡ true
    → draft_only_boundary artifact (artifact_intent artifact) (some s) ≡ ok tt
unfolding draft_only_boundary intends
drafted artifact s i c =
    let said = Intends-intends ("draft-only" ∷ []) i in
    let open_draft = drafts_only i in ground arith

Respects-boundary :
    (mode : Mode) (artifact : Record) (state : Option ApprovalState)
    → Respects artifact mode state
    → boundary_of_mode mode artifact state ≡ ok tt
unfolding boundary_of_mode
Respects-boundary mode artifact state fakes = refl
Respects-boundary mode artifact state writes = refl
Respects-boundary mode artifact state (observes i) = observed artifact i
Respects-boundary mode artifact state (commits ref boundary i r b) =
    committed artifact ref boundary i r b
Respects-boundary mode artifact state (drafts s i n) = drafted artifact s i (non_committed s n)

-- An artifact passes in a mode exactly if its state can be read, it says that it was not applied,
-- and it says no more of approval than the mode lets it.
pub assert_artifact_boundary-Kept :
    (mode : Mode) (artifact : Record)
    → assert_artifact_boundary mode artifact ≡ ok tt ↔ Kept mode artifact
unfolding assert_artifact_boundary
assert_artifact_boundary-Kept mode artifact = (only, sufficient)
  where
    only : assert_artifact_boundary mode artifact ≡ ok tt → Kept mode artifact
    only h =
        let (state, p, rest) = >>=-eq-ok (parse_approval_state artifact) _ h in
        let (t, u, respected) =
          >>=-eq-ok
            (require (is_text "not-applied" (get artifact "externalApplicationState"))
              not_kept_unapplied)
            _ rest in
        record {
          state = state;
          parsed = p;
          unapplied = is_text-eq "not-applied" _ (require-eq _ not_kept_unapplied u);
          respects = boundary-Respects mode artifact state respected;
        }

    sufficient : Kept mode artifact → assert_artifact_boundary mode artifact ≡ ok tt
    sufficient k = rw (k.parsed, k.unapplied) (Respects-boundary mode artifact k.state k.respects)
