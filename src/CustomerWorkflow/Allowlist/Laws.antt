-- ===== src/CustomerWorkflow/Allowlist/Laws.antt =====
-- src/customer-workflow-allowlist.ts: the customer workflows that are allowed.
use mathlib.Core.Bool.{false≢true}
use mathlib.Core.List.{Memᴰ}
use mathlib.Core.List.Memᴰ
use ensen_flow.Common.{
  require-eq, true, not, ◌≡◌, ◌≢◌, ◌↔◌, refl, ◌∙◌, sym, subst, inl, inr, ◌⊎◌, Option, none, some,
  List, ok, >>=-eq-ok, require,
}
use ensen_flow.Value.{Value, undefined, null, bool, num, str, arr, obj, exotic, other}
use ensen_flow.Definition.{WorkflowDefinition}
use ensen_flow.CustomerWorkflow.{Mode, property}
use ensen_flow.CustomerWorkflow.Allowlist.{
  CustomerWorkflowAllowlistEntry, CustomerWorkflowInput, live_write_back_requested, is_live, listed,
  assert_input, assert_customer_workflow_allowlisted, is_customer_workflow_input,
  resolve_customer_workflow_allowlist_policy, assert_value,
}
use ensen_flow.CustomerWorkflow.Allowlist.Matching.{
  Covers, assert_matching-Covers, Covers-assert_matching, matching_entries-Matches,
  Matches-matching_entries,
}

-- an entry grants a customer workflow: its name, its mode and each name of its reference
pub record Grants (c : CustomerWorkflowInput) (e : CustomerWorkflowAllowlistEntry) : Type 0 where
  pub same_ref : e.customer_workflow_ref ≡ c.ref
  pub has_mode : Memᴰ c.mode e.modes
  pub covers : Covers c.erp_next e.erp_next

-- The context names no customer workflow, or one that an entry of the definition's policy grants.
pub data Allowed (d : WorkflowDefinition) (context : Value) : Type 0 where
  unnamed : property "customerWorkflow" context ≡ undefined → Allowed d context
  granted :
      (c : CustomerWorkflowInput) (es : List CustomerWorkflowAllowlistEntry)
      (e : CustomerWorkflowAllowlistEntry)
      → is_customer_workflow_input (property "customerWorkflow" context) ≡ some c
      → c.mode ≢ Mode.live_write_back
      → resolve_customer_workflow_allowlist_policy d ≡ some es
      → Memᴰ e es
      → Grants c e
      → Allowed d context

-- An entry of the policy grants the input, and its mode writes nothing back.
Granted : WorkflowDefinition → CustomerWorkflowInput → Type 0
Granted d c =
    (c.mode ≢ Mode.live_write_back)
    × ((e : CustomerWorkflowAllowlistEntry) × Memᴰ e
          (listed (resolve_customer_workflow_allowlist_policy d))
        × Grants c e)

not_live : (m : Mode) → not (is_live m) ≡ true → m ≢ Mode.live_write_back
not_live m h e = absurd (false≢true (subst (λ x. not (is_live x) ≡ true) e h))

is_not_live : (m : Mode) → m ≢ Mode.live_write_back → not (is_live m) ≡ true
is_not_live Mode.fake n = refl
is_not_live Mode.read_only n = refl
is_not_live Mode.draft_only n = refl
is_not_live Mode.live_write_back n = absurd (n refl)

assert_input-Granted :
    (d : WorkflowDefinition) (c : CustomerWorkflowInput)
    → assert_input d (some c) ≡ ok tt
    → Granted d c
unfolding assert_input Granted
assert_input-Granted d c h =
    let (t, live, matched) =
      >>=-eq-ok (require (not (is_live c.mode)) live_write_back_requested) _ h in
    let (e, m, k) = assert_matching-Covers c _ matched in
    let (l, t) = matching_entries-Matches c _ e m in
    (
      not_live c.mode (require-eq _ live_write_back_requested live),
      (e, l, record { same_ref = t.0; has_mode = t.1; covers = k }),
    )

Granted-assert_input :
    (d : WorkflowDefinition) (c : CustomerWorkflowInput)
    → Granted d c
    → assert_input d (some c) ≡ ok tt
unfolding assert_input Granted
Granted-assert_input d c (n, (e, l, g)) =
    let m = Matches-matching_entries c _ e l (g.same_ref, g.has_mode) in
    let done = Covers-assert_matching c _ e m g.covers in rw (is_not_live c.mode n, done) refl

assert_value_cases :
    (d : WorkflowDefinition) (v : Value)
    → (v ≡ undefined) ⊎ (assert_value d v ≡ assert_input d (is_customer_workflow_input v))
assert_value_cases d undefined = inl refl
assert_value_cases d null = inr refl
assert_value_cases d (bool b) = inr refl
assert_value_cases d (num n) = inr refl
assert_value_cases d (str s) = inr refl
assert_value_cases d (arr vs) = inr refl
assert_value_cases d (obj fs) = inr refl
assert_value_cases d (exotic fs) = inr refl
assert_value_cases d other = inr refl

listed-eq :
    {A : Type 0} {x : A} (o : Option (List A))
    → Memᴰ x (listed o)
    → (xs : List A) × (o ≡ some xs) × Memᴰ x xs
listed-eq none m = absurd (Memᴰ.not-nil m)
listed-eq (some xs) m = (xs, refl, m)

malformed-throws : (d : WorkflowDefinition) → assert_input d none ≢ ok tt
unfolding assert_input
malformed-throws d h = cc

Granted-Allowed :
    (d : WorkflowDefinition) (context : Value) (c : CustomerWorkflowInput)
    → is_customer_workflow_input (property "customerWorkflow" context) ≡ some c
    → Granted d c
    → Allowed d context
unfolding Granted
Granted-Allowed d context c i (n, (e, l, g)) =
    let (es, r, m) = listed-eq (resolve_customer_workflow_allowlist_policy d) l in
    granted c es e i n r m g

Grants-Granted :
    (d : WorkflowDefinition) (c : CustomerWorkflowInput) (es : List CustomerWorkflowAllowlistEntry)
    (e : CustomerWorkflowAllowlistEntry)
    → c.mode ≢ Mode.live_write_back
    → resolve_customer_workflow_allowlist_policy d ≡ some es
    → Memᴰ e es
    → Grants c e
    → Granted d c
unfolding Granted
Grants-Granted d c es e n r l g = (n, (e, rw r l, g))

-- A definition lets a trigger context through exactly if the context names no customer workflow,
-- or names one that is well formed, does not ask for live write-back, and that one entry of the
-- definition's policy grants.
pub assert_customer_workflow_allowlisted-Allowed :
    (d : WorkflowDefinition) (context : Value)
    → assert_customer_workflow_allowlisted d context ≡ ok tt ↔ Allowed d context
unfolding assert_customer_workflow_allowlisted
assert_customer_workflow_allowlisted-Allowed d context = (only, sufficient)
  where
    named :
        (o : Option CustomerWorkflowInput)
        → is_customer_workflow_input (property "customerWorkflow" context) ≡ o
        → assert_input d o ≡ ok tt
        → Allowed d context
    named none i h = absurd (malformed-throws d h)
    named (some c) i h = Granted-Allowed d context c i (assert_input-Granted d c h)

    only : assert_value d (property "customerWorkflow" context) ≡ ok tt → Allowed d context
    only h = elim (assert_value_cases d (property "customerWorkflow" context)) [
      | inl u ↦ unnamed u
      | inr e ↦ named _ refl (sym e ∙ h)
    ]

    sufficient : Allowed d context → assert_value d (property "customerWorkflow" context) ≡ ok tt
    sufficient (unnamed u) = rw u refl
    sufficient (granted c es e i n r l g) =
        elim (assert_value_cases d (property "customerWorkflow" context)) [
          | inl u ↦ rw u refl
          | inr q ↦ q ∙ rw i (Granted-assert_input d c (Grants-Granted d c es e n r l g))
        ]
