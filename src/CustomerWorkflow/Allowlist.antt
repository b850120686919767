-- ===== src/CustomerWorkflow/Allowlist.antt =====
-- src/customer-workflow-allowlist.ts: which customer workflows a definition lets a trigger name.
-- A type guard `value is T` is a function that gives the `T` which the value holds.
pub mod Matching
pub mod Laws
use Prim.Native.String.{◌++◌}
use ensen_flow.Common.{
  String, Bool, true, false, not, ◌&&◌, Option, none, some, List, [], ◌∷◌, ◌==◌, any, is_some,
  is_blank, Result, ok, err, ◌>>=◌, ◌>>◌, require, if◌then◌else◌,
}
use ensen_flow.Value.{Value, undefined, str, get, record_of, array_of, is_text}
use ensen_flow.Definition.{WorkflowDefinition}
use ensen_flow.CustomerWorkflow.{Mode, mode_of_text, mode_text, property}

pub record CustomerWorkflowErpNextAllowlist : Type 0 where
  pub site_refs : Option (List String)
  pub object_types : Option (List String)
  pub endpoint_refs : Option (List String)

pub record CustomerWorkflowAllowlistEntry : Type 0 where
  pub customer_workflow_ref : String
  pub modes : List Mode
  pub erp_next : Option CustomerWorkflowErpNextAllowlist

pub record CustomerWorkflowErpNextReference : Type 0 where
  pub site_ref : Option String
  pub object_type : Option String
  pub endpoint_ref : Option String

pub record CustomerWorkflowInput : Type 0 where
  pub ref : String
  pub mode : Mode
  pub erp_next : Option CustomerWorkflowErpNextReference

-- the errors that `assertCustomerWorkflowAllowlisted` throws
pub data AllowlistError : Type 0 where
  malformed_input live_write_back_requested : AllowlistError
  not_allowlisted reference_not_allowlisted : Mode → AllowlistError

unfoldable pub allowlist_message : AllowlistError → String
allowlist_message malformed_input = "customer workflow input is malformed; diagnostic redacted"
allowlist_message live_write_back_requested =
    "customer workflow input requested live-write-back mode; ERPNext live write-back remains disabled; diagnostic redacted"
allowlist_message (not_allowlisted m) =
    "customer workflow input is not allowlisted for mode "
    ++ (mode_text m ++ "; diagnostic redacted")
allowlist_message (reference_not_allowlisted m) =
    "ERPNext reference is not allowlisted for mode " ++ (mode_text m ++ "; diagnostic redacted")

abbrev pub chain : {A B : Type 0} → (A → Option B) → Option A → Option B
chain f none = none
chain f (some a) = f a

-- `xs.every(guard)`, with what the guard gives
unfoldable pub every : {A B : Type 0} → (A → Option B) → List A → Option (List B)
every f [] = some []
every f (x ∷ xs) = let rest = every f xs in chain (λ y. chain (λ ys. some (y ∷ ys)) rest) (f x)

abbrev pub nonempty : {A : Type 0} → List A → Option (List A)
nonempty [] = none
nonempty (x ∷ xs) = some (x ∷ xs)

-- `isNonEmptyString`
unfoldable pub is_non_empty_string : Value → Option String
is_non_empty_string (str s) = if is_blank s then none else some s
is_non_empty_string _ = none

-- `isCustomerWorkflowAllowlistMode`
unfoldable pub is_customer_workflow_allowlist_mode : Value → Option Mode
is_customer_workflow_allowlist_mode (str s) = mode_of_text s
is_customer_workflow_allowlist_mode _ = none

-- `value === undefined || guard(value)`
abbrev pub optional : {A : Type 0} → (Value → Option A) → Value → Option (Option A)
optional guard undefined = some none
optional guard v = chain (λ a. some (some a)) (guard v)

-- `Array.isArray(value) && value.every(isNonEmptyString)`
unfoldable pub string_list : Value → Option (List String)
unfolding every is_non_empty_string
string_list v = chain (every is_non_empty_string) (array_of v)

unfoldable pub is_customer_workflow_erp_next_allowlist :
    Value → Option CustomerWorkflowErpNextAllowlist
unfolding string_list
is_customer_workflow_erp_next_allowlist v =
    chain
      (λ fs.
        chain
          (λ sites.
            chain
              (λ types.
                chain
                  (λ endpoints.
                    some (record {
                      site_refs = sites;
                      object_types = types;
                      endpoint_refs = endpoints;
                    }))
                  (optional string_list (get fs "endpointRefs")))
              (optional string_list (get fs "objectTypes")))
          (optional string_list (get fs "siteRefs")))
      (record_of v)

-- `Array.isArray(modes) && modes.length > 0 && modes.every(isCustomerWorkflowAllowlistMode)`
unfoldable pub modes_of : Value → Option (List Mode)
unfolding every is_customer_workflow_allowlist_mode
modes_of v =
    chain (λ vs. chain (every is_customer_workflow_allowlist_mode) (nonempty vs)) (array_of v)

unfoldable pub is_customer_workflow_allowlist_entry : Value → Option CustomerWorkflowAllowlistEntry
unfolding is_non_empty_string modes_of is_customer_workflow_erp_next_allowlist
is_customer_workflow_allowlist_entry v =
    chain
      (λ fs.
        chain
          (λ ref.
            chain
              (λ modes.
                chain
                  (λ erp_next.
                    some
                      (record { customer_workflow_ref = ref; modes = modes; erp_next = erp_next }))
                  (optional is_customer_workflow_erp_next_allowlist (get fs "erpNext")))
              (modes_of (get fs "modes")))
          (is_non_empty_string (get fs "customerWorkflowRef")))
      (record_of v)

unfoldable pub is_customer_workflow_erp_next_reference :
    Value → Option CustomerWorkflowErpNextReference
unfolding is_non_empty_string
is_customer_workflow_erp_next_reference v =
    chain
      (λ fs.
        chain
          (λ site.
            chain
              (λ type.
                chain
                  (λ endpoint.
                    some (record { site_ref = site; object_type = type; endpoint_ref = endpoint }))
                  (optional is_non_empty_string (get fs "endpointRef")))
              (optional is_non_empty_string (get fs "objectType")))
          (optional is_non_empty_string (get fs "siteRef")))
      (record_of v)

unfoldable pub is_customer_workflow_input : Value → Option CustomerWorkflowInput
unfolding is_non_empty_string is_customer_workflow_allowlist_mode
    is_customer_workflow_erp_next_reference
is_customer_workflow_input v =
    chain
      (λ fs.
        chain
          (λ ref.
            chain
              (λ mode.
                chain (λ erp_next. some (record { ref = ref; mode = mode; erp_next = erp_next }))
                  (optional is_customer_workflow_erp_next_reference (get fs "erpNext")))
              (is_customer_workflow_allowlist_mode (get fs "mode")))
          (is_non_empty_string (get fs "ref")))
      (record_of v)

-- The entries of the policy. That as many entries pass the filter as there are is that all pass.
unfoldable pub resolve_customer_workflow_allowlist_policy :
    WorkflowDefinition → Option (List CustomerWorkflowAllowlistEntry)
unfolding every is_customer_workflow_allowlist_entry
resolve_customer_workflow_allowlist_policy d =
    chain
      (λ metadata.
        chain
          (λ fs.
            if is_text "flow.customer-workflow-allowlist.v1" (get fs "schemaVersion")
            then chain (every is_customer_workflow_allowlist_entry) (array_of (get fs "entries"))
            else none)
          (record_of (property "customerWorkflowAllowlist" metadata)))
      d.metadata

-- `===` on modes
abbrev pub same_mode : Mode → Mode → Bool
same_mode m n = mode_text m == mode_text n

-- `stringFieldMatches`
unfoldable pub string_field_matches : Option String → Option (List String) → Bool
string_field_matches none allowed = true
string_field_matches (some v) none = false
string_field_matches (some v) (some vs) = any (λ x. x == v) vs

unfoldable pub erp_next_reference_matches_policy :
    CustomerWorkflowErpNextReference → Option CustomerWorkflowErpNextAllowlist → Bool
unfolding string_field_matches
erp_next_reference_matches_policy r none = false
erp_next_reference_matches_policy r (some a) =
    string_field_matches r.site_ref a.site_refs
    && string_field_matches r.object_type a.object_types
    && string_field_matches r.endpoint_ref a.endpoint_refs

unfoldable pub meaningful_erp_next_reference :
    Option CustomerWorkflowErpNextReference → Option CustomerWorkflowErpNextReference
meaningful_erp_next_reference none = none
meaningful_erp_next_reference (some r) =
    if not (is_some r.site_ref) && not (is_some r.object_type) && not (is_some r.endpoint_ref)
    then none
    else some r

unfoldable pub matching_entries :
    CustomerWorkflowInput
    → List CustomerWorkflowAllowlistEntry
    → List CustomerWorkflowAllowlistEntry
matching_entries c [] = []
matching_entries c (e ∷ es) =
    let rest = matching_entries c es in
    if (e.customer_workflow_ref == c.ref) && any (λ m. same_mode m c.mode) e.modes
    then e ∷ rest
    else rest

-- what follows the filter: `matching` is empty too where there is no policy
unfoldable pub assert_matching :
    CustomerWorkflowInput → List CustomerWorkflowAllowlistEntry → Result AllowlistError (Unit {0})
unfolding meaningful_erp_next_reference erp_next_reference_matches_policy
assert_matching c [] = err (not_allowlisted c.mode)
assert_matching c (e ∷ es) = elim (meaningful_erp_next_reference c.erp_next) [
  | none ↦ ok tt
  | some r ↦
      require
        (any
          (λ (x : CustomerWorkflowAllowlistEntry). erp_next_reference_matches_policy r x.erp_next)
          (e ∷ es))
        (reference_not_allowlisted c.mode)
]

abbrev pub is_live : Mode → Bool
is_live Mode.live_write_back = true
is_live _ = false

abbrev pub listed : {A : Type 0} → Option (List A) → List A
listed none = []
listed (some xs) = xs

unfoldable pub assert_input :
    WorkflowDefinition → Option CustomerWorkflowInput → Result AllowlistError (Unit {0})
unfolding assert_matching matching_entries resolve_customer_workflow_allowlist_policy
assert_input d none = err malformed_input
assert_input d (some c) = do
  require (not (is_live c.mode)) live_write_back_requested
  assert_matching c (matching_entries c (listed (resolve_customer_workflow_allowlist_policy d)))

abbrev pub assert_value : WorkflowDefinition → Value → Result AllowlistError (Unit {0})
assert_value d undefined = ok tt
assert_value d v = assert_input d (is_customer_workflow_input v)

unfoldable pub assert_customer_workflow_allowlisted :
    WorkflowDefinition → Value → Result AllowlistError (Unit {0})
unfolding assert_input is_customer_workflow_input
assert_customer_workflow_allowlisted d context =
    assert_value d (property "customerWorkflow" context)
