-- ===== src/Pilot/Laws.antt =====
-- src/controlled-pilot-input-boundary.ts: the boundaries that are not rejected.
use ensen_flow.Common.{
  String, Bool, true, false, ◌≡◌, refl, not, ◌&&◌, if◌then◌else◌, inl, inr, none, some, arith,
  Bool-cases, leb,
}
use ensen_flow.Common.{is_blank}
use ensen_flow.Common.Codes.{utf16_length}
use ensen_flow.Value.{Value, str, is_text}
use ensen_flow.Intake.{WebRuntime, is_strict_utc_millis_timestamp}
use ensen_flow.Pilot.{
  property, is_bounded_string, is_dry_run_first_input_boundary_mode, is_strict_iso_timestamp_value,
  explain_controlled_pilot_boundary_rejection, is_approved,
}

-- a text that is not blank, of at most 256 characters
pub data IsBounded : Value → Type 0 where
  bounded : {s : String} → is_blank s ≡ false → leb (utf16_length s) 256 ≡ true → IsBounded (str s)

-- one of the modes in which nothing real is read
pub data IsDryMode : Value → Type 0 where
  fake : {v : Value} → is_text "fake" v ≡ true → IsDryMode v
  local : {v : Value} → is_text "local" v ≡ true → IsDryMode v
  dry_run : {v : Value} → is_text "dry-run" v ≡ true → IsDryMode v

is_bounded_string-IsBounded : (v : Value) → is_bounded_string v ≡ true → IsBounded v
unfolding is_bounded_string
is_bounded_string-IsBounded (str s) h = bounded (ground arith) (ground arith)
is_bounded_string-IsBounded Value.undefined h = absurd (cc)
is_bounded_string-IsBounded Value.null h = absurd (cc)
is_bounded_string-IsBounded (Value.bool b) h = absurd (cc)
is_bounded_string-IsBounded (Value.num n) h = absurd (cc)
is_bounded_string-IsBounded (Value.arr vs) h = absurd (cc)
is_bounded_string-IsBounded (Value.obj fs) h = absurd (cc)
is_bounded_string-IsBounded (Value.exotic fs) h = absurd (cc)
is_bounded_string-IsBounded Value.other h = absurd (cc)

is_dry_run_first_input_boundary_mode-IsDryMode :
    (v : Value) → is_dry_run_first_input_boundary_mode v ≡ true → IsDryMode v
unfolding is_dry_run_first_input_boundary_mode
is_dry_run_first_input_boundary_mode-IsDryMode v h = elim (Bool-cases (is_text "fake" v)) [
  | inl y ↦ fake y
  | inr n ↦ elim (Bool-cases (is_text "local" v)) [
    | inl y ↦ local y
    | inr m ↦ dry_run (ground arith)
  ]
]

not_rejected :
    (nothing dry real approved : Bool) (x y z : String)
    → (if nothing
        then some x
        else if dry
        then none
        else if not real
        then some y
        else if approved
        then none
        else some z)
      ≡ none
    → dry ≡ false
    → (real ≡ true) × (approved ≡ true)
not_rejected true dry real approved x y z h n = absurd (cc)
not_rejected false true real approved x y z h n = absurd (cc)
not_rejected false false false approved x y z h n = absurd (cc)
not_rejected false false true true x y z h n = (refl, refl)
not_rejected false false true false x y z h n = absurd (cc)

all_five :
    (a b c d e : Bool)
    → (a && b && c && d && e) ≡ true
    → (a ≡ true) × (b ≡ true) × (c ≡ true) × (d ≡ true) × (e ≡ true)
all_five a b c d e h = (ground arith, ground arith, ground arith, ground arith, ground arith)

module _ (js : WebRuntime) where
  -- a text of at most 256 characters that is a timestamp in UTC
  pub data IsTime : Value → Type 0 where
    time :
        {s : String}
        → leb (utf16_length s) 256 ≡ true
        → is_strict_utc_millis_timestamp js s ≡ true
        → IsTime (str s)

  -- A declared boundary: a dry mode; or a real one, with the evidence of a dry mode and its
  -- reference, and an override with who approved it, when, and why.
  pub data IsDeclared (boundary : Value) : Type 0 where
    dry : IsDryMode (property "mode" boundary) → IsDeclared boundary
    real :
        is_text "real" (property "mode" boundary) ≡ true
        → IsDryMode (property "mode" (property "dryRunFirstEvidence" boundary))
        → IsBounded (property "reference" (property "dryRunFirstEvidence" boundary))
        → IsBounded (property "approvedBy" (property "override" boundary))
        → IsTime (property "approvedAt" (property "override" boundary))
        → IsBounded (property "reason" (property "override" boundary))
        → IsDeclared boundary

  is_strict_iso_timestamp_value-IsTime :
      (v : Value) → is_strict_iso_timestamp_value js v ≡ true → IsTime v
  unfolding is_strict_iso_timestamp_value is_bounded_string
  is_strict_iso_timestamp_value-IsTime (str s) h = time (ground arith) (ground arith)
  is_strict_iso_timestamp_value-IsTime Value.undefined h = absurd (cc)
  is_strict_iso_timestamp_value-IsTime Value.null h = absurd (cc)
  is_strict_iso_timestamp_value-IsTime (Value.bool b) h = absurd (cc)
  is_strict_iso_timestamp_value-IsTime (Value.num n) h = absurd (cc)
  is_strict_iso_timestamp_value-IsTime (Value.arr vs) h = absurd (cc)
  is_strict_iso_timestamp_value-IsTime (Value.obj fs) h = absurd (cc)
  is_strict_iso_timestamp_value-IsTime (Value.exotic fs) h = absurd (cc)
  is_strict_iso_timestamp_value-IsTime Value.other h = absurd (cc)

  -- A boundary that is not rejected is a declared one.
  pub explain-IsDeclared :
      (surface : String) (boundary : Value)
      → explain_controlled_pilot_boundary_rejection js surface boundary ≡ none
      → IsDeclared boundary
  unfolding explain_controlled_pilot_boundary_rejection
  explain-IsDeclared surface boundary h =
      let mode = property "mode" boundary in
      let evidence = property "dryRunFirstEvidence" boundary in
      let override = property "override" boundary in
      elim (Bool-cases (is_dry_run_first_input_boundary_mode mode)) [
        | inl y ↦ dry (is_dry_run_first_input_boundary_mode-IsDryMode mode y)
        | inr n ↦
            let (is_real, approved) =
              not_rejected _ _ _ (is_approved js evidence override) _ _ _ h n in
            let (a, b, c, d, e) = all_five _ _ _ _ _ approved in
            real is_real
              (is_dry_run_first_input_boundary_mode-IsDryMode (property "mode" evidence) a)
              (is_bounded_string-IsBounded (property "reference" evidence) b)
              (is_bounded_string-IsBounded (property "approvedBy" override) c)
              (is_strict_iso_timestamp_value-IsTime (property "approvedAt" override) d)
              (is_bounded_string-IsBounded (property "reason" override) e)
      ]
