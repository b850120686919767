-- ===== src/Pilot.antt =====
-- src/controlled-pilot-input-boundary.ts: which inputs a transport may declare before a pilot.
pub mod Laws
use Prim.Native.String.{◌++◌}
use ensen_flow.Common.{
  String, Bool, true, false, not, ◌&&◌, ◌||◌, Option, none, some, if◌then◌else◌, is_blank, leb,
}
use ensen_flow.Common.Codes.{utf16_length}
use ensen_flow.Value.{Value, undefined, null, str, record_of, get, is_text}
use ensen_flow.Intake.{WebRuntime, is_strict_utc_millis_timestamp}

abbrev prefix : String → String
prefix surface = surface ++ " must declare a fake, local, or dry-run input boundary"

-- `value?.k`
abbrev pub property : String → Value → Value
property k v = elim (record_of v) [ none ↦ undefined | some fs ↦ get fs k ]

-- `isBoundedString`, with `isNonEmptyString`
unfoldable pub is_bounded_string : Value → Bool
unfolding is_blank utf16_length
is_bounded_string (str s) = not (is_blank s) && leb (utf16_length s) 256
is_bounded_string _ = false

unfoldable pub is_dry_run_first_input_boundary_mode : Value → Bool
is_dry_run_first_input_boundary_mode v =
    is_text "fake" v || is_text "local" v || is_text "dry-run" v

abbrev is_nothing : Value → Bool
is_nothing undefined = true
is_nothing null = true
is_nothing _ = false

module _ (js : WebRuntime) where
  unfoldable pub is_strict_iso_timestamp_value : Value → Bool
  unfolding is_bounded_string is_strict_utc_millis_timestamp
  is_strict_iso_timestamp_value (str s) =
      is_bounded_string (str s) && is_strict_utc_millis_timestamp js s
  is_strict_iso_timestamp_value _ = false

  -- evidence of a dry run, and a human's override
  abbrev pub is_approved : Value → Value → Bool
  is_approved evidence override =
      is_dry_run_first_input_boundary_mode (property "mode" evidence)
      && is_bounded_string (property "reference" evidence)
      && is_bounded_string (property "approvedBy" override)
      && is_strict_iso_timestamp_value (property "approvedAt" override)
      && is_bounded_string (property "reason" override)

  unfoldable pub explain_controlled_pilot_boundary_rejection : String → Value → Option String
  unfolding is_dry_run_first_input_boundary_mode is_bounded_string is_strict_iso_timestamp_value
  explain_controlled_pilot_boundary_rejection surface boundary =
      if is_nothing boundary
      then some (prefix surface ++ " before controlled pilot use")
      else if is_dry_run_first_input_boundary_mode (property "mode" boundary)
      then none
      else if not (is_text "real" (property "mode" boundary))
      then some (
          surface
          ++ " must declare a fake, local, dry-run, or explicitly approved real input boundary before controlled pilot use")
      else if is_approved (property "dryRunFirstEvidence" boundary) (property "override" boundary)
      then none
      else some (
          surface
          ++ " real input requires explicit dry-run-first evidence and a human-controlled override")
