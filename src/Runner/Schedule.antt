-- ===== src/Runner/Schedule.antt =====
-- src/schedule-trigger.ts: the trigger that runs a workflow at the times of its cron expression. The
-- definition is one that `validateWorkflowDefinition` accepts, and the file is the one of the run.
pub mod Due
pub mod Laws
mod Tests
use Prim.Native.Char.{Char, code}
use Prim.Native.String.{◌∷◌ as ◌∷ᶜ◌, [] as []ᶜ, ◌++◌}
use ensen_flow.Common.{
  ℕ, ◌+◌, String, Bool, true, false, not, ◌&&◌, ◌||◌, ◌==◌, Option, none, some, List, [], ◌∷◌, eqb,
  leb, if◌then◌else◌, Result, ok, err,
}
use ensen_flow.Value.{Value, str, obj, field, end}
use ensen_flow.RunState.{RunState}
use ensen_flow.RunState.Store.{Disk}
use ensen_flow.Definition.{WorkflowDefinition, TriggerType, manual, schedule, webhook}
use ensen_flow.Definition.Patterns.{fields_of, is_valid_schedule_cron_expression, number_of}
use ensen_flow.Runner.Exec.{Thrown, Exec, pure, raise, lift, ◌>>=◌}
use ensen_flow.Runner.Environment.{RunWorld, Environment}
use ensen_flow.Runner.Start.{Texts}
use ensen_flow.Runner.Start.TakeUp.{RunWorkflowInput}
use ensen_flow.Runner.Workflow.{run_workflow}

-- `new Date(text)`, if it is a time, `toISOString` and the UTC getters
pub record Calendar (Date : Type 0) : Type 0 where
  pub date_of : String → Option Date
  pub to_iso : Date → String
  pub utc_minutes : Date → ℕ
  pub utc_hours : Date → ℕ
  pub utc_date : Date → ℕ
  pub utc_month : Date → ℕ
  pub utc_day : Date → ℕ

-- `\d` where the pattern has a `d`, and the character itself elsewhere
abbrev fits_char : ℕ → ℕ → Bool
fits_char p c = if eqb p 100 then leb 48 c && leb c 57 else eqb p c

-- the text that the pattern takes, and the rest
unfoldable pub take_pattern : String → String → Option (String × String)
take_pattern []ᶜ s = some ("", s)
take_pattern (p ∷ᶜ ps) []ᶜ = none
take_pattern (p ∷ᶜ ps) (c ∷ᶜ s) =
    let rest = take_pattern ps s in
    if fits_char (code p) (code c)
    then elim rest [ none ↦ none | some (taken, left) ↦ some (c ∷ᶜ taken, left) ]
    else none

-- `SCHEDULED_FOR_UTC_PATTERN` and `canonicalInput`
unfoldable pub canonical_input : String → Option String
unfolding take_pattern
canonical_input value = elim (take_pattern "dddd-dd-ddTdd:dd:dd" value) [
  | none ↦ none
  | some (time, rest) ↦
      if rest == "Z" then some (time ++ ".000Z") else elim (take_pattern ".dddZ" rest) [
        | none ↦ none
        | some (millis, left) ↦ if left == "" then some (time ++ millis) else none
      ]
]

-- `value.replaceAll(c, "")`, of one character
unfoldable pub remove_all : ℕ → String → String
remove_all k []ᶜ = ""
remove_all k (c ∷ᶜ s) = let rest = remove_all k s in if eqb (code c) k then rest else c ∷ᶜ rest

-- `value.replace(c, "")`, of one character
unfoldable pub remove_first : ℕ → String → String
remove_first k []ᶜ = ""
remove_first k (c ∷ᶜ s) = let rest = remove_first k s in if eqb (code c) k then s else c ∷ᶜ rest

-- the codes of `-`, `:` and `.`
unfoldable pub compact_timestamp : String → String
unfolding remove_all remove_first
compact_timestamp value = remove_first 46 (remove_all 58 (remove_all 45 value))

unfoldable pub create_schedule_run_id : String → String → String
unfolding compact_timestamp
create_schedule_run_id workflow_id scheduled_for =
    workflow_id ++ ("-scheduled-" ++ compact_timestamp scheduled_for)

-- `fields.every((field, index) => field === "*" || Number(field) === dateFields[index])`
unfoldable pub fields_match : List String → List ℕ → Bool
unfolding number_of
fields_match [] ns = true
fields_match (f ∷ fs) [] = (f == "*") && fields_match fs []
fields_match (f ∷ fs) (n ∷ ns) = ((f == "*") || eqb (number_of 0 f) n) && fields_match fs ns

-- `ScheduleTriggerEvaluationResult`
pub data Evaluation : Type 0 where
  not_due : Evaluation
  ran : RunState → Evaluation

abbrev pub cron_of : TriggerType → Result Thrown String
cron_of (schedule cron) = ok cron
cron_of manual = err (Thrown.error "evaluateScheduleTrigger requires a schedule trigger workflow")
cron_of (webhook path) =
    err (Thrown.error "evaluateScheduleTrigger requires a schedule trigger workflow")

module _ {Date : Type 0} (calendar : Calendar Date) where
  unfoldable pub parse_scheduled_for_utc : String → Option Date
  unfolding canonical_input
  parse_scheduled_for_utc value = elim (canonical_input value) [
    | none ↦ none
    | some canonical ↦ elim (calendar.date_of value) [
      | none ↦ none
      | some date ↦ if calendar.to_iso date == canonical then some date else none
    ]
  ]

  unfoldable pub normalize_scheduled_for_utc : String → Result Thrown String
  unfolding parse_scheduled_for_utc
  normalize_scheduled_for_utc value = elim (parse_scheduled_for_utc value) [
    | none ↦ err (Thrown.error "scheduledFor must be an ISO-8601 UTC timestamp")
    | some date ↦ ok (calendar.to_iso date)
  ]

  abbrev pub date_fields : Date → List ℕ
  date_fields d =
      calendar.utc_minutes d
      ∷ calendar.utc_hours d
      ∷ calendar.utc_date d
      ∷ (calendar.utc_month d + 1)
      ∷ calendar.utc_day d
      ∷ []

  unfoldable pub is_due_for_schedule : String → String → Bool
  unfolding is_valid_schedule_cron_expression parse_scheduled_for_utc fields_match fields_of
  is_due_for_schedule cron scheduled_for =
      if not (is_valid_schedule_cron_expression cron)
      then false
      else elim (parse_scheduled_for_utc scheduled_for) [
        | none ↦ false
        | some date ↦ fields_match (fields_of cron) (date_fields date)
      ]

  module _ (env : Environment) (texts : Texts) (others : ℕ → Disk → Disk) where
    -- what `runWorkflow` is called with
    unfoldable pub schedule_input : WorkflowDefinition → String → String → RunWorkflowInput
    unfolding create_schedule_run_id
    schedule_input definition cron scheduled_for = record {
      definition = definition;
      run_id = some (create_schedule_run_id definition.id scheduled_for);
      trigger_context = some (
          obj (
            field "schedule"
              (obj (field "cron" (str cron) (field "scheduledFor" (str scheduled_for) end))) end));
      existing_run_state_guard = λ s. ok tt;
      recover_approval_required_step_ids = [];
    }

    unfoldable pub evaluate_due :
        WorkflowDefinition → String → String → Bool → Exec RunWorld Evaluation
    unfolding run_workflow schedule_input
    evaluate_due definition cron scheduled_for false = pure not_due
    evaluate_due definition cron scheduled_for true = do
      s ← run_workflow env texts others (schedule_input definition cron scheduled_for)
      pure (ran s)

    unfoldable pub evaluate_schedule_trigger :
        WorkflowDefinition → String → Exec RunWorld Evaluation
    unfolding normalize_scheduled_for_utc is_due_for_schedule evaluate_due
    evaluate_schedule_trigger definition scheduled = do
      scheduled_for ← lift (normalize_scheduled_for_utc scheduled)
      cron ← lift (cron_of definition.trigger.type)
      evaluate_due definition cron scheduled_for (is_due_for_schedule cron scheduled_for)
