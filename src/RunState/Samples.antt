-- ===== src/RunState/Samples.antt =====
-- Sample records for the tests, and a codec that knows two records.
use native.Mathlib.Decide.{ℕ_discrete}
use ensen_flow.Common.{
  ℕ, Bool, true, false, String, ◌≡◌, refl, none, ok, err, ◌==◌, eq_iff, if◌then◌else◌, Result,
}
use ensen_flow.Value.{Value}
use ensen_flow.RunState.{Event, CreatedEvent, StepAttemptEvent, StepEventType}
use ensen_flow.RunState.Store.{StoreError, malformed, Codec}

abbrev pub decided : {A : Type 0} (b : Bool) → (b ≡ true → A) → (b ≡ false → ¬ A) → Dec A
decided true f g = yes (f refl)
decided false f g = no (g refl)

unfoldable pub String-discrete : Discrete String
String-discrete s t = decided (s == t) ((eq_iff s t).0) (λ n e. cc (n, (eq_iff s t).1 e))

unfoldable pub Value-discrete : Discrete Value
Value-discrete = hlevel (ℕ_discrete, String-discrete)

unfoldable pub Event-discrete : Discrete Event
Event-discrete = hlevel (ℕ_discrete, String-discrete, Value-discrete)

abbrev pub sample_created : CreatedEvent
sample_created = record {
  run_id = "r1";
  workflow_id = "w1";
  workflow_version = "flow.workflow.v1";
  trigger = record {
    type = "manual";
    received_at = "2026-01-01T00:00:00Z";
    context = none;
    idempotency_key = none;
  };
  occurred_at = "2026-01-01T00:00:00Z";
}

abbrev pub sample_step : StepEventType → ℕ → StepAttemptEvent
sample_step type attempt = record {
  type = type;
  run_id = "r1";
  step_id = "build";
  attempt = attempt;
  occurred_at = "2026-01-01T00:00:01Z";
  retry = none;
  result = none;
  recovery = none;
}

abbrev known_by : {A B : Type 0} → ℕ → Dec A → Dec B → Result StoreError (Unit {0})
known_by line (yes _) _ = ok tt
known_by line (no _) (yes _) = ok tt
known_by line (no _) (no _) = err (malformed line "unknown")

abbrev text_by : {A : Type 0} → Dec A → String
text_by (yes _) = "1"
text_by (no _) = "2"

known_by-first : {A B : Type 0} (line : ℕ) (d : Dec A) (d' : Dec B) → A → known_by line d d' ≡ ok tt
known_by-first line (yes _) d' a = refl
known_by-first line (no n) d' a = absurd (n a)

known_by-second :
    {A B : Type 0} (line : ℕ) (d : Dec A) (d' : Dec B) → B → known_by line d d' ≡ ok tt
known_by-second line (yes _) d' b = refl
known_by-second line (no _) (yes _) b = refl
known_by-second line (no _) (no n) b = absurd (n b)

text_by-first : {A : Type 0} (d : Dec A) → A → text_by d ≡ "1"
text_by-first (yes _) a = refl
text_by-first (no n) a = absurd (n a)

module _ (first second : Event) where
  pub pair_validate : ℕ → Event → Result StoreError (Unit {0})
  pair_validate line e = known_by line (Event-discrete e first) (Event-discrete e second)

  pub pair_stringify : Event → String
  pair_stringify e = text_by (Event-discrete e first)

  unfoldable pub pair_parse : ℕ → String → Result StoreError Event
  pair_parse line l =
      if l == "1" then ok first else if l == "2" then ok second else err (malformed line "unknown")

  parse-text_by :
      (m n : ℕ) (e : Event) (d : Dec (e ≡ first)) (d' : Dec (e ≡ second))
      → known_by m d d' ≡ ok tt
      → pair_parse n (text_by d) ≡ ok e
  unfolding pair_parse
  parse-text_by m n e (yes p) d' h = rw (← p) refl
  parse-text_by m n e (no _) (yes p) h = rw (← p) refl
  parse-text_by m n e (no _) (no _) h = cc

  pub pair_parse-stringify :
      (m n : ℕ) (e : Event) → pair_validate m e ≡ ok tt → pair_parse n (pair_stringify e) ≡ ok e
  unfolding pair_validate pair_stringify
  pair_parse-stringify m n e =
      parse-text_by m n e (Event-discrete e first) (Event-discrete e second)

  -- A codec that writes two records as "1" and "2", and knows no others.
  abbrev pub pair_codec : Codec
  pair_codec = record {
    parse = pair_parse;
    stringify = pair_stringify;
    validate = pair_validate;
    parse-stringify = pair_parse-stringify;
  }

  pub pair_stringify_first : pair_stringify first ≡ "1"
  unfolding pair_stringify
  pair_stringify_first = text_by-first (Event-discrete first first) refl

  pub pair_validate_first : (line : ℕ) → pair_validate line first ≡ ok tt
  unfolding pair_validate
  pair_validate_first line =
      known_by-first line (Event-discrete first first) (Event-discrete first second) refl

  pub pair_validate_second : (line : ℕ) → pair_validate line second ≡ ok tt
  unfolding pair_validate
  pair_validate_second line =
      known_by-second line (Event-discrete second first) (Event-discrete second second) refl
