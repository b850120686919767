-- ===== src/Audit/Tests.antt =====
-- The audit writer at concrete events, with an encoding that writes an event's number in unary.
use Prim.Native.String.{◌++◌, ◌∷◌ as ◌∷ᶜ◌}
use text.Mathlib.TextLemmas.{cons-append}
use ensen_flow.Common.{
  lookup, ℕ, ◌-◌, zero, suc, String, false, ◌≡◌, refl, sym, ap, ◌∙◌, Option, none, some, [], ◌∷◌,
  ok, arith,
}
use ensen_flow.Common.Codes.{text_length, split_at}
use ensen_flow.Value.{Value, str, obj, end, field}
use ensen_flow.Hygiene.{Runtime}
use ensen_flow.Audit.{EventInput}
use ensen_flow.Audit.Sequence.{create_audit_event_id, sequence_of}
use ensen_flow.Audit.Numbering.{sequence_of_id, sequence_of-create_audit_event_id}
use ensen_flow.Audit.Writer.{WriterInput, LogFile, WriterState, event_of, write}
use ensen_flow.Audit.Writer.Logs.{content_of, IsLogging, no_log}
use ensen_flow.Audit.Writer.Laws.{Numbers, write-Numbers}

sequence_of-create_audit_event_id_example :
    sequence_of "run-1" (create_audit_event_id "run-1" 42) ≡ some 42
sequence_of-create_audit_event_id_example =
    sequence_of-create_audit_event_id "run-1" 42 (omega arith) (omega arith)

unfoldable unary : ℕ → String
unary zero = "}"
unary (suc n) = "x" ∷ᶜ unary n

abbrev unary_of : Option ℕ → String
unary_of none = "}"
unary_of (some n) = unary n

abbrev id_object : String → Value
id_object id = obj (field "id" (str id) end)

abbrev plain : Runtime
plain = record {
  test = λ p s. false;
  json_parse = λ s. none;
  number_text = λ n. "0";
  json_string = λ s. s;
}

abbrev log : LogFile
log = record {
  json_parse = λ s. ok (id_object (create_audit_event_id "run-1" (text_length s - 1)));
  json_stringify = λ e. unary_of (sequence_of "run-1" e.id);
  read_failure = none;
  append = λ text file. (ok tt, some (content_of file ++ text));
}

abbrev writer : WriterInput
writer = record {
  actor = none;
  source = none;
  workflow = record { id = "flow"; version = "1" };
  run = "run-1";
}

abbrev started : EventInput
started = record {
  type = "workflow.started";
  occurred_at = "2024-02-29T23:59:59.999Z";
  step = none;
  retry = none;
  outcome = none;
  approval = none;
}

number_zero : sequence_of "run-1" (create_audit_event_id "run-1" 0) ≡ some 0
unfolding sequence_of create_audit_event_id
number_zero = refl

stringify-unary :
    (n : ℕ) (input : EventInput) → log.json_stringify (event_of writer n input) ≡ unary n
unfolding event_of
stringify-unary zero input = ap unary_of number_zero
stringify-unary (suc n) input = ap unary_of (sequence_of_id "run-1" n)

unary-braced : (n : ℕ) → (body : String) × (unary n ≡ body ++ "}")
unfolding unary
unary-braced zero = ("", refl)
unary-braced (suc n) =
    let (body, ends) = unary-braced n in
    ("x" ∷ᶜ body, ap (λ s. "x" ∷ᶜ s) ends ∙ sym (cons-append "x" body "}"))

split_at-unary : (n : ℕ) → split_at "\n" (unary n) ≡ unary n ∷ []
unfolding unary split_at
split_at-unary zero = refl
split_at-unary (suc n) = rw (split_at, split_at-unary n) refl

text_length-unary : (n : ℕ) → text_length (unary n) ≡ suc n
unfolding unary text_length
text_length-unary zero = refl
text_length-unary (suc n) = ap suc (text_length-unary n)

one_less : (n : ℕ) → text_length (unary n) - 1 ≡ n
one_less n = let e = text_length-unary n in omega arith

log-IsLogging : IsLogging log writer
unfolding lookup
log-IsLogging = record {
  braced = λ n input. let (body, ends) = unary-braced n in (body, stringify-unary n input ∙ ends);
  one_line = λ n input. let e = stringify-unary n input in rw e (split_at-unary n);
  reads = λ n input.
      let e = stringify-unary n input in
      (field "id" (str (create_audit_event_id "run-1" n)) end, rw (e, one_less n) refl, refl);
  appends = λ text file returned. refl;
}

abbrev fresh : WriterState
fresh = record { sequence = none; file = none }

write_accepted : (write plain log writer started fresh).0 ≡ ok tt
unfolding write
write_accepted = refl

write-Numbers_example : Numbers log writer started fresh (write plain log writer started fresh).1 0
write-Numbers_example =
    write-Numbers log writer plain log-IsLogging started fresh 0 no_log (omega arith) tt
      write_accepted
