-- ===== src/Audit/Sequence.antt =====
-- src/audit-event-writer.ts: the ids of audit events, and the highest number in a log. The source's
-- numbers are doubles; they are these numbers up to `max_safe_integer`, beyond which the source rounds.
use Prim.Native.Nat.{◌/◌, ◌%◌}
use Prim.Native.Char.{code}
use Prim.Native.String.{◌++◌, [] as []ᶜ, ◌∷◌ as ◌∷ᶜ◌}
use ensen_flow.Common.{
  ℕ, ◌-◌, zero, suc, max, String, true, false, Option, none, some, List, [], ◌∷◌, eqb, ltb,
  if◌then◌else◌, is_blank, Result, ok, ◌>>=◌,
}
use ensen_flow.Common.Codes.{text_length, split_at, trim_end}
use ensen_flow.Value.{Value, record_of, string_of, get}
use ensen_flow.Definition.Patterns.{is_numeral, number_of}

-- `Number.MAX_SAFE_INTEGER`
abbrev pub max_safe_integer : ℕ
max_safe_integer = 9007199254740991

abbrev pub digit : ℕ → String
digit zero = "0"
digit (suc zero) = "1"
digit (suc (suc zero)) = "2"
digit (suc (suc (suc zero))) = "3"
digit (suc (suc (suc (suc zero)))) = "4"
digit (suc (suc (suc (suc (suc zero))))) = "5"
digit (suc (suc (suc (suc (suc (suc zero)))))) = "6"
digit (suc (suc (suc (suc (suc (suc (suc zero))))))) = "7"
digit (suc (suc (suc (suc (suc (suc (suc (suc zero)))))))) = "8"
digit _ = "9"

-- `String(n)`, with as many digits as the fuel allows
unfoldable pub decimal_within : ℕ → ℕ → String
decimal_within zero n = ""
decimal_within (suc fuel) n = elim (ltb n 10) [
  | true ↦ digit n
  | false ↦ decimal_within fuel (n / 10) ++ digit (n % 10)
]

-- A number has no more digits than it counts, and one more for 0.
unfoldable pub decimal : ℕ → String
unfolding decimal_within
decimal n = decimal_within (suc n) n

unfoldable pub zeros : ℕ → String
zeros zero = ""
zeros (suc n) = "0" ++ zeros n

-- `text.padStart(n, "0")`
unfoldable pub pad_start : ℕ → String → String
unfolding zeros text_length
pad_start n text = zeros (n - text_length text) ++ text

-- `audit.${runId}.`, which the pattern has with its special characters escaped
abbrev pub id_prefix : String → String
id_prefix run_id = "audit." ++ (run_id ++ ".")

unfoldable pub create_audit_event_id : String → ℕ → String
unfolding pad_start decimal
create_audit_event_id run_id sequence = id_prefix run_id ++ pad_start 6 (decimal sequence)

-- what follows a prefix
unfoldable pub strip_prefix : String → String → Option String
strip_prefix []ᶜ s = some s
strip_prefix (c ∷ᶜ p) []ᶜ = none
strip_prefix (c ∷ᶜ p) (d ∷ᶜ s) = if eqb (code c) (code d) then strip_prefix p s else none

abbrev number_in : Option String → Option ℕ
number_in none = none
number_in (some digits) = if is_numeral digits then some (number_of 0 digits) else none

-- the number in an id of the run: `Number(match[1])`
unfoldable pub sequence_of : String → String → Option ℕ
unfolding strip_prefix is_numeral number_of
sequence_of run_id id = number_in (strip_prefix (id_prefix run_id) id)

abbrev max_with : ℕ → Option ℕ → ℕ
max_with top none = top
max_with top (some n) = max top n

-- `parsed.id`, if it is a string
abbrev id_in : Value → Option String
id_in parsed = elim (record_of parsed) [ none ↦ none | some fs ↦ string_of (get fs "id") ]

abbrev sequence_in : String → Option String → Option ℕ
sequence_in run_id none = none
sequence_in run_id (some id) = sequence_of run_id id

module _ (json_parse : String → Result String Value) (run_id : String) where
  -- one line of the log
  unfoldable pub next_max : ℕ → String → Result String ℕ
  unfolding sequence_of
  next_max top line = do
    parsed ← json_parse line
    ok (max_with top (sequence_in run_id (id_in parsed)))

  unfoldable pub max_sequence : ℕ → List String → Result String ℕ
  unfolding next_max
  max_sequence top [] = ok top
  max_sequence top (line ∷ lines) = do more ← next_max top line; max_sequence more lines

  -- the file of the log, none if it is not there
  unfoldable pub read_existing_audit_sequence : Option String → Result String ℕ
  unfolding max_sequence split_at trim_end
  read_existing_audit_sequence none = ok 0
  read_existing_audit_sequence (some content) =
      if is_blank content then ok 0 else max_sequence 0 (split_at "\n" (trim_end content))
