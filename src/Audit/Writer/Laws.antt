-- ===== src/Audit/Writer/Laws.antt =====
-- src/audit-event-writer.ts: the numbers that a writer gives.
use Prim.Native.String.{◌++◌}
use ensen_flow.Common.{
  ℕ, ◌+◌, ◌<◌, ◌≤◌, String, ◌≡◌, inl, inr, refl, Option, none, some, suc, Option-cases,
  Result-cases, ok, arith,
}
use ensen_flow.Hygiene.{Runtime}
use ensen_flow.Audit.{EventInput, validate_neutral_audit_event}
use ensen_flow.Audit.Sequence.{max_safe_integer}
use ensen_flow.Audit.Writer.Logs.{content_of, IsLogging, IsLog, IsLog-read, line, append-IsLog}
use ensen_flow.Audit.Writer.{
  WriterInput, LogFile, WriterState, existing, known_sequence, append_audit_event, event_of, write,
}

module _ (log : LogFile) (writer : WriterInput) where
  -- the number a writer goes on from is no lower than those in the log, and has an exact successor
  abbrev pub Follows : Option ℕ → ℕ → Type 0
  Follows none m = Unit
  Follows (some n) m = (m ≤ n) × (n < max_safe_integer)

  -- what a write that returns has done
  pub record Numbers (input : EventInput) (s s' : WriterState) (m : ℕ) : Type 0 where
    pub number : ℕ
    pub higher : m < number
    pub safe : number ≤ max_safe_integer
    pub added :
        s'.file
        ≡ some (content_of s.file ++ (log.json_stringify (event_of writer number input) ++ "\n"))
    pub kept : s'.sequence ≡ some number
    pub again : IsLog log writer s'.file number

  existing-IsLog :
      (js : Runtime) (file : Option String) (m n : ℕ) (failure : Option String)
      → IsLog log writer file m
      → existing js log writer failure file ≡ ok n
      → m ≡ n
  existing-IsLog js file m n (some failure) is_log h = cc
  existing-IsLog js file m n none is_log h = let read = IsLog-read log writer is_log in ground arith

  known_sequence-above :
      (js : Runtime) (s : WriterState) (m n : ℕ)
      → IsLog log writer s.file m
      → Follows s.sequence m
      → known_sequence js log writer s ≡ ok n
      → m < max_safe_integer
      → (m ≤ n) × (n < max_safe_integer)
  unfolding known_sequence
  known_sequence-above js s m n is_log follows h safe = elim (Option-cases s.sequence) [
    | inl none_yet ↦
        let read : existing js log writer log.read_failure s.file ≡ ok n = rw none_yet at h in
        let same = existing-IsLog js s.file m n log.read_failure is_log read in
        (omega arith, omega arith)
    | inr (k, going) ↦
        let above : Follows (some k) m = rw going at follows in
        let known : ok k ≡ ok n = rw going at h in
        let same : k ≡ n = ground arith in (rw (← same) above.0, rw (← same) above.1)
  ]

  -- For a log that ends with an event, or is not there yet, with highest number `m`, and a writer
  -- that has written nothing or goes on from no lower number, both below `Number.MAX_SAFE_INTEGER`: a
  -- write that returns added one line, an event whose number is higher than all in the log and at most
  -- that bound, and the log reads back as that number, from which this writer goes on, as a new one
  -- would.
  pub write-Numbers :
      (js : Runtime)
      → IsLogging log writer
      → (input : EventInput) (s : WriterState) (m : ℕ) → IsLog log writer s.file m
      → m < max_safe_integer
      → Follows s.sequence m
      → (write js log writer input s).0 ≡ ok tt
      → Numbers input s (write js log writer input s).1 m
  unfolding write append_audit_event line
  write-Numbers js logging input s m is_log small follows h =
      elim (Result-cases (known_sequence js log writer s)) [
        | inr (message, unknown) ↦ absurd (ground arith)
        | inl (n, known) ↦
            let (above, safe) = known_sequence-above js s m n is_log follows known small in
            elim (Result-cases (validate_neutral_audit_event js (event_of writer (n + 1) input))) [
              | inr (message, invalid) ↦ absurd (ground arith)
              | inl (t, valid) ↦
                  let returned = rw (known, valid) at h in
                  let next : n + 1 ≡ suc n = omega arith in
                  let below : m < suc n = omega arith in
                  let text = log.json_stringify (event_of writer (n + 1) input) ++ "\n" in
                  let added = logging.appends text s.file returned in
                  let more = append-IsLog log writer logging s.file m n input is_log below in
                  rw (known, valid)
                    (record {
                      number = n + 1;
                      higher = omega arith;
                      safe = omega arith;
                      added = added;
                      kept = refl;
                      again = rw added (rw (← next) at more);
                    })
            ]
      ]
