-- ===== src/Audit/Writer/Logs.antt =====
-- src/audit-event-writer.ts: the numbers of the events in a log.
use Prim.Native.String.{◌++◌, ◌∷◌ as ◌∷ᶜ◌}
use text.Mathlib.TextLemmas.{append_assoc, cons-append, nil-append}
use ensen_flow.Common.{
  ℕ, ◌<◌, max, String, false, ◌≡◌, refl, sym, ap, ◌∙◌, Option, none, some, List, [], ◌∷◌,
  ◌++◌ as ◌++ᴸ◌, suc, is_blank, Result, ok, >>=-eq-ok, arith,
}
use mathlib.Core.Bool.{and-false}
use ensen_flow.Common.Splitting.{is_blank-append, trim_end-append, split_at-append}
use ensen_flow.Common.Codes.{split_at, trim_end}
use ensen_flow.Value.{Value, Fields, obj, entries, string_of, get}
use ensen_flow.Audit.{EventInput}
use ensen_flow.Audit.Sequence.{
  create_audit_event_id, next_max, max_sequence, read_existing_audit_sequence,
}
use ensen_flow.Audit.Numbering.{sequence_of_id}
use ensen_flow.Audit.Writer.{WriterInput, LogFile, event_of}

max_sequence-append :
    (parse : String → Result String Value) (run_id : String) (top m : ℕ) (xs ys : List String)
    → max_sequence parse run_id top xs ≡ ok m
    → max_sequence parse run_id top (xs ++ᴸ ys) ≡ max_sequence parse run_id m ys
unfolding max_sequence
max_sequence-append parse run_id top m [] ys h = let same : top ≡ m = ground arith in rw same refl
max_sequence-append parse run_id top m (x ∷ xs) ys h =
    let (more, first, rest) = >>=-eq-ok (next_max parse run_id top x) _ h in
    rw first (max_sequence-append parse run_id more m xs ys rest)

-- the text of a file, none if it is not there
abbrev pub content_of : Option String → String
content_of none = ""
content_of (some content) = content

module _ (log : LogFile) (writer : WriterInput) where
  -- What the writer relies on for the events it makes: the text of an event is a line that ends with
  -- a brace, and reads as an object with the event's id; an append that returns has added its text.
  pub record IsLogging : Type 0 where
    pub braced :
        (n : ℕ) (input : EventInput)
        → (body : String) × (log.json_stringify (event_of writer n input) ≡ body ++ "}")
    pub one_line :
        (n : ℕ) (input : EventInput)
        → split_at "\n" (log.json_stringify (event_of writer n input))
          ≡ log.json_stringify (event_of writer n input) ∷ []
    pub reads :
        (n : ℕ) (input : EventInput)
        → (fs : Fields) × (log.json_parse (log.json_stringify (event_of writer n input))
            ≡ ok (obj fs))
          × (string_of (get (entries fs) "id") ≡ some (create_audit_event_id writer.run n))
    pub appends :
        (text : String) (file : Option String)
        → (log.append text file).0 ≡ ok tt
        → (log.append text file).1 ≡ some (content_of file ++ text)

  abbrev read_log : Option String → Result String ℕ
  read_log = read_existing_audit_sequence log.json_parse writer.run

  -- A log that can be read, whose highest number is `m`: no file, or one that ends with an event.
  pub data IsLog : Option String → ℕ → Type 0 where
    no_log : IsLog none 0
    events :
        (front : String) {m : ℕ}
        → read_log (some (front ++ "}\n")) ≡ ok m
        → IsLog (some (front ++ "}\n")) m

  pub IsLog-read : {file : Option String} {m : ℕ} → IsLog file m → read_log file ≡ ok m
  unfolding read_existing_audit_sequence
  IsLog-read no_log = refl
  IsLog-read (events front read) = read

  module _ (logging : IsLogging) where
    unfoldable pub line : ℕ → EventInput → String
    line n input = log.json_stringify (event_of writer n input)

    -- a log whose last line is an event reads as that event's number, if it is higher
    next_max-line :
        (top n : ℕ) (input : EventInput)
        → top < suc n
        → next_max log.json_parse writer.run top (line (suc n) input) ≡ ok (suc n)
    unfolding next_max line
    next_max-line top n input h =
        let (fs, parsed, has_id) = logging.reads (suc n) input in
        let number = sequence_of_id writer.run n in
        let highest : max top (suc n) ≡ suc n = omega arith in
        rw (parsed, has_id, number, highest) refl

    last_line :
        (top n : ℕ) (input : EventInput)
        → top < suc n
        → max_sequence log.json_parse writer.run top (line (suc n) input ∷ []) ≡ ok (suc n)
    unfolding max_sequence
    last_line top n input h = rw (next_max-line top n input h) refl

  read-braced :
      (front : String)
      → read_log (some (front ++ "}\n"))
        ≡ max_sequence log.json_parse writer.run 0 (split_at "\n" (front ++ "}"))
  unfolding read_existing_audit_sequence trim_end is_blank
  read-braced front =
      let written : is_blank (front ++ "}\n") ≡ false =
        is_blank-append front "}\n" ∙ and-false (is_blank front) in
      rw (written, trim_end-append front "}\n" refl) refl

  newline-cons : (s : String) → "\n" ++ s ≡ "\n" ∷ᶜ s
  newline-cons s = cons-append "\n" "" s ∙ ap (λ t. "\n" ∷ᶜ t) (nil-append s)

  -- the last line of a log, by itself
  last-apart :
      (front body : String)
      → ((front ++ "}\n") ++ body) ++ "}" ≡ (front ++ "}") ++ ("\n" ∷ᶜ (body ++ "}"))
  last-apart front body =
      append_assoc (front ++ "}\n") body "}"
      ∙ append_assoc front "}\n" (body ++ "}")
      ∙ ap (λ t. front ++ t) (append_assoc "}" "\n" (body ++ "}"))
      ∙ sym (append_assoc front "}" ("\n" ++ (body ++ "}")))
      ∙ ap (λ t. (front ++ "}") ++ t) (newline-cons (body ++ "}"))

  module _ (logging : IsLogging) where
    added-braced :
        (content : String) (n : ℕ) (input : EventInput)
        → (body : String) × (line logging n input ≡ body ++ "}")
          × (content ++ (line logging n input ++ "\n") ≡ (content ++ body) ++ "}\n")
    unfolding line
    added-braced content n input =
        let (body, ends) = logging.braced n input in
        (
          body,
          ends,
          ap (λ t. content ++ (t ++ "\n")) ends
              ∙ ap (λ t. content ++ t) (append_assoc body "}" "\n")
              ∙ sym (append_assoc content body "}\n"),
        )

    pub append-IsLog :
        (file : Option String) (m n : ℕ) (input : EventInput)
        → IsLog file m
        → m < suc n
        → IsLog (some (content_of file ++ (line logging (suc n) input ++ "\n"))) (suc n)
    unfolding line
    append-IsLog none m n input no_log h =
        let (body, ends, shape) = added-braced "" (suc n) input in
        let alone : ("" ++ body) ++ "}" ≡ line logging (suc n) input =
          ap (λ t. t ++ "}") (nil-append body) ∙ sym ends in
        let parts = ap (split_at "\n") alone ∙ logging.one_line (suc n) input in
        let read =
          read-braced ("" ++ body)
          ∙ ap (max_sequence log.json_parse writer.run 0) parts
          ∙ last_line logging 0 n input h in
        rw shape (events ("" ++ body) read)
    append-IsLog (some c) m n input (events front before) h =
        let (body, ends, shape) = added-braced (front ++ "}\n") (suc n) input in
        let single : split_at "\n" (body ++ "}") ≡ line logging (suc n) input ∷ [] =
          ap (split_at "\n") (sym ends) ∙ logging.one_line (suc n) input in
        let parts =
          ap (split_at "\n") (last-apart front body)
          ∙ split_at-append "\n" (front ++ "}") (body ++ "}")
          ∙ ap (λ ls. split_at "\n" (front ++ "}") ++ᴸ ls) single in
        let read =
          read-braced ((front ++ "}\n") ++ body)
          ∙ ap (max_sequence log.json_parse writer.run 0) parts
          ∙ max_sequence-append log.json_parse writer.run 0 m _ _ (sym (read-braced front) ∙ before)
          ∙ last_line logging m n input h in
        rw shape (events ((front ++ "}\n") ++ body) read)
