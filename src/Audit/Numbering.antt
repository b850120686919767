-- ===== src/Audit/Numbering.antt =====
-- src/audit-event-writer.ts: the number that is read from an id is the one it was made of.
use Prim.Native.Nat.{◌/◌, ◌%◌}
use Prim.Native.Char.{code}
use Prim.Native.String.{◌++◌, [] as []ᶜ, ◌∷◌ as ◌∷ᶜ◌}
use text.Mathlib.TextLemmas.{append_assoc, cons-append, nil-append}
use ensen_flow.Common.{
  ℕ, ◌+◌, ◌-◌, ◌*◌, ◌<◌, ◌≤◌, zero, suc, String, true, ◌&&◌, ◌≡◌, refl, ◌∙◌, inl, inr, some, ltb,
  Bool-cases, arith,
}
use ensen_flow.Common.Codes.{text_length}
use ensen_flow.Definition.Patterns.{all_digits, is_numeral, number_of}
use ensen_flow.Audit.Sequence.{
  max_safe_integer, digit, decimal_within, decimal, zeros, pad_start, id_prefix,
  create_audit_event_id, strip_prefix, sequence_of,
}

number_of-append : (a : ℕ) (s t : String) → number_of a (s ++ t) ≡ number_of (number_of a s) t
unfolding number_of
number_of-append a []ᶜ t = rw (nil-append t) refl
number_of-append a (c ∷ᶜ s) t =
    rw (cons-append c s t) (number_of-append (a * 10 + (code c - 48)) s t)

all_digits-append : (s t : String) → all_digits (s ++ t) ≡ (all_digits s && all_digits t)
unfolding all_digits
all_digits-append []ᶜ t = rw (nil-append t) refl
all_digits-append (c ∷ᶜ s) t =
    let rest = all_digits-append s t in rw (cons-append c s t) (ground arith)

number_of-digit : (a d : ℕ) → d < 10 → number_of a (digit d) ≡ a * 10 + d
unfolding number_of
number_of-digit a zero h = omega arith
number_of-digit a (suc zero) h = omega arith
number_of-digit a (suc (suc zero)) h = omega arith
number_of-digit a (suc (suc (suc zero))) h = omega arith
number_of-digit a (suc (suc (suc (suc zero)))) h = omega arith
number_of-digit a (suc (suc (suc (suc (suc zero))))) h = omega arith
number_of-digit a (suc (suc (suc (suc (suc (suc zero)))))) h = omega arith
number_of-digit a (suc (suc (suc (suc (suc (suc (suc zero))))))) h = omega arith
number_of-digit a (suc (suc (suc (suc (suc (suc (suc (suc zero)))))))) h = omega arith
number_of-digit a (suc (suc (suc (suc (suc (suc (suc (suc (suc zero))))))))) h = omega arith
number_of-digit a (suc (suc (suc (suc (suc (suc (suc (suc (suc (suc d)))))))))) h =
    absurd (omega arith)

all_digits-digit : (d : ℕ) → d < 10 → all_digits (digit d) ≡ true
unfolding all_digits
all_digits-digit zero h = refl
all_digits-digit (suc zero) h = refl
all_digits-digit (suc (suc zero)) h = refl
all_digits-digit (suc (suc (suc zero))) h = refl
all_digits-digit (suc (suc (suc (suc zero)))) h = refl
all_digits-digit (suc (suc (suc (suc (suc zero))))) h = refl
all_digits-digit (suc (suc (suc (suc (suc (suc zero)))))) h = refl
all_digits-digit (suc (suc (suc (suc (suc (suc (suc zero))))))) h = refl
all_digits-digit (suc (suc (suc (suc (suc (suc (suc (suc zero)))))))) h = refl
all_digits-digit (suc (suc (suc (suc (suc (suc (suc (suc (suc zero))))))))) h = refl
all_digits-digit (suc (suc (suc (suc (suc (suc (suc (suc (suc (suc d)))))))))) h =
    absurd (omega arith)

number_of-decimal_within : (fuel n : ℕ) → n < fuel → number_of 0 (decimal_within fuel n) ≡ n
unfolding decimal_within
number_of-decimal_within zero n h = absurd (omega arith)
number_of-decimal_within (suc fuel) n h = elim (Bool-cases (ltb n 10)) [
  | inl small ↦
      let below : n < 10 = ground arith in
      rw (decimal_within, small) (number_of-digit 0 n below ∙ omega arith)
  | inr large ↦
      let above : 9 < n = ground arith in
      let before = number_of-decimal_within fuel (n / 10) (omega arith) in
      let split = number_of-append 0 (decimal_within fuel (n / 10)) (digit (n % 10)) in
      let end = number_of-digit (n / 10) (n % 10) (omega arith) in
      rw (decimal_within, large, split, before, end) (omega arith)
]

all_digits-decimal_within : (fuel n : ℕ) → all_digits (decimal_within fuel n) ≡ true
unfolding decimal_within all_digits
all_digits-decimal_within zero n = refl
all_digits-decimal_within (suc fuel) n = elim (Bool-cases (ltb n 10)) [
  | inl small ↦
      let below : n < 10 = ground arith in rw (decimal_within, small) (all_digits-digit n below)
  | inr large ↦
      let before = all_digits-decimal_within fuel (n / 10) in
      let end = all_digits-digit (n % 10) (omega arith) in
      rw
        (
          decimal_within,
          large,
          all_digits-append (decimal_within fuel (n / 10)) (digit (n % 10)),
          before,
          end,
        )
        refl
]

number_of-zeros : (k : ℕ) (s : String) → number_of 0 (zeros k ++ s) ≡ number_of 0 s
unfolding zeros
number_of-zeros zero s = rw (nil-append s) refl
number_of-zeros (suc k) s =
    let first = number_of-append 0 "0" (zeros k ++ s) in
    let zero_first : number_of 0 "0" ≡ 0 = number_of-digit 0 0 (omega arith) in
    let rest = number_of-zeros k s in
    rw (append_assoc "0" (zeros k) s, first, zero_first, rest) refl

all_digits-zeros : (k : ℕ) → all_digits (zeros k) ≡ true
unfolding zeros all_digits
all_digits-zeros zero = refl
all_digits-zeros (suc k) = rw (zeros, all_digits-append "0" (zeros k), all_digits-zeros k) refl

strip_prefix-append : (p s : String) → strip_prefix p (p ++ s) ≡ some s
unfolding strip_prefix
strip_prefix-append []ᶜ s = rw (nil-append s) refl
strip_prefix-append (c ∷ᶜ p) s =
    let rest = strip_prefix-append p s in rw (cons-append c p s) (ground arith)

is_numeral-nonzero :
    (s : String) (k : ℕ) → all_digits s ≡ true → number_of 0 s ≡ suc k → is_numeral s ≡ true
unfolding is_numeral number_of
is_numeral-nonzero []ᶜ k h n = absurd (omega arith)
is_numeral-nonzero (c ∷ᶜ s) k h n = h

pub sequence_of_id :
    (run_id : String) (n : ℕ)
    → sequence_of run_id (create_audit_event_id run_id (suc n)) ≡ some (suc n)
unfolding sequence_of create_audit_event_id pad_start decimal
sequence_of_id run_id n =
    let text = decimal (suc n) in
    let padding = 6 - text_length text in
    let value : number_of 0 (pad_start 6 text) ≡ suc n =
      number_of-zeros padding text ∙ number_of-decimal_within (suc (suc n)) (suc n) (omega arith) in
    let digits : all_digits (pad_start 6 text) ≡ true =
      rw
        (
          pad_start,
          all_digits-append (zeros padding) text,
          all_digits-zeros padding,
          all_digits-decimal_within (suc (suc n)) (suc n),
        )
        refl in
    let numeral = is_numeral-nonzero (pad_start 6 text) n digits value in
    rw (strip_prefix-append (id_prefix run_id) (pad_start 6 text), numeral, value) refl

-- For each run, and each number from 1 to `Number.MAX_SAFE_INTEGER`, up to which the source's numbers
-- are exact: the number that is read from the id made of it is this number.
pub sequence_of-create_audit_event_id :
    (run_id : String) (n : ℕ)
    → 0 < n
    → n ≤ max_safe_integer
    → sequence_of run_id (create_audit_event_id run_id n) ≡ some n
sequence_of-create_audit_event_id run_id zero above safe = absurd (omega arith)
sequence_of-create_audit_event_id run_id (suc n) above safe = sequence_of_id run_id n
