-- ===== src/Definition/Patterns.antt =====
-- src/workflow-definition.ts: the stable-ID pattern, and the schedule's cron expression.
use Prim.Native.Char.{code}
use Prim.Native.String.{[], ◌∷◌}
use ensen_flow.Common.{
  ℕ, ◌+◌, ◌-◌, ◌*◌, String, Bool, true, false, ◌&&◌, ◌||◌, List, [], ◌∷◌, leb, eqb, if◌then◌else◌,
  is_white_space, ◌==◌,
}

abbrev is_lower : ℕ → Bool
is_lower c = leb 97 c && leb c 122

abbrev is_digit : ℕ → Bool
is_digit c = leb 48 c && leb c 57

-- `[a-z0-9]`
abbrev is_word : ℕ → Bool
is_word c = is_lower c || is_digit c

unfoldable mutual
  -- what may follow a letter or a digit: `[a-z0-9]*(?:-[a-z0-9]+)*$`
  pub matches_rest : String → Bool
  matches_rest [] = true
  matches_rest (c ∷ s) =
      if eqb (code c) 45 then matches_word s else is_word (code c) && matches_rest s

  -- what may follow a dash: `[a-z0-9]+(?:-[a-z0-9]+)*$`
  pub matches_word : String → Bool
  matches_word [] = false
  matches_word (c ∷ s) = is_word (code c) && matches_rest s

-- `STABLE_ID_PATTERN.test(s)`
unfoldable pub is_stable_id : String → Bool
is_stable_id [] = false
is_stable_id (c ∷ s) = is_lower (code c) && matches_rest s

-- The empty field, which only an empty text has, is left out: there is no fifth field then either.
abbrev flush : String → List String → List String
flush [] others = others
flush (c ∷ s) others = (c ∷ s) ∷ others

-- `s.trim().split(/\s+/)`: the text in front of the first white space, and the fields after it
split : String → String × List String
split [] = ([], [])
split (c ∷ s) =
    let (front, others) = split s in
    if is_white_space (code c) then ([], flush front others) else (c ∷ front, others)

unfoldable pub fields_of : String → List String
unfolding split
fields_of s = let (front, others) = split s in flush front others

-- `/^\d+$/.test(field)`
unfoldable pub all_digits : String → Bool
all_digits [] = true
all_digits (c ∷ s) = is_digit (code c) && all_digits s

unfoldable pub is_numeral : String → Bool
unfolding all_digits
is_numeral [] = false
is_numeral (c ∷ s) = all_digits (c ∷ s)

-- `Number(field)`, of digits
unfoldable pub number_of : ℕ → String → ℕ
number_of n [] = n
number_of n (c ∷ s) = number_of (n * 10 + (code c - 48)) s

pub record FieldSpec : Type 0 where
  pub min : ℕ
  pub max : ℕ

abbrev pub cron_field_specs : List FieldSpec
cron_field_specs =
    record { min = 0; max = 59 }
    ∷ record { min = 0; max = 23 }
    ∷ record { min = 1; max = 31 }
    ∷ record { min = 1; max = 12 }
    ∷ record { min = 0; max = 6 }
    ∷ []

unfoldable pub fits_field : String → FieldSpec → Bool
unfolding is_numeral number_of
fits_field field spec =
    (field == "*")
    || is_numeral field && leb spec.min (number_of 0 field) && leb (number_of 0 field) spec.max

-- `fields.every(...)`, `false` if the numbers of fields and specs differ
unfoldable pub fit_fields : List String → List FieldSpec → Bool
fit_fields [] [] = true
fit_fields (f ∷ fs) (spec ∷ specs) = fits_field f spec && fit_fields fs specs
fit_fields _ _ = false

unfoldable pub is_valid_schedule_cron_expression : String → Bool
unfolding fields_of fit_fields
is_valid_schedule_cron_expression value = fit_fields (fields_of value) cron_field_specs
