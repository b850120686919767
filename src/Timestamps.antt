-- ===== src/Timestamps.antt =====
-- The tests of timestamps: `isStrictUtcMillisTimestamp` of src/audit-event-writer.ts and
-- `isStrictIsoTimestamp` of src/workflow-run-state.ts.
use Prim.Native.Nat.{◌%◌}
use ensen_flow.Common.{
  ℕ, ◌+◌, ◌-◌, ◌*◌, zero, suc, String, Bool, true, false, not, ◌&&◌, ◌||◌, List, [], ◌∷◌, eqb, leb,
  ltb, if◌then◌else◌,
}
use ensen_flow.Common.Codes.{codes}

-- A pattern whose `d` (100) stands for `\d`, and every other character for itself.
unfoldable pub fits_pattern : List ℕ → List ℕ → Bool
fits_pattern [] [] = true
fits_pattern (p ∷ ps) (c ∷ cs) =
    (if eqb p 100 then leb 48 c && leb c 57 else eqb p c) && fits_pattern ps cs
fits_pattern _ _ = false

-- `Number(text.slice(from, from + length))`, of digits, after `n`
unfoldable pub number_at : ℕ → ℕ → ℕ → List ℕ → ℕ
number_at n from zero cs = n
number_at n from (suc length) [] = n
number_at n zero (suc length) (c ∷ cs) = number_at (n * 10 + (c - 48)) zero length cs
number_at n (suc from) (suc length) (c ∷ cs) = number_at n from (suc length) cs

unfoldable pub is_leap_year : ℕ → Bool
is_leap_year year = eqb (year % 4) 0 && (not (eqb (year % 100) 0) || eqb (year % 400) 0)

-- `daysInMonth[month - 1]`, of a month from 1 to 12
unfoldable pub days_in_month : ℕ → ℕ → ℕ
unfolding is_leap_year
days_in_month year month =
    if eqb month 2
    then (if is_leap_year year then 29 else 28)
    else if eqb month 4 || eqb month 6 || eqb month 9 || eqb month 11
    then 30
    else 31

unfoldable pub is_date_time : ℕ → ℕ → ℕ → ℕ → ℕ → ℕ → Bool
unfolding days_in_month
is_date_time year month day hour minute second =
    if ltb month 1 || ltb 12 month || ltb 23 hour || ltb 59 minute || ltb 59 second
    then false
    else leb 1 day && leb day (days_in_month year month)

unfoldable pub is_strict_utc_millis_timestamp : String → Bool
unfolding fits_pattern number_at is_date_time codes
is_strict_utc_millis_timestamp value =
    let cs = codes value in
    fits_pattern (codes "dddd-dd-ddTdd:dd:dd.dddZ") cs
    && is_date_time (number_at 0 0 4 cs) (number_at 0 5 2 cs) (number_at 0 8 2 cs)
        (number_at 0 11 2 cs) (number_at 0 14 2 cs) (number_at 0 17 2 cs)

unfoldable pub all_digits_then : (List ℕ → Bool) → List ℕ → Bool
all_digits_then next [] = next []
all_digits_then next (c ∷ cs) =
    let rest = all_digits_then next cs in if leb 48 c && leb c 57 then rest else next (c ∷ cs)

-- `\d+` and what follows it
unfoldable pub some_digits_then : (List ℕ → Bool) → List ℕ → Bool
unfolding all_digits_then
some_digits_then next [] = false
some_digits_then next (c ∷ cs) = leb 48 c && leb c 57 && all_digits_then next cs

-- `(?:Z|[+-]\d{2}:\d{2})$`
unfoldable pub is_zone : List ℕ → Bool
unfolding fits_pattern codes
is_zone cs =
    fits_pattern (codes "Z") cs
    || fits_pattern (codes "+dd:dd") cs
    || fits_pattern (codes "-dd:dd") cs

-- `(?:\.\d+)?` in front of it; 46 is the dot
unfoldable pub is_fraction_and_zone : List ℕ → Bool
unfolding some_digits_then is_zone
is_fraction_and_zone [] = false
is_fraction_and_zone (c ∷ cs) = if eqb c 46 then some_digits_then is_zone cs else is_zone (c ∷ cs)

-- the first characters, by a pattern, and what follows them
unfoldable pub fits_start : List ℕ → (List ℕ → Bool) → List ℕ → Bool
fits_start [] next cs = next cs
fits_start (p ∷ ps) next [] = false
fits_start (p ∷ ps) next (c ∷ cs) =
    (if eqb p 100 then leb 48 c && leb c 57 else eqb p c) && fits_start ps next cs

-- the year that `Date.UTC` takes a number for
unfoldable pub utc_year : ℕ → ℕ
utc_year year = if leb year 99 then 1900 + year else year

-- `isStrictIsoTimestamp`; `parses` says of a text that `Date.parse` makes a number of it.
unfoldable pub is_strict_iso_timestamp : (String → Bool) → String → Bool
unfolding fits_start is_fraction_and_zone number_at days_in_month utc_year codes
is_strict_iso_timestamp parses value =
    let cs = codes value in
    let year = number_at 0 0 4 cs in
    let month = number_at 0 5 2 cs in
    let day = number_at 0 8 2 cs in
    if not (fits_start (codes "dddd-dd-ddTdd:dd:dd") is_fraction_and_zone cs && parses value)
    then false
    else if ltb month 1
        || ltb 12 month
        || ltb 23 (number_at 0 11 2 cs)
        || ltb 59 (number_at 0 14 2 cs)
        || ltb 59 (number_at 0 17 2 cs)
    then false
    else leb 1 day && leb day (days_in_month (utc_year year) month)
