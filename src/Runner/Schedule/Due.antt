-- ===== src/Runner/Schedule/Due.antt =====
-- src/schedule-trigger.ts: the times at which a cron expression is due.
use ensen_flow.Common.{
  ℕ, ◌+◌, String, Bool, true, ◌&&◌, ◌||◌, ◌==◌, ◌≡◌, refl, inl, inr, ◌⊎◌, some, List, [], ◌∷◌, eqb,
  arith, Bool-cases, Option-cases, eq_iff,
}
use ensen_flow.Definition.Patterns.{
  fields_of, fit_fields, cron_field_specs, is_valid_schedule_cron_expression, number_of,
}
use ensen_flow.Runner.Schedule.{
  Calendar, parse_scheduled_for_utc, fields_match, is_due_for_schedule,
}

-- a field of a cron expression allows a number
pub FieldAllows : String → ℕ → Type 0
FieldAllows field n = (field ≡ "*") ⊎ (number_of 0 field ≡ n)

tested-FieldAllows :
    (f : String) (n : ℕ) → ((f == "*") || eqb (number_of 0 f) n) ≡ true → FieldAllows f n
unfolding FieldAllows
tested-FieldAllows f n h = elim (Bool-cases (f == "*")) [
  | inl y ↦ inl ((eq_iff f "*").0 y)
  | inr m ↦ inr (ground arith)
]

FieldAllows-tested :
    (f : String) (n : ℕ) → FieldAllows f n → ((f == "*") || eqb (number_of 0 f) n) ≡ true
unfolding FieldAllows
FieldAllows-tested f n (inl e) = let y = (eq_iff f "*").1 e in ground arith
FieldAllows-tested f n (inr e) = ground arith

-- an expression has five fields
five_fields :
    (fs : List String)
    → fit_fields fs cron_field_specs ≡ true
    → (a b c d e : String) × (fs ≡ a ∷ b ∷ c ∷ d ∷ e ∷ [])
unfolding fit_fields
five_fields (a ∷ b ∷ c ∷ d ∷ e ∷ []) h = (a, b, c, d, e, refl)
five_fields [] h = absurd (cc)
five_fields (a ∷ []) h = absurd (ground arith)
five_fields (a ∷ b ∷ []) h = absurd (ground arith)
five_fields (a ∷ b ∷ c ∷ []) h = absurd (ground arith)
five_fields (a ∷ b ∷ c ∷ d ∷ []) h = absurd (ground arith)
five_fields (a ∷ b ∷ c ∷ d ∷ e ∷ f ∷ fs) h = absurd (ground arith)

and_true : (a b : Bool) → (a && b) ≡ true → (a ≡ true) × (b ≡ true)
and_true a b h = (ground arith, ground arith)

module _ {Date : Type 0} (calendar : Calendar Date) where
  -- The expression is valid, the text is a time, and each of the five fields allows the number of it.
  pub record IsDue (cron at_time : String) : Type 0 where
    pub valid : is_valid_schedule_cron_expression cron ≡ true
    pub date : Date
    pub is_time : parse_scheduled_for_utc calendar at_time ≡ some date
    pub minute : String
    pub hour : String
    pub day : String
    pub month : String
    pub weekday : String
    pub has_fields : fields_of cron ≡ minute ∷ hour ∷ day ∷ month ∷ weekday ∷ []
    pub at_minute : FieldAllows minute (calendar.utc_minutes date)
    pub at_hour : FieldAllows hour (calendar.utc_hours date)
    pub at_day : FieldAllows day (calendar.utc_date date)
    pub at_month : FieldAllows month (calendar.utc_month date + 1)
    pub at_weekday : FieldAllows weekday (calendar.utc_day date)

  pub is_due_for_schedule-IsDue :
      (cron at_time : String)
      → is_due_for_schedule calendar cron at_time ≡ true
      → IsDue cron at_time
  unfolding is_due_for_schedule fields_match is_valid_schedule_cron_expression
  is_due_for_schedule-IsDue cron at_time h =
      elim (Bool-cases (is_valid_schedule_cron_expression cron)) [
        | inr n ↦ absurd (cc (rw n at h))
        | inl valid ↦ elim (Option-cases (parse_scheduled_for_utc calendar at_time)) [
          | inl e ↦ absurd (cc (rw (valid, e) at h))
          | inr (date, e) ↦
              let (a, b, c, d, f, five) = five_fields (fields_of cron) valid in
              let matched = rw (valid, e, five) at h in
              let (ma, r1) = and_true _ _ matched in
              let (mb, r2) = and_true _ _ r1 in
              let (mc, r3) = and_true _ _ r2 in
              let (md, r4) = and_true _ _ r3 in
              let (mf, r5) = and_true _ _ r4 in
              record {
                valid = valid;
                date = date;
                is_time = e;
                minute = a;
                hour = b;
                day = c;
                month = d;
                weekday = f;
                has_fields = five;
                at_minute = tested-FieldAllows a (calendar.utc_minutes date) ma;
                at_hour = tested-FieldAllows b (calendar.utc_hours date) mb;
                at_day = tested-FieldAllows c (calendar.utc_date date) mc;
                at_month = tested-FieldAllows d (calendar.utc_month date + 1) md;
                at_weekday = tested-FieldAllows f (calendar.utc_day date) mf;
              }
        ]
      ]

  pub IsDue-is_due_for_schedule :
      (cron at_time : String)
      → IsDue cron at_time
      → is_due_for_schedule calendar cron at_time ≡ true
  unfolding is_due_for_schedule fields_match
  IsDue-is_due_for_schedule cron at_time due =
      let ma = FieldAllows-tested due.minute (calendar.utc_minutes due.date) due.at_minute in
      let mb = FieldAllows-tested due.hour (calendar.utc_hours due.date) due.at_hour in
      let mc = FieldAllows-tested due.day (calendar.utc_date due.date) due.at_day in
      let md = FieldAllows-tested due.month (calendar.utc_month due.date + 1) due.at_month in
      let mf = FieldAllows-tested due.weekday (calendar.utc_day due.date) due.at_weekday in
      rw (due.valid, due.is_time, due.has_fields) (rw (ma, mb, mc, md, mf) refl)
