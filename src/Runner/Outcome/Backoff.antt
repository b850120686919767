-- ===== src/Runner/Outcome/Backoff.antt =====
-- src/workflow-runner.ts: the waits of `calculateNextAttemptAt` from attempt to attempt.
use Prim.Native.Nat.pow
use ensen_flow.Common.{
  ℕ, zero, suc, ◌+◌, ◌-◌, ◌*◌, ◌^◌, ◌≤◌, min, String, Bool, ◌&&◌, ◌≡◌, inl, inr, Option, none, some,
  arith, Bool-cases, eqb, leb, ok,
}
use ensen_flow.Definition.{RetryPolicy, exponential}
use ensen_flow.Runner.Outcome.{time_text, calculate_next_attempt_at}

pow_step : (n : ℕ) → 2 ^ (n - 1) ≤ 2 ^ (n + 1 - 1)
pow_step n = let here : n + 1 - 1 ≡ n = omega arith in rw here (below n)
  where
    below : (n : ℕ) → 2 ^ (n - 1) ≤ 2 ^ n
    below zero = omega arith
    below (suc n) =
        let before : suc n - 1 ≡ n = omega arith in rw before (rw (pow.suc 2 n) (omega arith))

mul_mono : (i a b : ℕ) → a ≤ b → i * a ≤ i * b
mul_mono i a b h = grind (arith, h)

time_text-some : (o : Option String) (t : String) → time_text o ≡ ok (some t) → o ≡ some t
time_text-some none t h = absurd (cc)
time_text-some (some x) t h = cc

module _ (is_date : String → Bool) (date_after : String → ℕ → Option String) where
  -- where a time is returned, it is the one after the wait
  exponential_wait :
      (failed_at : String) (retry : RetryPolicy) (initial max attempt : ℕ) (time : String)
      → retry.backoff ≡ exponential initial max
      → calculate_next_attempt_at is_date date_after failed_at retry attempt ≡ ok (some time)
      → date_after failed_at (min (initial * 2 ^ (attempt - 1)) max) ≡ some time
  unfolding calculate_next_attempt_at
  exponential_wait failed_at retry initial max attempt time e h =
      elim (Bool-cases (is_date failed_at)) [
        | inr n ↦ absurd (cc (rw n at h))
        | inl y ↦ elim (Bool-cases (eqb initial 0 && leb 1024 (attempt - 1))) [
          | inl z ↦ absurd (cc (rw (y, e, z) at h))
          | inr z ↦ time_text-some _ time (rw (y, e, z) at h)
        ]
      ]

  -- Where calculateNextAttemptAt gives times under exponential backoff after two attempts in a row,
  -- they are those after waits that do not get shorter and are at most the maximal delay.
  pub calculate_next_attempt_at-exponential :
      (failed_at : String) (retry : RetryPolicy) (initial max attempt : ℕ) (early late : String)
      → retry.backoff ≡ exponential initial max
      → calculate_next_attempt_at is_date date_after failed_at retry attempt ≡ ok (some early)
      → calculate_next_attempt_at is_date date_after failed_at retry (attempt + 1) ≡ ok (some late)
      → (first second : ℕ) × (date_after failed_at first ≡ some early)
        × (date_after failed_at second ≡ some late)
        × (first ≤ second)
        × (second ≤ max)
  calculate_next_attempt_at-exponential failed_at retry initial max attempt early late e h k =
      let grows = mul_mono initial (2 ^ (attempt - 1)) (2 ^ (attempt + 1 - 1)) (pow_step attempt) in
      (
        min (initial * 2 ^ (attempt - 1)) max,
        min (initial * 2 ^ (attempt + 1 - 1)) max,
        exponential_wait failed_at retry initial max attempt early e h,
        exponential_wait failed_at retry initial max (attempt + 1) late e k,
        omega (arith, grows),
        omega arith,
      )
