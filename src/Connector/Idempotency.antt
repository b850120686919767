-- ===== src/Connector/Idempotency.antt =====
-- src/file-connector.ts: `createInMemoryLocalFileIdempotencyStore`; src/http-notification-connector.ts
-- has the same store in its `submit`. A call runs up to its first `await`, and again when what it
-- waits for is there: `begin` is the first part, `settle` the end of the promise that makes the
-- receipt, and `clean` the `finally` of the call that made the promise. A map is a function from its
-- keys; a promise is its number, and `promises` says what was made of it.
pub mod Consistent
pub mod Laws
mod Tests
use ensen_flow.Common.{
  ℕ, ◌+◌, String, Bool, true, false, Option, none, some, ◌==◌, eqb, if◌then◌else◌,
}

pub record IdempotencyRecord (Receipt : Type 0) : Type 0 where
  pub receipt : Receipt
  pub fingerprint : String

-- an entry of `pending`
pub record Pending : Type 0 where
  pub fingerprint : String
  pub promise : ℕ

pub data PromiseState (Receipt : Type 0) : Type 0 where
  running rejected : PromiseState Receipt
  fulfilled : IdempotencyRecord Receipt → PromiseState Receipt

-- a promise, with the variables that its function has in scope
pub record Promise (Receipt : Type 0) : Type 0 where
  pub key : String
  pub fingerprint : String
  pub state : PromiseState Receipt

pub record Store (Receipt : Type 0) : Type 0 where
  pub records : String → Option (IdempotencyRecord Receipt)
  pub pending : String → Option Pending
  pub promises : ℕ → Option (Promise Receipt)
  pub next : ℕ

-- what a call does after its first part
pub data Begun (Receipt : Type 0) : Type 0 where
  replayed : IdempotencyRecord Receipt → Begun Receipt
  conflict : Begun Receipt
  -- awaits the promise of an earlier call
  joins : (promise : ℕ) → Begun Receipt
  -- makes a promise and awaits it
  starts : (promise : ℕ) → Begun Receipt

-- `map.set(key, value)` and `map.delete(key)`
abbrev pub set_at : {V : Type 0} → String → Option V → (String → Option V) → String → Option V
set_at key v f k = if k == key then v else f k

abbrev pub set_promise : {V : Type 0} → ℕ → V → (ℕ → Option V) → ℕ → Option V
set_promise p v f q = if eqb q p then some v else f q

unfoldable pub empty : {Receipt : Type 0} → Store Receipt
empty = record { records = λ k. none; pending = λ k. none; promises = λ p. none; next = 0 }

-- `current?.promise === promise`
unfoldable pub is_current : ℕ → Option Pending → Bool
is_current n none = false
is_current n (some p) = eqb p.promise n

module _ {Receipt : Type 0} where
  unfoldable pub start : String → String → Store Receipt → Begun Receipt × Store Receipt
  start key fingerprint s = (
    starts s.next,
    record {
      records = s.records;
      pending =
          set_at key (some (record { fingerprint = fingerprint; promise = s.next })) s.pending;
      promises =
          set_promise s.next (record { key = key; fingerprint = fingerprint; state = running })
            s.promises;
      next = s.next + 1;
    },
  )

  -- the tests of `pending`, where there is no record
  unfoldable pub begin_pending :
      String → String → Option Pending → Store Receipt → Begun Receipt × Store Receipt
  unfolding start
  begin_pending key fingerprint none s = start key fingerprint s
  begin_pending key fingerprint (some p) s =
      if p.fingerprint == fingerprint then (joins p.promise, s) else (conflict, s)

  -- the tests of `records`
  unfoldable pub begin_existing :
      String
      → String
      → Option (IdempotencyRecord Receipt)
      → Store Receipt
      → Begun Receipt × Store Receipt
  unfolding begin_pending
  begin_existing key fingerprint none s = begin_pending key fingerprint (s.pending key) s
  begin_existing key fingerprint (some r) s =
      if r.fingerprint == fingerprint then (replayed r, s) else (conflict, s)

  unfoldable pub begin : String → String → Store Receipt → Begun Receipt × Store Receipt
  unfolding begin_existing
  begin key fingerprint s = begin_existing key fingerprint (s.records key) s

  abbrev pub settled : Promise Receipt → PromiseState Receipt → Promise Receipt
  settled p st = record { key = p.key; fingerprint = p.fingerprint; state = st }

  -- the promise `p` of the number `n` ends, with a receipt or by a throw
  unfoldable pub settle : ℕ → Promise Receipt → Option Receipt → Store Receipt → Store Receipt
  settle n p none s = record s { promises = set_promise n (settled p rejected) s.promises }
  settle n p (some receipt) s =
      let r : IdempotencyRecord Receipt = record {
        receipt = receipt;
        fingerprint = p.fingerprint;
      } in
      record s {
        records = set_at p.key (some r) s.records;
        promises = set_promise n (settled p (fulfilled r)) s.promises;
      }

  unfoldable pub clean : ℕ → String → Store Receipt → Store Receipt
  unfolding is_current
  clean n key s =
      if is_current n (s.pending key) then record s { pending = set_at key none s.pending } else s
