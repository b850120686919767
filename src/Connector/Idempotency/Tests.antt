-- ===== src/Connector/Idempotency/Tests.antt =====
-- The store at concrete calls.
use ensen_flow.Common.{ℕ, String, ◌≡◌, refl, none, some}
use ensen_flow.Connector.Idempotency.{
  Promise, running, Store, replayed, starts, empty, begin, begin_existing, begin_pending, start,
  settle, clean,
}
use ensen_flow.Connector.Idempotency.Consistent.{begins, settles, Reach, created, later}
use ensen_flow.Connector.Idempotency.Laws.{Learns, Step-Learns, Answers, begin-Answers, begin-clean}

-- the store once a call has begun
abbrev one_call : Store ℕ
one_call = (begin "order-1" "write" empty).1

abbrev first_promise : Promise ℕ
first_promise = record { key = "order-1"; fingerprint = "write"; state = running }

one_call-Reach : Reach one_call
one_call-Reach = later created (begins "order-1" "write")

first_made : one_call.promises 0 ≡ some first_promise
unfolding begin begin_existing begin_pending start empty
first_made = refl

Step-Learns_example : Learns one_call.records (settle 0 first_promise (some 7) one_call).records
Step-Learns_example = Step-Learns one_call-Reach (settles 0 first_promise (some 7) first_made refl)

begin-Answers_example : Answers "order-1" "append" one_call (begin "order-1" "append" one_call).0
begin-Answers_example = begin-Answers one_call-Reach "order-1" "append"

begin-clean_example :
    ((fingerprint : String)
      → (begin "order-1" fingerprint (clean 0 "order-1" (settle 0 first_promise none one_call))).0
        ≡ starts 1)
    × ((receipt : ℕ)
        → (begin "order-1" "write"
            (clean 0 "order-1" (settle 0 first_promise (some receipt) one_call))).0
          ≡ replayed (record { receipt = receipt; fingerprint = "write" }))
unfolding begin begin_existing begin_pending start empty
begin-clean_example = begin-clean one_call-Reach 0 first_promise first_made refl
