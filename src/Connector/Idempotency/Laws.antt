-- ===== src/Connector/Idempotency/Laws.antt =====
-- src/file-connector.ts: what the store promises to its callers.
use ensen_flow.Common.{
  ℕ, String, ◌≡◌, ◌≢◌, inl, inr, refl, Option, none, some, ◌==◌, eq_iff, eq_refl, Bool-cases,
  Option-cases, arith,
}
use ensen_flow.Connector.Idempotency.{
  IdempotencyRecord, Promise, running, Store, Begun, replayed, conflict, joins, starts, set_at,
  start, begin_pending, begin_existing, begin, settle, is_current, clean,
}
use ensen_flow.Connector.Idempotency.Consistent.{
  Step, begins, settles, cleans, Reach, IsConsistent, entry_of, Reach-IsConsistent,
}

abbrev pub Memory : Type 0 → Type 0
Memory Receipt = String → Option (IdempotencyRecord Receipt)

module _ {Receipt : Type 0} where
  -- What the store promises: what is known of a key stays, and only an unknown key is learnt.
  pub data Learns (m : Memory Receipt) : Memory Receipt → Type 0 where
    stays : Learns m m
    learns :
        (key : String) (r : IdempotencyRecord Receipt)
        → m key ≡ none
        → Learns m (set_at key (some r) m)

  begin-records :
      (key fingerprint : String) (s : Store Receipt)
      → (begin key fingerprint s).1.records ≡ s.records
  unfolding begin begin_existing begin_pending start
  begin-records key fingerprint s = elim (Option-cases (s.records key)) [
    | inr (r, known) ↦ elim (Bool-cases (r.fingerprint == fingerprint)) [
      | inl same ↦ rw (known, same) refl
      | inr differs ↦ rw (known, differs) refl
    ]
    | inl unknown ↦ elim (Option-cases (s.pending key)) [
      | inl idle ↦ rw (unknown, idle) refl
      | inr (e, busy) ↦ elim (Bool-cases (e.fingerprint == fingerprint)) [
        | inl same ↦ rw (unknown, busy, same) refl
        | inr differs ↦ rw (unknown, busy, differs) refl
      ]
    ]
  ]

  clean-records : (n : ℕ) (key : String) (s : Store Receipt) → (clean n key s).records ≡ s.records
  unfolding clean
  clean-records n key s = elim (Bool-cases (is_current n (s.pending key))) [
    | inl drops ↦ rw drops refl
    | inr keeps ↦ rw keeps refl
  ]

  -- Whatever calls came before, in any interleaving: each step of the store leaves its records as
  -- they are, or adds one for a key that had none.
  pub Step-Learns : {s t : Store Receipt} → Reach s → Step s t → Learns s.records t.records
  unfolding settle
  Step-Learns {s} reached (begins key fingerprint) = rw (begin-records key fingerprint s) stays
  Step-Learns {s} reached (settles n p none there runs) = stays
  Step-Learns {s} reached (settles n p (some receipt) there runs) =
      let c = Reach-IsConsistent reached in learns p.key _ (c.unrecorded n p there runs)
  Step-Learns {s} reached (cleans n p there ended) = rw (clean-records n p.key s) stays

  next-free : (s : Store Receipt) → IsConsistent s → s.promises s.next ≡ none
  next-free s c = elim (Option-cases (s.promises s.next)) [
    | inl free ↦ free
    | inr (p, taken) ↦ let below = c.numbered s.next p taken in absurd (omega arith)
  ]

  listed-idle :
      (s : Store Receipt)
      → IsConsistent s
      → (n : ℕ) (p : Promise Receipt) → s.promises n ≡ some p
      → p.state ≡ running
      → s.pending p.key ≢ none
  listed-idle s c n p made runs = let l = c.listed n p made runs in ground arith

  -- what the answer to a call says of the store
  pub data Answers (key fingerprint : String) (s : Store Receipt) : Begun Receipt → Type 0 where
    known :
        (r : IdempotencyRecord Receipt)
        → s.records key ≡ some r
        → r.fingerprint ≡ fingerprint
        → Answers key fingerprint s (replayed r)
    known_other :
        (r : IdempotencyRecord Receipt)
        → s.records key ≡ some r
        → r.fingerprint ≢ fingerprint
        → Answers key fingerprint s conflict
    busy_other :
        (n : ℕ) (p : Promise Receipt)
        → s.promises n ≡ some p
        → p.key ≡ key
        → p.fingerprint ≢ fingerprint
        → Answers key fingerprint s conflict
    busy :
        (n : ℕ) (p : Promise Receipt)
        → s.records key ≡ none
        → s.promises n ≡ some p
        → p.key ≡ key
        → p.fingerprint ≡ fingerprint
        → Answers key fingerprint s (joins n)
    first :
        s.records key ≡ none
        → ((n : ℕ) (p : Promise Receipt) → s.promises n ≡ some p → p.key ≡ key → p.state ≢ running)
        → s.promises s.next ≡ none
        → Answers key fingerprint s (starts s.next)

  -- Whatever calls came before, in any interleaving, and for each key and fingerprint: a call gets
  -- back a receipt only if it is the one of its key and fingerprint, is refused only if a record or
  -- an earlier submission of its key has another fingerprint, waits for another call only if that one
  -- has its key and fingerprint, and makes a receipt only if there is none for its key and no call
  -- that is making one.
  pub begin-Answers :
      {s : Store Receipt}
      → Reach s
      → (key fingerprint : String) → Answers key fingerprint s (begin key fingerprint s).0
  unfolding begin begin_existing begin_pending start
  begin-Answers {s} reached key fingerprint =
      let c = Reach-IsConsistent reached in
      elim (Option-cases (s.records key)) [
        | inr (r, there) ↦ elim (Bool-cases (r.fingerprint == fingerprint)) [
          | inl same ↦
              rw (there, same) (known r there (ground (arith, eq_iff r.fingerprint fingerprint)))
          | inr differs ↦
              let other = known_other r there (ground (arith, eq_iff r.fingerprint fingerprint)) in
              rw (there, differs) other
        ]
        | inl unknown ↦ elim (Option-cases (s.pending key)) [
          | inl idle ↦
              let alone =
                first unknown
                  (λ n p made of_key runs. listed-idle s c n p made runs (rw of_key idle))
                  (next-free s c) in
              rw (unknown, idle) alone
          | inr (e, there) ↦
              let (p, made, of_key, of_text) = c.entries key e there in
              elim (Bool-cases (e.fingerprint == fingerprint)) [
                | inl same ↦
                    let mine : p.fingerprint ≡ fingerprint =
                      ground (arith, eq_iff e.fingerprint fingerprint) in
                    rw (unknown, there, same) (busy e.promise p unknown made of_key mine)
                | inr differs ↦
                    let others : p.fingerprint ≢ fingerprint =
                      ground (arith, eq_iff e.fingerprint fingerprint) in
                    rw (unknown, there, differs) (busy_other e.promise p made of_key others)
              ]
        ]
      ]

  begin-after_throw :
      (s : Store Receipt) (n : ℕ) (p : Promise Receipt) (fingerprint : String)
      → s.records p.key ≡ none
      → s.pending p.key ≡ some (entry_of n p)
      → (begin p.key fingerprint (clean n p.key (settle n p none s))).0 ≡ starts s.next
  unfolding begin begin_existing begin_pending start clean is_current settle
  begin-after_throw s n p fingerprint unknown mine = ground (arith, eq_refl p.key)

  begin-after_return :
      (s : Store Receipt) (n : ℕ) (p : Promise Receipt) (receipt : Receipt)
      → (begin p.key p.fingerprint (clean n p.key (settle n p (some receipt) s))).0
        ≡ replayed (record { receipt = receipt; fingerprint = p.fingerprint })
  unfolding begin begin_existing settle
  begin-after_return s n p receipt =
      rw (clean-records n p.key (settle n p (some receipt) s), eq_refl p.key, eq_refl p.fingerprint)
        refl

  -- Whatever calls came before, in any interleaving: once a submission that ran has thrown and its
  -- call has cleaned up, the next call with its key makes a receipt, whatever its fingerprint; once
  -- it has made a receipt, the same call again gets that receipt.
  pub begin-clean :
      {s : Store Receipt}
      → Reach s
      → (n : ℕ) (p : Promise Receipt) → s.promises n ≡ some p
      → p.state ≡ running
      → ((fingerprint : String)
          → (begin p.key fingerprint (clean n p.key (settle n p none s))).0 ≡ starts s.next)
        × ((receipt : Receipt)
            → (begin p.key p.fingerprint (clean n p.key (settle n p (some receipt) s))).0
              ≡ replayed (record { receipt = receipt; fingerprint = p.fingerprint }))
  begin-clean {s} reached n p made runs =
      let c = Reach-IsConsistent reached in
      let unknown = c.unrecorded n p made runs in
      let mine = c.listed n p made runs in
      (
        λ fingerprint. begin-after_throw s n p fingerprint unknown mine,
        λ receipt. begin-after_return s n p receipt,
      )

  -- A call makes a receipt only where its key has none.
  pub begin-unknown :
      (key fingerprint : String) (s s' : Store Receipt) (n : ℕ)
      → begin key fingerprint s ≡ (starts n, s')
      → s.records key ≡ none
  unfolding begin begin_existing
  begin-unknown key fingerprint s s' n h = elim (Option-cases (s.records key)) [
    | inl unknown ↦ unknown
    | inr (r, there) ↦ elim (Bool-cases (r.fingerprint == fingerprint)) [
      | inl same ↦ absurd (ground arith)
      | inr differs ↦ absurd (ground arith)
    ]
  ]
