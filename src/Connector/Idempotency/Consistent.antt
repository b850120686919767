-- ===== src/Connector/Idempotency/Consistent.antt =====
-- src/file-connector.ts: the store of receipts after any interleaving of calls.
use ensen_flow.Common.{
  ℕ, ◌<◌, String, ◌≡◌, ◌≢◌, inl, inr, refl, Option, none, some, ◌==◌, eq_iff, eqb, Bool-cases,
  Option-cases, arith, ◌∙◌, ap,
}
use ensen_flow.Connector.Idempotency.{
  IdempotencyRecord, Pending, PromiseState, running, rejected, fulfilled, Promise, Store,
  set_promise, empty, start, begin_pending, begin_existing, begin, settled, settle, is_current,
  clean,
}

module _ {Receipt : Type 0} where
  -- One step of the program: the first part of a call, the end of a promise that runs, or the
  -- `finally` of the call that made one.
  pub data Step (s : Store Receipt) : Store Receipt → Type 0 where
    begins : (key fingerprint : String) → Step s (begin key fingerprint s).1
    settles :
        (n : ℕ) (p : Promise Receipt) (made : Option Receipt)
        → s.promises n ≡ some p
        → p.state ≡ running
        → Step s (settle n p made s)
    cleans :
        (n : ℕ) (p : Promise Receipt)
        → s.promises n ≡ some p
        → p.state ≢ running
        → Step s (clean n p.key s)

  pub data Reach : Store Receipt → Type 0 where
    created : Reach empty
    later : {s t : Store Receipt} → Reach s → Step s t → Reach t

  -- what `pending` holds for a promise
  abbrev pub entry_of : ℕ → Promise Receipt → Pending
  entry_of n p = record { fingerprint = p.fingerprint; promise = n }

  -- the promise that a call makes
  abbrev fresh : String → String → Promise Receipt
  fresh key fingerprint = record { key = key; fingerprint = fingerprint; state = running }

  abbrev pub IsEntry : (ℕ → Option (Promise Receipt)) → String → Pending → Type 0
  IsEntry promises k e =
      (p : Promise Receipt) × (promises e.promise ≡ some p)
      × (p.key ≡ k)
      × (p.fingerprint ≡ e.fingerprint)

  pub record IsConsistent (s : Store Receipt) : Type 0 where
    pub numbered : (n : ℕ) (p : Promise Receipt) → s.promises n ≡ some p → n < s.next
    -- a promise that runs is the one of its key, which has no record
    pub listed :
        (n : ℕ) (p : Promise Receipt)
        → s.promises n ≡ some p
        → p.state ≡ running
        → s.pending p.key ≡ some (entry_of n p)
    pub unrecorded :
        (n : ℕ) (p : Promise Receipt)
        → s.promises n ≡ some p
        → p.state ≡ running
        → s.records p.key ≡ none
    -- a receipt that was made is the one of its key
    pub recorded :
        (n : ℕ) (p : Promise Receipt) (r : IdempotencyRecord Receipt)
        → s.promises n ≡ some p
        → p.state ≡ fulfilled r
        → (s.records p.key ≡ some r) × (r.fingerprint ≡ p.fingerprint)
    -- what `pending` holds is a promise of its key
    pub entries : (k : String) (e : Pending) → s.pending k ≡ some e → IsEntry s.promises k e

  empty-IsConsistent : IsConsistent empty
  unfolding empty
  empty-IsConsistent = record {
    numbered = λ n p h. cc;
    listed = λ n p h r. cc;
    unrecorded = λ n p h r. cc;
    recorded = λ n p r h f. cc;
    entries = λ k e h. cc;
  }

  start-entries :
      (key fingerprint : String) (s : Store Receipt) (k : String) (e : Pending)
      → IsConsistent s
      → (start key fingerprint s).1.pending k ≡ some e
      → IsEntry (start key fingerprint s).1.promises k e
  unfolding start
  start-entries key fingerprint s k e c h = elim (Bool-cases (k == key)) [
    | inl same ↦
        let now : some (entry_of s.next (fresh key fingerprint)) ≡ some e = ground arith in
        (fresh key fingerprint, ground arith, ground (arith, eq_iff k key), ground arith)
    | inr other ↦
        let before : s.pending k ≡ some e = ground arith in
        let (p, there, of_key, of_text) = c.entries k e before in
        let known = c.numbered e.promise p there in (p, ground arith, of_key, of_text)
  ]

  start-IsConsistent :
      (key fingerprint : String) (s : Store Receipt)
      → s.records key ≡ none
      → s.pending key ≡ none
      → IsConsistent s
      → IsConsistent (start key fingerprint s).1
  unfolding start
  start-IsConsistent key fingerprint s unknown idle c = record {
    numbered = λ n p h. let old = c.numbered n p in ground arith;
    listed = λ n p h r. let old = c.listed n p in ground (arith, eq_iff p.key key);
    unrecorded = λ n p h r. let old = c.unrecorded n p in ground (arith, eq_iff p.key key);
    recorded = λ n p r h f. let old = c.recorded n p r in ground (arith, eq_iff p.key key);
    entries = λ k e h. start-entries key fingerprint s k e c h;
  }

  -- A promise that ends is still the one that its entry names.
  set_promise-IsEntry :
      (n : ℕ) (p : Promise Receipt) (st : PromiseState Receipt) (s : Store Receipt)
      → s.promises n ≡ some p
      → (k : String) (e : Pending) → IsEntry s.promises k e
      → IsEntry (set_promise n (settled p st) s.promises) k e
  set_promise-IsEntry n p st s there k e (q, known, of_key, of_text) =
      elim (Bool-cases (eqb e.promise n)) [
        | inl same ↦
            let one : p ≡ q = ground arith in
            (
              settled p st,
              ground arith,
              ap (λ x. x.key) one ∙ of_key,
              ap (λ x. x.fingerprint) one ∙ of_text,
            )
        | inr other ↦ (q, ground arith, of_key, of_text)
      ]

  settle-IsConsistent :
      (n : ℕ) (p : Promise Receipt) (made : Option Receipt) (s : Store Receipt)
      → s.promises n ≡ some p
      → p.state ≡ running
      → IsConsistent s
      → IsConsistent (settle n p made s)
  unfolding settle
  settle-IsConsistent n p none s there runs c = record {
    numbered = λ m q h. let old = c.numbered m q in let own = c.numbered n p there in ground arith;
    listed = λ m q h r. let old = c.listed m q in ground arith;
    unrecorded = λ m q h r. let old = c.unrecorded m q in ground arith;
    recorded = λ m q r h f. let old = c.recorded m q r in ground arith;
    entries = λ k e h. set_promise-IsEntry n p rejected s there k e (c.entries k e h);
  }
  settle-IsConsistent n p (some receipt) s there runs c = record {
    numbered = λ m q h. let old = c.numbered m q in let own = c.numbered n p there in ground arith;
    listed = λ m q h r. let old = c.listed m q in ground arith;
    unrecorded = λ m q h r.
        let old = c.unrecorded m q in
        let other = c.listed m q in
        let own = c.listed n p there runs in ground (arith, eq_iff q.key p.key);
    recorded = λ m q r h f.
        let old = c.recorded m q r in
        let own = c.unrecorded n p there runs in ground (arith, eq_iff q.key p.key);
    entries = λ k e h. set_promise-IsEntry n p (fulfilled _) s there k e (c.entries k e h);
  }

  clean-promises :
      (n : ℕ) (key : String) (s : Store Receipt) → (clean n key s).promises ≡ s.promises
  unfolding clean
  clean-promises n key s = elim (Bool-cases (is_current n (s.pending key))) [
    | inl drops ↦ rw drops refl
    | inr keeps ↦ rw keeps refl
  ]

  clean-pending :
      (n : ℕ) (key : String) (s : Store Receipt) (k : String) (e : Pending)
      → (clean n key s).pending k ≡ some e
      → s.pending k ≡ some e
  unfolding clean
  clean-pending n key s k e h = ground arith

  clean-entries :
      (n : ℕ) (key : String) (s : Store Receipt) (k : String) (e : Pending)
      → ((k : String) (e : Pending) → s.pending k ≡ some e → IsEntry s.promises k e)
      → (clean n key s).pending k ≡ some e
      → IsEntry (clean n key s).promises k e
  unfolding clean is_current
  clean-entries n key s k e before h =
      let was : s.pending k ≡ some e = clean-pending n key s k e h in
      rw (clean-promises n key s) (before k e was)

  clean-IsConsistent :
      (n : ℕ) (p : Promise Receipt) (s : Store Receipt)
      → s.promises n ≡ some p
      → p.state ≢ running
      → IsConsistent s
      → IsConsistent (clean n p.key s)
  unfolding clean is_current
  clean-IsConsistent n p s there ended c = record {
    numbered = λ m q h. let old = c.numbered m q in ground arith;
    listed = λ m q h r. let old = c.listed m q in ground (arith, eq_iff q.key p.key);
    unrecorded = λ m q h r. let old = c.unrecorded m q in ground arith;
    recorded = λ m q r h f. let old = c.recorded m q r in ground arith;
    entries = λ k e h. clean-entries n p.key s k e c.entries h;
  }

  Step-IsConsistent : {s t : Store Receipt} → IsConsistent s → Step s t → IsConsistent t
  unfolding begin begin_existing begin_pending
  Step-IsConsistent {s} c (begins key fingerprint) = elim (Option-cases (s.records key)) [
    | inr (r, known) ↦ elim (Bool-cases (r.fingerprint == fingerprint)) [
      | inl same ↦ rw (known, same) c
      | inr differs ↦ rw (known, differs) c
    ]
    | inl unknown ↦ elim (Option-cases (s.pending key)) [
      | inl idle ↦
          let began = start-IsConsistent key fingerprint s unknown idle c in
          rw (unknown, idle) began
      | inr (e, busy) ↦ elim (Bool-cases (e.fingerprint == fingerprint)) [
        | inl same ↦ rw (unknown, busy, same) c
        | inr differs ↦ rw (unknown, busy, differs) c
      ]
    ]
  ]
  Step-IsConsistent {s} c (settles n p made there runs) =
      settle-IsConsistent n p made s there runs c
  Step-IsConsistent {s} c (cleans n p there ended) = clean-IsConsistent n p s there ended c

  pub Reach-IsConsistent : {s : Store Receipt} → Reach s → IsConsistent s
  Reach-IsConsistent created = empty-IsConsistent
  Reach-IsConsistent (later before step) = Step-IsConsistent (Reach-IsConsistent before) step
