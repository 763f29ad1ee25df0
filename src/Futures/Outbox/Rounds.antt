-- ===== src/Futures/Outbox/Rounds.antt =====
-- What holds at every round of ProcessOutbox holds when it returns.
use zhigu.Base.{
  ℕ, zero, suc, ◌+◌, ◌≡◌, subst, inl, inr, Bool, true, Option, none, some, String, Elem, leb,
  Result-cases, ok, Error, Bool-cases, Option-cases,
}
use zhigu.Futures.Store.{OutboxValue, Store}
use zhigu.Futures.Outbox.{
  is_due, next_due, deliver, record_outbox_failure, Outcome, after_failure, round, process_loop,
}
use zhigu.Futures.Outbox.Progress.{next_due_found}

the_same : {A : Type 0} {a b : A} → some a ≡ some b → a ≡ b
the_same h = cc

module _ (locked : String → Bool) (now : ℕ) where
  module _ (id_before : String → String → Bool) (limit : ℕ) where
    -- A property of stores and of the count of deliveries that both kinds of round keep is kept by the loop.
    module _ (P : ℕ → Store → Type 0)
        (delivers : (p : ℕ) (row : OutboxValue) (s t : Store)
          → Elem row s.outbox
          → is_due locked now row ≡ true
          → deliver row s ≡ ok t
          → P p s
          → P (p + 1) t)
        (fails : (p : ℕ) (row : OutboxValue) (s t : Store)
          → Elem row s.outbox
          → is_due locked now row ≡ true
          → record_outbox_failure row.id now s ≡ ok t
          → P p s
          → P p t) where
      abbrev Keeps : Option Outcome → Type 0
      Keeps r = (o : Outcome) → r ≡ some o → P o.processed o.store

      ends_here :
          (p : ℕ) (s : Store) (e : Option Error)
          → P p s
          → Keeps (some (record { processed = p; error = e; store = s }))
      ends_here p s e k o h = subst (λ (o : Outcome). P o.processed o.store) (the_same h) k

      round-Keeps :
          (continue : ℕ → Store → Option Outcome)
          → ((p : ℕ) (t : Store) → P p t → Keeps (continue p t))
          → (p : ℕ) (s : Store) (row : OutboxValue)
          → Elem row s.outbox × (is_due locked now row ≡ true)
          → P p s
          → Keeps (round continue (some row) now p s)
      round-Keeps continue more p s row (m, due) k = elim (Result-cases (deliver row s)) [
        | inl (t, h) ↦ rw (h, round) (more (p + 1) t (delivers p row s t m due h k))
        | inr (x, h) ↦ elim (Result-cases (record_outbox_failure row.id now s)) [
          | inl (t, f) ↦ rw (h, f, round, after_failure) (more p t (fails p row s t m due f k))
          | inr (y, f) ↦ rw (h, f, round, after_failure) (ends_here p s (some y) k)
        ]
      ]

      pub process_loop-Keeps :
          (fuel p : ℕ) (s : Store)
          → P p s
          → Keeps (process_loop fuel id_before locked now limit p s)
      unfolding process_loop
      process_loop-Keeps zero p s k = λ o h. cc
      process_loop-Keeps (suc fuel) p s k = elim (Bool-cases (leb limit p)) [
        | inl e ↦ rw (e, process_loop) (ends_here p s none k)
        | inr e ↦ elim (Option-cases (next_due id_before (is_due locked now) s.outbox)) [
          | inl n ↦ rw (e, n, process_loop, round) (ends_here p s none k)
          | inr (row, n) ↦
              rw (e, n, process_loop)
                (round-Keeps (λ q t. process_loop fuel id_before locked now limit q t)
                  (λ q t. process_loop-Keeps fuel q t) p s row
                  (next_due_found locked now id_before limit s n) k)
        ]
      ]
