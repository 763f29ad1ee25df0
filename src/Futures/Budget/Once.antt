-- ===== src/Futures/Budget/Once.antt =====
-- A reservation is settled at most once: budget.go, SettleKnown and SettleUnknown.
use zhigu.Base.{
  ℕ, ◌≡◌, ◌⊎◌, refl, inl, inr, true, false, some, String, count_none, first, first-update,
  All-first, update, update-All, All, All-map, ok, err, Error, arith, Option-cases,
}
use zhigu.Futures.Budget.Ledger.{BudgetReservation, settled, unknown, Ledger, is_attempt}
use zhigu.Futures.Budget.Settle.{
  is_reserved, owned_attempt, still_reserved, settle_known, settle_unknown,
}

-- The user's reservation for the attempt is there, and no such reservation is open.
Closed : ℕ → String → Ledger → Type 0
Closed owner_id attempt_id l =
    ((r : BudgetReservation) × (first (owned_attempt attempt_id owner_id) l.reservations ≡ some r))
    × All (λ r. owned_attempt attempt_id owner_id r ≡ true → is_reserved r.state ≡ false)
        l.reservations

Closed-settle_known :
    (owner_id : ℕ) (attempt_id : String) (amount tokens : ℕ) (t : Ledger)
    → Closed owner_id attempt_id t
    → settle_known owner_id attempt_id amount tokens t ≡ err Error.revision_conflict
unfolding Closed settle_known
Closed-settle_known owner_id attempt_id amount tokens t ((r, e), shut) =
    let state =
      All-first (owned_attempt attempt_id owner_id) (λ q. is_reserved q.state ≡ false)
        t.reservations shut e in
    ground arith

Closed-settle_unknown :
    (owner_id : ℕ) (attempt_id : String) (amount tokens : ℕ) (t : Ledger)
    → Closed owner_id attempt_id t
    → settle_unknown owner_id attempt_id amount tokens t ≡ err Error.not_found
unfolding Closed settle_unknown
Closed-settle_unknown owner_id attempt_id amount tokens t ((r, e), shut) =
    let none_left =
      count_none (still_reserved attempt_id owner_id) t.reservations
        (All-map _ _ t.reservations (λ q h. ground (arith, h)) shut) in
    ground arith

settle_known-reservations :
    (owner_id : ℕ) (attempt_id : String) (amount tokens : ℕ) (l : Ledger) {t : Ledger}
    → settle_known owner_id attempt_id amount tokens l ≡ ok t
    → ((r : BudgetReservation) × (first (owned_attempt attempt_id owner_id) l.reservations
          ≡ some r))
      × (t.reservations
          ≡ update (is_attempt attempt_id) (λ q. record q { state = settled }) l.reservations)
unfolding settle_known
settle_known-reservations owner_id attempt_id amount tokens l h =
    elim (Option-cases (first (owned_attempt attempt_id owner_id) l.reservations)) [
      | inl e ↦ absurd (ground arith)
      | inr (r, e) ↦ ((r, e), ground arith)
    ]

pub settle_unknown-reservations :
    (owner_id : ℕ) (attempt_id : String) (amount tokens : ℕ) (l : Ledger) {t : Ledger}
    → settle_unknown owner_id attempt_id amount tokens l ≡ ok t
    → ((r : BudgetReservation) × (first (owned_attempt attempt_id owner_id) l.reservations
          ≡ some r))
      × (t.reservations
          ≡ update
              (still_reserved attempt_id owner_id)
              (λ q. record q { state = unknown })
              l.reservations)
unfolding settle_unknown
settle_unknown-reservations owner_id attempt_id amount tokens l h =
    elim (Option-cases (first (owned_attempt attempt_id owner_id) l.reservations)) [
      | inl e ↦ absurd (ground arith)
      | inr (r, e) ↦ ((r, e), ground arith)
    ]

settle_known-Closed :
    (owner_id : ℕ) (attempt_id : String) (amount tokens : ℕ) (l t : Ledger)
    → settle_known owner_id attempt_id amount tokens l ≡ ok t
    → Closed owner_id attempt_id t
unfolding Closed
settle_known-Closed owner_id attempt_id amount tokens l t h =
    let ((r, e), moved) = settle_known-reservations owner_id attempt_id amount tokens l h in
    rw moved (
      first-update (owned_attempt attempt_id owner_id) _ _ l.reservations (λ q. refl) e,
      update-All _ _ _ l.reservations (λ q k owned. refl) (λ q k owned. absurd (ground arith)),
    )

settle_unknown-Closed :
    (owner_id : ℕ) (attempt_id : String) (amount tokens : ℕ) (l t : Ledger)
    → settle_unknown owner_id attempt_id amount tokens l ≡ ok t
    → Closed owner_id attempt_id t
unfolding Closed
settle_unknown-Closed owner_id attempt_id amount tokens l t h =
    let ((r, e), moved) = settle_unknown-reservations owner_id attempt_id amount tokens l h in
    rw moved (
      first-update (owned_attempt attempt_id owner_id) _ _ l.reservations (λ q. refl) e,
      update-All _ _ _ l.reservations (λ q k owned. refl) (λ q k owned. ground arith),
    )

-- After a successful settlement of an attempt, as known or as unknown, every other settlement of it
-- by its owner fails: SettleKnown with ErrRevisionConflict, SettleUnknown with ErrNotFound.
pub settled_once :
    (owner_id : ℕ) (attempt_id : String) (amount tokens : ℕ) (l t : Ledger)
    → (settle_known owner_id attempt_id amount tokens l ≡ ok t)
      ⊎ (settle_unknown owner_id attempt_id amount tokens l ≡ ok t)
    → (other_amount other_tokens : ℕ)
    → (settle_known owner_id attempt_id other_amount other_tokens t ≡ err Error.revision_conflict)
      × (settle_unknown owner_id attempt_id other_amount other_tokens t ≡ err Error.not_found)
settled_once owner_id attempt_id amount tokens l t h other_amount other_tokens =
    let closed : Closed owner_id attempt_id t = elim h [
      | inl k ↦ settle_known-Closed owner_id attempt_id amount tokens l t k
      | inr k ↦ settle_unknown-Closed owner_id attempt_id amount tokens l t k
    ] in
    (
      Closed-settle_known owner_id attempt_id other_amount other_tokens t closed,
      Closed-settle_unknown owner_id attempt_id other_amount other_tokens t closed,
    )
