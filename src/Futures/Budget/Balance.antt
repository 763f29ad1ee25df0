-- ===== src/Futures/Budget/Balance.antt =====
-- The books balance: what an account has reserved is what its reservations hold.
use native.Mathlib.Nat.{le_trans}
use zhigu.Base.{
  ℕ, ◌≤◌, ◌<◌, ◌≡◌, refl, inl, inr, Bool, true, some, List, [], ◌∷◌, String, count, count-update-le,
  count_mono, first, first-test, eq_iff, first-Elem, first-count, hit, update, All, All-map,
  All-update, ◌∙◌, All-twice, ok, arith, Bool-cases,
}
use zhigu.Futures.Budget.Ledger.{
  AccountScope, user, module_wide, Reservation, BudgetAccount, BudgetReservation, unknown, Ledger,
  is_account, is_attempt, charged, new_reservation, insert_reservation, reserve,
}
use zhigu.Futures.Budget.Settle.{
  is_reserved, owned_attempt, still_reserved, find_attempt, settle_known, settle_unknown,
  settled_account,
}
use zhigu.Futures.Budget.Limits.{Keyed, reserve-accounts, reserve-eq-ok, settle_account-eq-ok}
use zhigu.Futures.Budget.Booked.{Booked, charges-Booked, settles-Booked}
use zhigu.Futures.Budget.Settlement.{
  settle_known-eq-ok, insert_usage-accounts, settle_unknown-accounts,
}
use zhigu.Futures.Budget.Once.{settle_unknown-reservations}
use zhigu.Futures.Budget.Held.{held-settle, held-unknown}

-- The keys are unique, every reservation has its two accounts, and every account is booked.
pub record Balanced (l : Ledger) : Type 0 where
  pub keyed : Keyed l
  pub attempts : (attempt_id : String) → count (is_attempt attempt_id) l.reservations ≤ 1
  pub backed :
      All
        (λ r.
          (0 < count (is_account user r.owner_id r.budget_day) l.accounts)
          × (0 < count (is_account module_wide 0 r.budget_day) l.accounts))
        l.reservations
  pub books : All (Booked l.reservations) l.accounts

-- Updates that leave the keys of the accounts as they are.
same_keys :
    (test again : BudgetAccount → Bool) (f g : BudgetAccount → BudgetAccount)
    (rows : List BudgetAccount)
    → ((scope : AccountScope) (owner_id day : ℕ) (a : BudgetAccount)
        → (is_account scope owner_id day (f a) ≡ is_account scope owner_id day a)
          × (is_account scope owner_id day (g a) ≡ is_account scope owner_id day a))
    → (scope : AccountScope) (owner_id day : ℕ)
    → count (is_account scope owner_id day) (update again g (update test f rows))
      ≡ count (is_account scope owner_id day) rows
unfolding count update
same_keys test again f g [] same scope owner_id day = refl
same_keys test again f g (a ∷ rows) same scope owner_id day = ground (
  arith,
  same_keys test again f g rows same scope owner_id day,
  (same scope owner_id day a).0,
  (same scope owner_id day (hit test f a)).1,
)

inserted :
    (request : Reservation) (l : Ledger) {t : Ledger}
    → insert_reservation request l ≡ ok t
    → (count (is_attempt request.attempt_id) l.reservations ≡ 0)
      × (t.accounts ≡ l.accounts)
      × (t.reservations ≡ new_reservation request ∷ l.reservations)
inserted request l h = ground arith

new_attempt :
    (request : Reservation) (rs : List BudgetReservation) (attempt_id : String)
    → count (is_attempt request.attempt_id) rs ≡ 0
    → count (is_attempt attempt_id) rs ≤ 1
    → count (is_attempt attempt_id) (new_reservation request ∷ rs) ≤ 1
unfolding count
new_attempt request rs attempt_id fresh one =
    elim (Bool-cases (is_attempt attempt_id (new_reservation request))) [
      | inl e ↦ ground (
        arith,
        count_mono (is_attempt attempt_id) (is_attempt request.attempt_id) rs (λ q k. ground (
          arith,
          eq_iff request.attempt_id attempt_id,
          eq_iff q.attempt_id attempt_id,
          eq_iff q.attempt_id request.attempt_id,
        )),
      )
      | inr e ↦ ground arith
    ]

abbrev charged_twice : Reservation → List BudgetAccount → List BudgetAccount
charged_twice request rows =
    update (is_account module_wide 0 request.budget_day) (charged request)
      (update (is_account user request.owner_id request.budget_day) (charged request) rows)

charged-keys :
    (request : Reservation) (rows : List BudgetAccount) (scope : AccountScope) (owner_id day : ℕ)
    → count (is_account scope owner_id day) (charged_twice request rows)
      ≡ count (is_account scope owner_id day) rows
charged-keys request rows scope owner_id day =
    same_keys _ _ (charged request) (charged request) rows (λ s o d a. (refl, refl)) scope owner_id
      day

pub reserve-Balanced :
    (request : Reservation) (l t : Ledger) {r : BudgetReservation}
    → reserve request l ≡ ok (r, t)
    → Balanced l
    → Balanced t
reserve-Balanced request l t h b =
    let (u, hu, m, hm) = reserve-accounts request l t h in
    let (_, _, added, _) = reserve-eq-ok request l t u m hu hm h in
    let (fresh, rows, more) = inserted request _ added in
    let keys = charged-keys request l.accounts in
    record {
      keyed = λ scope owner_id day. rw (rows, keys scope owner_id day) (b.keyed scope owner_id day);
      attempts = λ i. rw more (new_attempt request l.reservations i fresh (b.attempts i));
      backed =
          rw (rows, more)
            (
              (
                rw (keys user request.owner_id request.budget_day) (first-count _ l.accounts hu),
                rw (keys module_wide 0 request.budget_day) (first-count _ l.accounts hm),
              ),
              All-map _ _ l.reservations
                  (λ r there. (
                    rw (keys user r.owner_id r.budget_day) there.0,
                    rw (keys module_wide 0 r.budget_day) there.1,
                  ))
                  b.backed,
            );
      books =
          rw (rows, more)
            (All-twice (Booked l.reservations) _ _ _ _ _ l.accounts
              (λ a booked. charges-Booked request l.reservations a booked) b.books);
    }

pub find_attempt-eq-ok :
    (attempt_id : String) (owner_id : ℕ) (l : Ledger) {r : BudgetReservation}
    → find_attempt attempt_id owner_id l ≡ ok r
    → (first (owned_attempt attempt_id owner_id) l.reservations ≡ some r)
      × (is_attempt attempt_id r ≡ true)
      × (owner_id ≡ r.owner_id)
find_attempt-eq-ok attempt_id owner_id l {r} h =
    let found : first (owned_attempt attempt_id owner_id) l.reservations ≡ some r = ground arith in
    let mine = first-test (owned_attempt attempt_id owner_id) l.reservations found in
    (found, ground arith, ground arith)

still_reserved-state :
    (attempt_id : String) (owner_id : ℕ) (q : BudgetReservation)
    → still_reserved attempt_id owner_id q ≡ true
    → is_reserved q.state ≡ true
still_reserved-state attempt_id owner_id q h = ground arith

pub settle_known-Balanced :
    (owner_id : ℕ) (attempt_id : String) (amount tokens : ℕ) (l t : Ledger) (r : BudgetReservation)
    → find_attempt attempt_id owner_id l ≡ ok r
    → settle_known owner_id attempt_id amount tokens l ≡ ok t
    → Balanced l
    → Balanced t
settle_known-Balanced owner_id attempt_id amount tokens l t r found h b =
    let (live, u, hu, v, hv, ht) =
      settle_known-eq-ok owner_id attempt_id amount tokens l t r found h in
    let (here, mine, owner) = find_attempt-eq-ok attempt_id owner_id l found in
    let m = first-Elem (owned_attempt attempt_id owner_id) l.reservations here in
    let (_, rows_u, more_u) = settle_account-eq-ok r amount tokens user owner_id _ hu in
    let (_, rows_v, more_v) = settle_account-eq-ok r amount tokens module_wide 0 u hv in
    let (rows_t, more_t) = insert_usage-accounts _ v t ht in
    let rows = rows_t ∙ rows_v in
    let more = more_t ∙ more_v ∙ more_u in
    let keys = λ (scope : AccountScope) (o day : ℕ).
      same_keys (is_account user owner_id r.budget_day) (is_account module_wide 0 r.budget_day)
        (settled_account r amount tokens) (settled_account r amount tokens) l.accounts
        (λ s w d a. (refl, refl)) scope o day in
    record {
      keyed = λ scope o day. rw (rows, rows_u, keys scope o day) (b.keyed scope o day);
      attempts = λ i. rw more (
          le_trans
            (count-update-le (is_attempt i) (is_attempt attempt_id) _ l.reservations (λ q _ k. k))
            (b.attempts i));
      backed =
          rw (rows, rows_u, more)
            (All-update _ _ _ l.reservations (λ q _ there. there)
              (All-map _ _ l.reservations
                (λ q there. (
                  rw (keys user q.owner_id q.budget_day) there.0,
                  rw (keys module_wide 0 q.budget_day) there.1,
                ))
                b.backed));
      books =
          rw (rows, rows_u, more, owner)
            (All-twice (Booked l.reservations) _ _ _ _ _ l.accounts
              (λ a booked.
                settles-Booked r amount tokens l.reservations _ a
                  (held-settle (λ q. q.amount_cny) a attempt_id r l.reservations m mine live
                    (b.attempts attempt_id))
                  (held-settle (λ q. q.tokens) a attempt_id r l.reservations m mine live
                    (b.attempts attempt_id))
                  booked)
              b.books);
    }

pub settle_unknown-Balanced :
    (owner_id : ℕ) (attempt_id : String) (amount tokens : ℕ) (l t : Ledger)
    → settle_unknown owner_id attempt_id amount tokens l ≡ ok t
    → Balanced l
    → Balanced t
settle_unknown-Balanced owner_id attempt_id amount tokens l t h b =
    let rows = settle_unknown-accounts owner_id attempt_id amount tokens l t h in
    let (_, more) = settle_unknown-reservations owner_id attempt_id amount tokens l h in
    let same =
      λ (weight : BudgetReservation → ℕ) (a : BudgetAccount)
          (k : (q : BudgetReservation) → weight (record q { state = unknown }) ≡ weight q).
        held-unknown weight a (still_reserved attempt_id owner_id) l.reservations k
          (λ q e. still_reserved-state attempt_id owner_id q e) in
    record {
      keyed = λ scope o day. rw rows (b.keyed scope o day);
      attempts = λ i. rw more (
          le_trans (count-update-le (is_attempt i) _ _ l.reservations (λ q _ k. k)) (b.attempts i));
      backed = rw (rows, more) (All-update _ _ _ l.reservations (λ q _ there. there) b.backed);
      books =
          rw (rows, more)
            (All-map (Booked l.reservations) _ l.accounts
              (λ a booked. (
                rw (same (λ q. q.amount_cny) a (λ q. refl)) booked.0,
                rw (same (λ q. q.tokens) a (λ q. refl)) booked.1,
              ))
              b.books);
    }
