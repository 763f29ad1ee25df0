-- ===== src/Futures/Budget/Attempts.antt =====
-- How model_gateway.go and internal_tools.go begin an attempt: both accounts of the day are seeded,
-- each in a transaction of its own, and then the attempt is reserved.
use zhigu.Base.{
  ℕ, ◌*◌, ◌≡◌, inl, inr, true, ◌||◌, none, some, count, first, Result, err, Error, arith,
  Option-cases, Bool-cases, refl, sym, subst, ok, count_mono, first-none, first-count,
}
use zhigu.Futures.Budget.Ledger.{
  AccountScope, user, module_wide, Reservation, BudgetAccount, BudgetReservation, Ledger,
  is_account, seed_account, same_scope, new_account, lock_budget_account, is_model, is_tool,
  reserve,
}

-- 10⁻¹² CNY.
abbrev cny : ℕ
cny = 1_000_000_000_000

-- ExecuteInternalModel up to its reservation.
unfoldable pub begin_model_attempt :
    Reservation → Ledger → Ledger × Result (BudgetReservation × Ledger)
begin_model_attempt request l =
    let u = seed_account user request.owner_id request.budget_day (5 * cny) 0 0 0 l in
    let m = seed_account module_wide 0 request.budget_day (50 * cny) 0 0 0 u in
    (m, reserve request m)

-- ExecuteInternalTool up to its reservation.
unfoldable pub begin_tool_attempt :
    Reservation → Ledger → Ledger × Result (BudgetReservation × Ledger)
begin_tool_attempt request l =
    let u = seed_account user request.owner_id request.budget_day (5 * cny) 8 24 48_000 l in
    let m = seed_account module_wide 0 request.budget_day (50 * cny) 8 24 48_000 u in
    (m, reserve request m)

same_scope_refl : (scope : AccountScope) → same_scope scope scope ≡ true
same_scope_refl user = refl
same_scope_refl module_wide = refl

pub same_scope_trans :
    (a b c : AccountScope) → same_scope b a ≡ true → same_scope c a ≡ true → same_scope c b ≡ true
same_scope_trans user user user h k = refl
same_scope_trans user user module_wide h k = k
same_scope_trans user module_wide c h k = absurd (cc)
same_scope_trans module_wide user c h k = absurd (cc)
same_scope_trans module_wide module_wide user h k = k
same_scope_trans module_wide module_wide module_wide h k = refl

module _ (scope : AccountScope) (owner_id day : ℕ) where
  -- A seed finds the account, or makes it as it says.
  seed_account-first :
      (limit models tools tokens : ℕ) (l : Ledger)
      → first (is_account scope owner_id day) l.accounts ≡ none
      → first
          (is_account scope owner_id day)
          (seed_account scope owner_id day limit models tools tokens l).accounts
        ≡ some (new_account scope owner_id day limit models tools tokens)
  unfolding seed_account
  seed_account-first limit models tools tokens l e =
      ground (arith, same_scope_refl scope, first-none (is_account scope owner_id day) l.accounts e)

  seed_account-there :
      (limit models tools tokens : ℕ) (l : Ledger)
      → (a : BudgetAccount) × (first
            (is_account scope owner_id day)
            (seed_account scope owner_id day limit models tools tokens l).accounts
          ≡ some a)
  unfolding seed_account count
  seed_account-there limit models tools tokens l =
      elim (Option-cases (first (is_account scope owner_id day) l.accounts)) [
        | inl e ↦ (_, seed_account-first limit models tools tokens l e)
        | inr (a, e) ↦
            (a, ground (arith, e, first-count (is_account scope owner_id day) l.accounts e))
      ]

  -- An account that is there stays the one that is found.
  seed_account-keeps :
      (other : AccountScope) (other_owner other_day limit models tools tokens : ℕ) (l : Ledger)
      (a : BudgetAccount)
      → first (is_account scope owner_id day) l.accounts ≡ some a
      → first
          (is_account scope owner_id day)
          (seed_account other other_owner other_day limit models tools tokens l).accounts
        ≡ some a
  unfolding seed_account
  seed_account-keeps other other_owner other_day limit models tools tokens l a h =
      let here = first-count (is_account scope owner_id day) l.accounts h in
      let made = new_account other other_owner other_day limit models tools tokens in
      elim (Bool-cases (is_account scope owner_id day made)) [
        | inl e ↦
            let more =
              count_mono (is_account scope owner_id day) (is_account other other_owner other_day)
                l.accounts (λ b k. ground (arith, same_scope_trans scope other b.scope)) in
            ground arith
        | inr e ↦ ground arith
      ]

  lock_budget_account-eq-ok :
      (l : Ledger) (a : BudgetAccount)
      → first (is_account scope owner_id day) l.accounts ≡ some a
      → lock_budget_account scope owner_id day l ≡ ok a
  lock_budget_account-eq-ok l a h = rw (h, lock_budget_account) refl

-- A user whose account allows no calls is refused, of the kind that is limited.
reserve-no_calls :
    (request : Reservation) (l : Ledger) (u m : BudgetAccount)
    → lock_budget_account user request.owner_id request.budget_day l ≡ ok u
    → lock_budget_account module_wide 0 request.budget_day l ≡ ok m
    → u.model_call_limit ≡ 0
    → u.tool_call_limit ≡ 0
    → (is_model request || is_tool request) ≡ true
    → reserve request l ≡ err Error.quota_exceeded
unfolding reserve
reserve-no_calls request l u m hu hm no_models no_tools kind = ground arith

-- The user's account of the day allows no calls.
Barred : ℕ → ℕ → Ledger → Type 0
Barred owner_id day l =
    (a : BudgetAccount) × (first (is_account user owner_id day) l.accounts ≡ some a)
    × (a.model_call_limit ≡ 0)
    × (a.tool_call_limit ≡ 0)

seed_account-Barred :
    (owner_id day : ℕ) (other : AccountScope) (other_owner other_day limit models tools tokens : ℕ)
    (l : Ledger)
    → Barred owner_id day l
    → Barred owner_id day (seed_account other other_owner other_day limit models tools tokens l)
unfolding Barred
seed_account-Barred owner_id day other other_owner other_day limit models tools tokens l
      (a, h, n, m) =
    (
      a,
      seed_account-keeps user owner_id day other other_owner other_day limit models tools tokens l a
          h,
      n,
      m,
    )

-- Once the module's account is seeded too.
reserve-Barred :
    (request : Reservation) (limit models tools tokens : ℕ) (l : Ledger)
    → Barred request.owner_id request.budget_day l
    → (is_model request || is_tool request) ≡ true
    → reserve request (seed_account module_wide 0 request.budget_day limit models tools tokens l)
      ≡ err Error.quota_exceeded
unfolding Barred
reserve-Barred request limit models tools tokens l barred kind =
    let s = seed_account module_wide 0 request.budget_day limit models tools tokens l in
    let (a, h, n, m) =
      seed_account-Barred request.owner_id request.budget_day module_wide 0 request.budget_day limit
        models tools tokens l barred in
    let (b, k) = seed_account-there module_wide 0 request.budget_day limit models tools tokens l in
    reserve-no_calls request s a b
      (lock_budget_account-eq-ok user request.owner_id request.budget_day s a h)
      (lock_budget_account-eq-ok module_wide 0 request.budget_day s b k) n m kind

seed_account-bars :
    (owner_id day limit : ℕ) (l : Ledger)
    → first (is_account user owner_id day) l.accounts ≡ none
    → Barred owner_id day (seed_account user owner_id day limit 0 0 0 l)
unfolding Barred
seed_account-bars owner_id day limit l e = (
  new_account user owner_id day limit 0 0 0,
  seed_account-first user owner_id day limit 0 0 0 l e,
  refl,
  refl,
)

-- If a model call is a user's first attempt of a day, then it is refused, and so is every later
-- attempt of the user on that day that begins like this, of a model call or of a tool call: the
-- account was seeded with no calls at all.
pub begin_model_attempt-refused :
    (request : Reservation) (l : Ledger)
    → first (is_account user request.owner_id request.budget_day) l.accounts ≡ none
    → is_model request ≡ true
    → (other : Reservation) → other.owner_id ≡ request.owner_id
    → other.budget_day ≡ request.budget_day
    → ((begin_model_attempt request l).1 ≡ err Error.quota_exceeded)
      × (is_model other ≡ true
          → (begin_model_attempt other (begin_model_attempt request l).0).1
            ≡ err Error.quota_exceeded)
      × (is_tool other ≡ true
          → (begin_tool_attempt other (begin_model_attempt request l).0).1
            ≡ err Error.quota_exceeded)
unfolding begin_model_attempt begin_tool_attempt
begin_model_attempt-refused request l e model other owner day =
    let u = seed_account user request.owner_id request.budget_day (5 * cny) 0 0 0 l in
    let m = seed_account module_wide 0 request.budget_day (50 * cny) 0 0 0 u in
    let at_once = seed_account-bars request.owner_id request.budget_day (5 * cny) l e in
    let later =
      seed_account-Barred request.owner_id request.budget_day module_wide 0 request.budget_day
        (50 * cny) 0 0 0 u at_once in
    let of_other =
      subst (λ d. Barred other.owner_id d m) (sym day)
        (subst (λ o. Barred o request.budget_day m) (sym owner) later) in
    let seeded = λ (models tools tokens : ℕ).
      seed_account-Barred other.owner_id other.budget_day user other.owner_id other.budget_day
        (5 * cny) models tools tokens m of_other in
    (
      reserve-Barred request (50 * cny) 0 0 0 u at_once (ground arith),
      (λ k. reserve-Barred other (50 * cny) 0 0 0 _ (seeded 0 0 0) (ground arith)),
      (λ k. reserve-Barred other (50 * cny) 8 24 48_000 _ (seeded 8 24 48_000) (ground arith)),
    )
