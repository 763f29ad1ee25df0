-- ===== src/Finance/Calls/Repeats.antt =====
-- A request for a call that is repeated.
use zhigu.Base.{
  ◌≡◌, refl, inl, inr, false, some, String, str_eq, eq_refl, first, ok, arith, subst, sym,
  Option-cases,
}
use zhigu.Finance.Calls.{
  UsageLedger, BudgetRequest, Reservation, Books, has_request, usage_row, reservation, reserve_new,
  reserve,
}

-- The row of a request that was granted.
reserve-row :
    (id : String) (request : BudgetRequest) (b c : Books) (r : Reservation)
    → reserve id request b ≡ ok (r, c)
    → (str_eq request.request_id "" ≡ false)
      × (u : UsageLedger) × (first (has_request request.request_id) c.usage ≡ some u)
      × (u.id ≡ r.id)
      × (r ≡ reservation r.id request)
unfolding reserve reserve_new
reserve-row id request b c r h =
    elim (Option-cases (first (has_request request.request_id) b.usage)) [
      | inr (u, e) ↦
          let same : b ≡ c = ground arith in
          (
            ground arith,
            u,
            subst (λ (d : Books). first (has_request request.request_id) d.usage ≡ some u) same e,
            ground arith,
            ground arith,
          )
      | inl e ↦ (
        ground arith,
        usage_row id request,
        ground (arith, eq_refl request.request_id),
        ground arith,
        ground arith,
      )
    ]

-- What was granted for a request id is granted again when the id is repeated: under the id of the first
-- reservation and without a new row of usage, so that nothing more is charged. The amounts of the two
-- reservations are those that each request asks for itself, so that a request repeated with its own
-- amounts gets its first reservation.
pub reserve-repeats :
    (id : String) (request : BudgetRequest) (b c : Books) (r : Reservation)
    → reserve id request b ≡ ok (r, c)
    → (other_id : String) (other : BudgetRequest) → other.request_id ≡ request.request_id
    → (r ≡ reservation r.id request) × (reserve other_id other c ≡ ok (reservation r.id other, c))
unfolding reserve
reserve-repeats id request b c r h other_id other same =
    let (named, u, found, one, own) = reserve-row id request b c r h in
    let there = subst (λ i. first (has_request i) c.usage ≡ some u) (sym same) found in
    let given = subst (λ i. str_eq i "" ≡ false) (sym same) named in
    (own, rw (reserve, given, there, one) refl)
