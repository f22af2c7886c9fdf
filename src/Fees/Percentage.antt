-- ===== src/Fees/Percentage.antt =====
-- src/shared/fee-calculators/universal-fee-calculator.ts: how the percentage fee is rounded, and that
-- it is never more than what is transferred.
use native.Mathlib.Nat.{lt-div-mul-add, div-mul-le_self, mul-le-mul_left}
use kalvora_js.Common.{
  ℕ, ◌+◌, ◌*◌, ◌/◌, ◌<◌, ◌≤◌, ◌≡◌, ◌⊎◌, inl, inr, refl, false, ◌&&◌, none, List, arith, ok, ltb,
  ◌==◌, if◌then◌else◌, Text, Bool-cases,
}
use kalvora_js.Fees.{
  max_uint256, scale, unsigned, positive, sum_outputs, Token, fraction_of, rounded, percentage_fee,
}

-- The fee is the whole number of denominators in the numerator; or one part, where that would be
-- none although there is an amount and a rate.
abbrev pub IsRounded : ℕ → ℕ → ℕ → ℕ → ℕ → Type 0
IsRounded amount fraction numerator denominator fee =
    ((fee * denominator ≤ numerator)
      × (numerator < fee * denominator + denominator)
      × ((0 < fee) ⊎ (amount ≡ 0) ⊎ (fraction ≡ 0)))
    ⊎ ((fee ≡ 1) × (0 < amount) × (0 < fraction) × (numerator < denominator))

no_quotient : (q n d : ℕ) → q ≡ 0 → n < q * d + d → n < d
no_quotient q n d e h = let none_ : n < 0 * d + d = rw e at h in omega arith

rounded-IsRounded :
    (amount fraction numerator denominator : ℕ)
    → 0 < denominator
    → IsRounded amount fraction numerator denominator
        (rounded amount fraction numerator denominator)
unfolding rounded
rounded-IsRounded amount fraction numerator denominator h =
    let low = div-mul-le_self numerator denominator in
    let high = lt-div-mul-add {a = numerator} {b = denominator} h in
    go (numerator / denominator) low high
  where
    go :
        (q : ℕ)
        → q * denominator ≤ numerator
        → numerator < q * denominator + denominator
        → IsRounded amount fraction numerator denominator
            (if ltb 0 amount && ltb 0 fraction && q == 0 then 1 else q)
    go q low high = elim (Bool-cases (ltb 0 amount && ltb 0 fraction && q == 0)) [
      | inl least ↦ rw least (
          inr (
            refl,
            ground arith,
            ground arith,
            no_quotient q numerator denominator (ground arith) high,
          ))
      | inr whole ↦ rw whole (inl (low, high, ground arith))
    ]

le_amount :
    (amount fraction charged : ℕ)
    → fraction ≤ scale
    → IsRounded amount fraction (amount * fraction) scale charged
    → charged ≤ amount
le_amount amount fraction charged part (inl (low, _, _)) =
    let most : amount * fraction ≤ amount * scale = mul-le-mul_left amount part in omega arith
le_amount amount fraction charged part (inr (one, paid, _, _)) = omega arith

-- In the contract's own token, with a rate of one at most, the fee never fails and is never more than
-- the amount that is transferred.
pub percentage_fee-le_amount :
    (outputs : List Text) (fee : Text) (source : Token) (amount fraction denomination : ℕ)
    → sum_outputs 0 outputs ≡ ok amount
    → amount ≤ max_uint256
    → unsigned fee ≡ ok fraction
    → fraction ≤ scale
    → positive source.denomination ≡ ok denomination
    → (charged : ℕ) × (percentage_fee outputs fee source none ≡ ok charged)
      × (charged ≤ amount)
      × IsRounded amount fraction (amount * fraction) scale charged
unfolding percentage_fee fraction_of
percentage_fee-le_amount outputs fee source amount fraction denomination h0 small h2 part h3 =
    let charged = rounded amount fraction (amount * fraction) scale in
    let is = rounded-IsRounded amount fraction (amount * fraction) scale (omega arith) in
    let most = le_amount amount fraction charged part is in
    let in_total : ltb max_uint256 amount ≡ false = ground arith in
    let in_range : ltb max_uint256 charged ≡ false = ground arith in
    (charged, rw (h0, in_total, h2, h3) (rw in_range refl), most, is)
