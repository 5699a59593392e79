-- ===== src/Lightning/Amounts/Bounds.antt =====
-- Rounding is up: nobody receives less than its price, and nothing counts for less than it is.
use native.Mathlib.Nat.{div-add-mod', mod-lt, pow-suc, mul-pos, mul-le-mul_right}
use arcagentx.Prelude.{
  ℕ, zero, suc, ◌+◌, ◌-◌, ◌*◌, ◌^◌, ◌≤◌, ◌<◌, ◌≡◌, ◌⊎◌, inl, inr, some, ok, >>=-eq-ok, arith, ltb,
  ◌==◌, Bool-cases, if◌then◌else◌,
}
use arcagentx.Prelude.Text.{Text}
use arcagentx.Accounting.Decimal.{value}
use arcagentx.Lightning.Amounts.{
  Decimal, decimal_of, ceil_div, quote_msat, usd_to_msat, msat_to_usd6, step_up, today_msat,
  is_whole,
}

-- The quotient, rounded up: it covers the amount, and less than one unit more.
pub ceil_div-covers :
    (num den : ℕ) → 0 < den → (num ≤ ceil_div num den * den) × (ceil_div num den * den < num + den)
unfolding ceil_div
ceil_div-covers num den h =
    let whole = div-add-mod' (num + den - 1) den in
    let rest = mod-lt (num + den - 1) h in (omega (arith, whole, rest), omega (arith, whole, rest))

power_pos : (d : ℕ) → 0 < 10 ^ d
power_pos zero = omega arith
power_pos (suc d) = let e : 10 ^ suc d ≡ 10 ^ d * 10 = pow-suc 10 d in omega (arith, power_pos d)

-- The greater of the quotient and the minimum.
at_least-covers :
    (num den min_msat m : ℕ)
    → 0 < den
    → (if ltb (ceil_div num den) min_msat then min_msat else ceil_div num den) ≡ m
    → (num ≤ m * den) × (min_msat ≤ m) × ((m ≡ min_msat) ⊎ (m * den < num + den))
at_least-covers num den min_msat m h e =
    let (covers, close) = ceil_div-covers num den h in
    elim (Bool-cases (ltb (ceil_div num den) min_msat)) [
      | inl low ↦
          let f : min_msat ≡ m = rw low at e in
          let le : ceil_div num den ≤ m = ground arith in
          (omega (arith, covers, mul-le-mul_right den le), omega arith, inl (omega arith))
      | inr enough ↦
          let f : ceil_div num den ≡ m = rw enough at e in
          (rw f at covers, ground arith, inr (rw f at close))
    ]

-- A dollar price in millisatoshis: at the rate, it is worth the price at least, less than one
-- millisatoshi more unless it is the minimum, and never below the minimum.
pub usd_to_msat-covers :
    (usd btc_usd : Text) (min_msat m : ℕ) (p r : Decimal)
    → decimal_of usd ≡ some p
    → decimal_of btc_usd ≡ some r
    → usd_to_msat usd btc_usd min_msat ≡ ok m
    → (p.digits * 100_000_000_000 * 10 ^ r.scale ≤ m * (r.digits * 10 ^ p.scale))
      × (min_msat ≤ m)
      × ((m ≡ min_msat)
          ⊎ (m * (r.digits * 10 ^ p.scale)
              < p.digits * 100_000_000_000 * 10 ^ r.scale + r.digits * 10 ^ p.scale))
unfolding usd_to_msat quote_msat
usd_to_msat-covers usd btc_usd min_msat m p r ep er e =
    let known = rw er at (rw ep at e) in
    elim (Bool-cases (r.digits == 0)) [
      | inl none_left ↦ let f = rw none_left at known in cc
      | inr some_left ↦
          let one : 0 < r.digits = ground arith in
          at_least-covers _ (r.digits * 10 ^ p.scale) min_msat m (mul-pos one (power_pos p.scale))
            (let f = rw some_left at known in cc)
    ]

-- Millisatoshis in micro-dollars: at the rate, they count for what they are worth at least, and
-- less than one micro-dollar more.
pub msat_to_usd6-covers :
    (msat btc_usd : Text) (a : ℕ) (r : Decimal)
    → decimal_of btc_usd ≡ some r
    → msat_to_usd6 msat btc_usd ≡ ok a
    → (value msat * r.digits ≤ a * (100_000 * 10 ^ r.scale))
      × (a * (100_000 * 10 ^ r.scale) < value msat * r.digits + 100_000 * 10 ^ r.scale)
unfolding msat_to_usd6
msat_to_usd6-covers msat btc_usd a r er e =
    let known = rw er at e in
    elim (Bool-cases (is_whole msat)) [
      | inr other ↦ let f = rw other at known in cc
      | inl whole ↦
          let f : ceil_div (value msat * r.digits) (100_000 * 10 ^ r.scale) ≡ a =
            let g = rw whole at known in cc in
          let den : 0 < 100_000 * 10 ^ r.scale = omega (arith, power_pos r.scale) in
          rw f at (ceil_div-covers (value msat * r.digits) (100_000 * 10 ^ r.scale) den)
    ]

-- The price of today is a multiple of the step, not below the minimum, and at the rate it is worth
-- the price in dollars at least.
pub today_msat-covers :
    (price rate : Text) (min_msat step t : ℕ) (p r : Decimal)
    → 0 < step
    → decimal_of price ≡ some p
    → decimal_of rate ≡ some r
    → today_msat price rate min_msat step ≡ ok t
    → ((k : ℕ) × (t ≡ k * step))
      × (min_msat ≤ t)
      × (p.digits * 100_000_000_000 * 10 ^ r.scale ≤ t * (r.digits * 10 ^ p.scale))
unfolding today_msat step_up
today_msat-covers price rate min_msat step t p r h ep er e =
    let (x, e₁, e₂) = >>=-eq-ok (usd_to_msat price rate min_msat) _ e in
    let (worth, least, close) = usd_to_msat-covers price rate min_msat x p r ep er e₁ in
    let (up, near) = ceil_div-covers x step h in
    let f : ceil_div x step * step ≡ t = cc in
    let le : x ≤ t = rw f at up in
    (
      (ceil_div x step, omega (arith, f)),
      omega arith,
      omega (arith, worth, mul-le-mul_right (r.digits * 10 ^ p.scale) le),
    )
