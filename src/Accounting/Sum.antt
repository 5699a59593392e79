-- ===== src/Accounting/Sum.antt =====
-- Sums, comparisons and fees.
use arcagentx.Prelude.{◌≡◌, ◌↔◌, List, [], ◌∷◌, ok, err, arith, ◌*◌, ℕ}
use arcagentx.Prelude.Int.{ℤ, pos, negsuc, ◌+ℤ◌, ◌<ℤ◌, int_laws}
use arcagentx.Accounting.{
  Usdc6, Usdc18, sum_from, sum_usdc6, compare_usdc6, compare_mixed, less, same, more, to_usdc18,
  tx_fee18, negative_gas,
}

-- The sum by plain recursion.
abbrev pub total : List Usdc6 → Usdc6
total [] = pos 0
total (v ∷ vs) = v +ℤ total vs

sum_from-total : (vs : List Usdc6) (acc : Usdc6) → sum_from acc vs ≡ acc +ℤ total vs
unfolding sum_from
sum_from-total [] acc = omega int_laws
sum_from-total (v ∷ vs) acc = rw (sum_from-total vs (acc +ℤ v)) (omega int_laws)

-- The loop adds up all the values.
pub sum_usdc6-total : (vs : List Usdc6) → sum_usdc6 vs ≡ total vs
unfolding sum_usdc6
sum_usdc6-total vs = rw (sum_from-total vs (pos 0)) (omega int_laws)

compare_usdc6_iff :
    (a b : Usdc6)
    → ((compare_usdc6 a b ≡ less) ↔ (a <ℤ b))
      × ((compare_usdc6 a b ≡ same) ↔ (a ≡ b))
      × ((compare_usdc6 a b ≡ more) ↔ (b <ℤ a))
unfolding compare_usdc6
compare_usdc6_iff a b = (
  (λ h. ground arith, λ h. ground arith),
  (λ h. ground arith, λ h. ground arith),
  (λ h. ground arith, λ h. ground arith),
)

-- An amount in 6 decimals compares with one in 18 as less, same or more exactly when its lift is
-- less, equal or more.
compare_mixed_iff :
    (a : Usdc6) (b : Usdc18)
    → ((compare_mixed a b ≡ less) ↔ (to_usdc18 a <ℤ b))
      × ((compare_mixed a b ≡ same) ↔ (to_usdc18 a ≡ b))
      × ((compare_mixed a b ≡ more) ↔ (b <ℤ to_usdc18 a))
unfolding compare_mixed
compare_mixed_iff a b = compare_usdc6_iff (to_usdc18 a) b

-- A fee is the product of two amounts of gas that are not negative; a negative one is refused.
pub tx_fee18_lem :
    (gas price : ℕ) (m : ℕ)
    → (tx_fee18 (pos gas) (pos price) ≡ ok (pos (gas * price)))
      × ((a : ℤ)
          → (tx_fee18 (negsuc m) a ≡ err negative_gas) × (tx_fee18 a (negsuc m) ≡ err negative_gas))
unfolding tx_fee18
tx_fee18_lem gas price m = (ground arith, λ a. (ground arith, ground arith))
