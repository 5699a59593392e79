-- ===== src/Accounting.antt =====
-- packages/accounting/src/index.ts: amounts in 6 and in 18 decimals, as `bigint`s, with the
-- conversions between them, the arithmetic, and the gas fees. The branded types are integers.
mod Tests
pub mod Conversion
pub mod Sum
pub mod Decimal
pub mod Gas
use arcagentx.Prelude.{
  ℕ, ◌^◌, ◌/◌, ◌&&◌, ◌||◌, not, Bool, List, [], ◌∷◌, Result, ok, err, if◌then◌else◌,
}
use arcagentx.Prelude.Int.{ℤ, pos, ◌+ℤ◌, ◌-ℤ◌, ◌*ℤ◌, quot, rem, ltb_ℤ, leb_ℤ, neg}

abbrev pub Usdc6 : Type 0
Usdc6 = ℤ

abbrev pub Usdc18 : Type 0
Usdc18 = ℤ

abbrev pub scale_6_to_18 : ℕ
scale_6_to_18 = 10 ^ 12

abbrev pub gwei : ℕ
gwei = 10 ^ 9

-- `AccountingError`, by its cause.
pub data AccountingError : Type 0 where
  dust_lost negative_gas malformed_decimal too_many_digits malformed_quantity : AccountingError

unfoldable pub to_usdc18 : Usdc6 → Usdc18
unfolding ◌*ℤ◌
to_usdc18 amount = amount *ℤ pos scale_6_to_18

pub record Usdc6Split : Type 0 where
  pub usdc6 : Usdc6
  pub dust18 : Usdc18

unfoldable pub split_usdc18 : Usdc18 → Usdc6Split
split_usdc18 amount = record {
  usdc6 = quot amount scale_6_to_18;
  dust18 = rem amount scale_6_to_18;
}

abbrev is_zero : ℤ → Bool
is_zero a = leb_ℤ a (pos 0) && leb_ℤ (pos 0) a

unfoldable pub to_usdc6_exact : Usdc18 → Result AccountingError Usdc6
unfolding split_usdc18
to_usdc6_exact amount =
    let s = split_usdc18 amount in if not (is_zero s.dust18) then err dust_lost else ok s.usdc6

unfoldable pub to_usdc6_floor : Usdc18 → Usdc6
unfolding split_usdc18
to_usdc6_floor amount = (split_usdc18 amount).usdc6

-- Half away from zero.
unfoldable pub to_usdc6_rounded : Usdc18 → Usdc6
unfolding split_usdc18 ◌+ℤ◌ ◌-ℤ◌
to_usdc6_rounded amount =
    let s = split_usdc18 amount in
    let half = scale_6_to_18 / 2 in
    if leb_ℤ (pos half) s.dust18
    then s.usdc6 +ℤ pos 1
    else if leb_ℤ s.dust18 (neg half)
    then s.usdc6 -ℤ pos 1
    else s.usdc6

unfoldable pub add_usdc6 : Usdc6 → Usdc6 → Usdc6
unfolding ◌+ℤ◌
add_usdc6 a b = a +ℤ b

unfoldable pub headroom_usdc6 : Usdc6 → Usdc6 → Usdc6
unfolding ◌-ℤ◌
headroom_usdc6 cap used = if ltb_ℤ used cap then cap -ℤ used else pos 0

sum_from : Usdc6 → List Usdc6 → Usdc6
unfolding ◌+ℤ◌
sum_from acc [] = acc
sum_from acc (v ∷ values) = sum_from (acc +ℤ v) values

-- The loop of `sumUsdc6`, and of `sumUsdc18`.
unfoldable pub sum_usdc6 : List Usdc6 → Usdc6
unfolding sum_from
sum_usdc6 = sum_from (pos 0)

-- The order of two amounts: -1, 0 or 1.
pub data Order : Type 0 where
  less same more : Order

unfoldable pub compare_usdc6 : Usdc6 → Usdc6 → Order
compare_usdc6 a b = if ltb_ℤ a b then less else if ltb_ℤ b a then more else same

unfoldable pub compare_mixed : Usdc6 → Usdc18 → Order
compare_mixed a6 b18 = compare_usdc6 (to_usdc18 a6) b18

unfoldable pub tx_fee18 : ℤ → ℤ → Result AccountingError Usdc18
unfolding ◌*ℤ◌
tx_fee18 gas_used effective_gas_price =
    if ltb_ℤ gas_used (pos 0) || ltb_ℤ effective_gas_price (pos 0)
    then err negative_gas
    else ok (gas_used *ℤ effective_gas_price)
