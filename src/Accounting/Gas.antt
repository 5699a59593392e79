-- ===== src/Accounting/Gas.antt =====
-- packages/accounting/src/index.ts: quantities of JSON-RPC in hexadecimal, gas, and the arithmetic
-- of amounts in 18 decimals.
use arcagentx.Prelude.{
  ℕ, ◌+◌, ◌-◌, ◌*◌, Bool, ◌&&◌, ◌||◌, List, [], ◌∷◌, Result, ok, err, ◌>>=◌, leb, ◌==◌, all,
  if◌then◌else◌,
}
use arcagentx.Prelude.Int.{ℤ, pos, ◌+ℤ◌, ◌-ℤ◌, ◌*ℤ◌}
use arcagentx.Prelude.Text.{Text, is_digit}
use arcagentx.Accounting.{
  Usdc6, Usdc18, AccountingError, malformed_quantity, gwei, Order, compare_usdc6, sum_usdc6,
  tx_fee18,
}

abbrev is_hex_digit : ℕ → Bool
is_hex_digit c = is_digit c || (leb b'a' c && leb c b'f') || (leb b'A' c && leb c b'F')

abbrev hex_digit : ℕ → ℕ
hex_digit c = if is_digit c then c - b'0' else if leb b'a' c then c - b'a' + 10 else c - b'A' + 10

-- `BigInt(hex)`, behind the prefix.
unfoldable pub hex_value : ℕ → Text → ℕ
hex_value acc [] = acc
hex_value acc (c ∷ s) = hex_value (acc * 16 + hex_digit c) s

-- `/^0x[0-9a-fA-F]+$/`.
unfoldable pub hex_quantity_to_big_int : Text → Result AccountingError ℤ
hex_quantity_to_big_int [] = err malformed_quantity
hex_quantity_to_big_int (z ∷ []) = err malformed_quantity
hex_quantity_to_big_int (z ∷ x ∷ []) = err malformed_quantity
hex_quantity_to_big_int (z ∷ x ∷ c ∷ s) =
    if z == b'0' && x == b'x' && all is_hex_digit (c ∷ s)
    then ok (pos (hex_value 0 (c ∷ s)))
    else err malformed_quantity

unfoldable pub usdc18_from_hex : Text → Result AccountingError Usdc18
usdc18_from_hex hex = hex_quantity_to_big_int hex

unfoldable pub usdc6_from_hex : Text → Result AccountingError Usdc6
usdc6_from_hex hex = hex_quantity_to_big_int hex

unfoldable pub sub_usdc6 : Usdc6 → Usdc6 → Usdc6
sub_usdc6 a b = a -ℤ b

unfoldable pub add_usdc18 : Usdc18 → Usdc18 → Usdc18
add_usdc18 a b = a +ℤ b

unfoldable pub sub_usdc18 : Usdc18 → Usdc18 → Usdc18
sub_usdc18 a b = a -ℤ b

unfoldable pub sum_usdc18 : List Usdc18 → Usdc18
sum_usdc18 values = sum_usdc6 values

unfoldable pub compare_usdc18 : Usdc18 → Usdc18 → Order
compare_usdc18 a b = compare_usdc6 a b

unfoldable pub tx_fee18_from_receipt : Text → Text → Result AccountingError Usdc18
tx_fee18_from_receipt gas_used effective_gas_price = do
  gas ← hex_quantity_to_big_int gas_used
  price ← hex_quantity_to_big_int effective_gas_price
  tx_fee18 gas price

unfoldable pub gwei_to_usdc18 : ℤ → Usdc18
gwei_to_usdc18 amount = amount *ℤ pos gwei
