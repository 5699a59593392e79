-- ===== src/Accounting/Decimal.antt =====
-- packages/accounting/src/index.ts: decimal strings. `toString` and `BigInt` on decimal digits,
-- `padStart`, `padEnd`, `parseDecimalToUnits` and `formatUnitsToDecimal`.
pub mod Digits
pub mod RoundTrip
use arcagentx.Prelude.{
  ℕ, zero, suc, ◌+◌, ◌-◌, ◌*◌, ◌/◌, ◌%◌, ◌^◌, Bool, true, false, List, [], ◌∷◌, ◌++◌, Option, none,
  some, Result, ok, err, ◌>>=◌, ◌>>◌, require, from_option, ltb, leb, ◌==◌, if◌then◌else◌, length,
  take, replicate, not,
}
use arcagentx.Prelude.Int.{ℤ, pos, negsuc, neg, ltb_ℤ, pos_part, neg_part}
use arcagentx.Prelude.Text.{Text, span_digits, trim}
use arcagentx.Accounting.{AccountingError, malformed_decimal, too_many_digits, Usdc6, Usdc18}

-- The decimal digits of a positive number, with fuel; none for zero.
unfoldable pub digits : ℕ → ℕ → Text
digits zero n = []
digits (suc f) n =
    let higher = digits f (n / 10) in if n == 0 then [] else higher ++ (b'0' + n % 10) ∷ []

-- `n.toString()`.
unfoldable pub decimal : ℕ → Text
unfolding digits
decimal n = if n == 0 then b'0' ∷ [] else digits n n

-- `BigInt(s)` on digits.
unfoldable pub value_from : ℕ → Text → ℕ
value_from acc [] = acc
value_from acc (c ∷ s) = value_from (acc * 10 + (c - b'0')) s

unfoldable pub value : Text → ℕ
unfolding value_from
value s = value_from 0 s

-- `s.padStart(n, "0")` and `s.padEnd(n, "0")`.
unfoldable pub pad_start : ℕ → Text → Text
pad_start n s = replicate (n - length s) b'0' ++ s

unfoldable pub pad_end : ℕ → Text → Text
pad_end n s = s ++ replicate (n - length s) b'0'

-- `c` before a text that has no zero at its end.
abbrev push_bare : ℕ → Text → Text
push_bare c [] = if c == b'0' then [] else c ∷ []
push_bare c (d ∷ t) = c ∷ d ∷ t

-- `s.replace(/0+$/, "")`.
unfoldable pub strip_zeros : Text → Text
strip_zeros [] = []
strip_zeros (c ∷ s) = push_bare c (strip_zeros s)

-- `([+-])?` of `DECIMAL_RE`: whether a minus stands there, and what follows.
unfoldable pub sign_of : Text → Bool × Text
sign_of [] = (false, [])
sign_of (c ∷ s) = if c == b'-' then (true, s) else if c == b'+' then (false, s) else (false, c ∷ s)

-- The digits behind the point, and what follows them: at least one digit, and nothing more.
unfoldable pub fraction_end : Text × Text → Option Text
fraction_end ([], rest) = none
fraction_end (d ∷ ds, []) = some (d ∷ ds)
fraction_end (d ∷ ds, c ∷ rest) = none

-- `(?:\.(\d+))?$`: the fraction, empty where there is none.
unfoldable pub fraction_of : Text → Option Text
unfolding fraction_end span_digits
fraction_of [] = some []
fraction_of (c ∷ s) = if c == b'.' then fraction_end (span_digits s) else none

-- `(\d+)`, then the fraction.
unfoldable pub match_unsigned : Bool → Text × Text → Option (Bool × Text × Text)
unfolding fraction_of
match_unsigned minus ([], rest) = none
match_unsigned minus (d ∷ ds, rest) = elim (fraction_of rest) [
  | none ↦ none
  | some frac ↦ some (minus, d ∷ ds, frac)
]

unfoldable pub match_signed : Bool × Text → Option (Bool × Text × Text)
unfolding match_unsigned span_digits
match_signed (minus, s) = match_unsigned minus (span_digits s)

-- `DECIMAL_RE.exec`: the sign, the integer part and the fraction.
unfoldable pub match_decimal : Text → Option (Bool × Text × Text)
unfolding sign_of match_signed
match_decimal t = match_signed (sign_of t)

-- `s || "0"`.
unfoldable pub or_zero : Text → Text
or_zero [] = b'0' ∷ []
or_zero (c ∷ s) = c ∷ s

unfoldable pub parse_decimal_to_units : Text → ℕ → Result AccountingError ℤ
unfolding match_decimal value pad_end or_zero trim
parse_decimal_to_units text decimals = do
  (minus, int_part, frac) ← from_option (match_decimal (trim text)) malformed_decimal
  require (not (ltb decimals (length frac))) too_many_digits
  let units = value int_part * 10 ^ decimals + value (or_zero (pad_end decimals frac))
  ok (if minus then neg units else pos units)

pub record FormatOptions : Type 0 where
  pub min_fraction_digits : Option ℕ
  pub max_fraction_digits : Option ℕ

abbrev pub no_options : FormatOptions
no_options = record { min_fraction_digits = none; max_fraction_digits = none }

-- `o ?? d`.
abbrev pub or_else {ℓ} : {A : Type ℓ} → Option A → A → A
or_else none d = d
or_else (some a) _ = a

-- The fraction that is printed, for `rest` units below one.
unfoldable pub fraction : ℕ → ℕ → FormatOptions → Text
unfolding pad_start pad_end strip_zeros decimal
fraction rest decimals opts =
    let full = pad_start decimals (decimal rest) in
    let min_frac = or_else opts.min_fraction_digits 0 in
    let max_frac = or_else opts.max_fraction_digits decimals in
    let cut = if ltb max_frac decimals then take max_frac full else full in
    let bare = strip_zeros cut in if ltb (length bare) min_frac then pad_end min_frac bare else bare

unfoldable pub with_fraction : Text → Text → Text
with_fraction int_part [] = int_part
with_fraction int_part (c ∷ frac) = int_part ++ b'.' ∷ c ∷ frac

unfoldable pub format_units_to_decimal : ℤ → ℕ → FormatOptions → Text
format_units_to_decimal units decimals opts =
    let negative = ltb_ℤ units (pos 0) in
    let abs = pos_part units + neg_part units in
    let base = 10 ^ decimals in
    let body = with_fraction (decimal (abs / base)) (fraction (abs % base) decimals opts) in
    if negative then b'-' ∷ body else body

unfoldable pub parse_usdc6 : Text → Result AccountingError Usdc6
parse_usdc6 text = parse_decimal_to_units text 6

unfoldable pub parse_usdc18 : Text → Result AccountingError Usdc18
parse_usdc18 text = parse_decimal_to_units text 18

unfoldable pub format_usdc6 : Usdc6 → FormatOptions → Text
format_usdc6 amount opts = format_units_to_decimal amount 6 opts

unfoldable pub format_usdc18 : Usdc18 → FormatOptions → Text
format_usdc18 amount opts = format_units_to_decimal amount 18 opts

-- `n.toString()` of a `bigint`, and `toSqlNumeric`.
unfoldable pub int_text : ℤ → Text
int_text (pos n) = decimal n
int_text (negsuc n) = b'-' ∷ decimal (n + 1)
