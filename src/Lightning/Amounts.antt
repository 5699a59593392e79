-- ===== src/Lightning/Amounts.antt =====
-- packages/lightning/src/amounts.ts: prices in dollars and in millisatoshis. An amount is the number
-- that its text prints.
pub mod Bounds
use arcagentx.Prelude.{
  ℕ, ◌+◌, ◌-◌, ◌*◌, ◌/◌, ◌%◌, ◌^◌, Bool, true, false, ◌&&◌, ◌||◌, not, Option, none, some, List, [],
  ◌∷◌, ◌++◌, Result, ok, err, ◌>>=◌, ◌>>◌, require, from_option, leb, ltb, ◌==◌, all, length, max,
  if◌then◌else◌,
}
use arcagentx.Prelude.Text.{Text, codes, text_eq, trim, is_digit, span_digits}
use arcagentx.Accounting.Decimal.{value, fraction_of}

pub data AmountError : Type 0 where
  not_a_decimal not_an_amount too_fine not_positive no_rate not_whole : AmountError

-- A decimal as its digits and the number of them that are behind the point.
pub record Decimal : Type 0 where
  pub digits : ℕ
  pub scale : ℕ

unfoldable pub decimal_with : Text → Option Text → Option Decimal
decimal_with whole none = none
decimal_with whole (some frac) =
    some (record { digits = value (whole ++ frac); scale = length frac })

-- `/^([0-9]+)(?:\.([0-9]+))?$/`.
unfoldable pub decimal_parts : Text × Text → Option Decimal
decimal_parts ([], rest) = none
decimal_parts (d ∷ ds, rest) = decimal_with (d ∷ ds) (fraction_of rest)

-- `decimal`.
unfoldable pub decimal_of : Text → Option Decimal
decimal_of s = decimal_parts (span_digits s)

-- `(num + den - 1n) / den`.
unfoldable pub ceil_div : ℕ → ℕ → ℕ
ceil_div num den = (num + den - 1) / den

-- `lnbtcAmount`, of an explicit amount, of a text, and of anything else.
pub data AmountInput : Type 0 where
  explicit : Text → Text → AmountInput
  written : Text → AmountInput
  other : AmountInput

-- `/^[1-9][0-9]*$/`.
unfoldable pub is_positive_whole : Text → Bool
is_positive_whole [] = false
is_positive_whole (c ∷ s) = leb b'1' c && leb c b'9' && all is_digit s

-- `? ?sats?$`.
abbrev is_unit : Text → Bool
is_unit t =
    text_eq t (codes "sat")
    || text_eq t (codes "sats")
    || text_eq t (codes " sat")
    || text_eq t (codes " sats")

abbrev with_unit : ℕ → ℕ → Text → Option Decimal
with_unit digits scale rest =
    if is_unit rest then some (record { digits = digits; scale = scale }) else none

-- Behind a point: digits, then the unit.
abbrev sats_fraction : Text → Text × Text → Option Decimal
sats_fraction whole ([], rest) = none
sats_fraction whole (f ∷ fs, rest) = with_unit (value (whole ++ f ∷ fs)) (length (f ∷ fs)) rest

-- `/^([0-9]+(?:\.[0-9]+)?) ?sats?$/`.
unfoldable pub sats_parts : Text × Text → Option Decimal
sats_parts ([], rest) = none
sats_parts (d ∷ ds, []) = none
sats_parts (d ∷ ds, c ∷ rest) =
    if c == b'.'
    then sats_fraction (d ∷ ds) (span_digits rest)
    else with_unit (value (d ∷ ds)) 0 (c ∷ rest)

unfoldable pub msat_of : Decimal → Result AmountError ℕ
msat_of d = do
  require ((d.digits * 1000) % 10 ^ d.scale == 0) too_fine
  let out = (d.digits * 1000) / 10 ^ d.scale
  require (not (out == 0)) not_positive
  ok out

unfoldable pub lnbtc_amount : AmountInput → Result AmountError ℕ
lnbtc_amount (explicit asset amount) =
    if text_eq asset (codes "BTC") && is_positive_whole amount
    then ok (value amount)
    else err not_an_amount
lnbtc_amount (written t) = do
  d ← from_option (sats_parts (span_digits (trim t))) not_an_amount
  msat_of d
lnbtc_amount other = err not_an_amount

-- The quotient of `usdToMsat`.
unfoldable pub quote_msat : Decimal → Decimal → ℕ
quote_msat p r = ceil_div (p.digits * 100_000_000_000 * 10 ^ r.scale) (r.digits * 10 ^ p.scale)

unfoldable pub usd_to_msat : Text → Text → ℕ → Result AmountError ℕ
usd_to_msat usd btc_usd min_msat = do
  p ← from_option (decimal_of usd) not_a_decimal
  r ← from_option (decimal_of btc_usd) not_a_decimal
  require (not (r.digits == 0)) no_rate
  let msat = quote_msat p r
  ok (if ltb msat min_msat then min_msat else msat)

-- `/^[0-9]+$/`.
unfoldable pub is_whole : Text → Bool
is_whole s = leb 1 (length s) && all is_digit s

unfoldable pub msat_to_usd6 : Text → Text → Result AmountError ℕ
msat_to_usd6 msat btc_usd = do
  require (is_whole msat) not_whole
  r ← from_option (decimal_of btc_usd) not_a_decimal
  ok (ceil_div (value msat * r.digits) (100_000 * 10 ^ r.scale))

-- `todayMsat` of paywall.ts: the price of today, rounded up to a multiple of the step.
unfoldable pub step_up : ℕ → ℕ → ℕ
step_up step exact = ceil_div exact step * step

unfoldable pub today_msat : Text → Text → ℕ → ℕ → Result AmountError ℕ
today_msat price_usd rate min_msat step = do
  exact ← usd_to_msat price_usd rate min_msat
  ok (step_up step exact)
