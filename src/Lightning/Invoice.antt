-- ===== src/Lightning/Invoice.antt =====
-- packages/lightning/src/bolt11.ts: numbers as words of five bits, and the prefix of an invoice.
pub mod Words
use arcagentx.Prelude.{
  ℕ, zero, suc, ◌+◌, ◌-◌, ◌*◌, ◌/◌, ◌%◌, Bool, true, false, ◌&&◌, Option, none, some, List, [], ◌∷◌,
  Result, ok, err, leb, ◌==◌, length, if◌then◌else◌,
}
use arcagentx.Prelude.Text.{Text, span_digits}
use arcagentx.Accounting.Decimal.{value}

-- The loop of `wordsToInt`.
unfoldable pub words_from : ℕ → List ℕ → ℕ
words_from n [] = n
words_from n (w ∷ words) = words_from (n * 32 + w) words

unfoldable pub words_to_int : List ℕ → ℕ
words_to_int words = words_from 0 words

-- The first loop of `intToWords`, on fuel.
unfoldable pub words_of : ℕ → ℕ → List ℕ → List ℕ
words_of zero v out = v % 32 ∷ out
words_of (suc fuel) v out =
    let rest = words_of fuel (v / 32) (v % 32 ∷ out) in if v / 32 == 0 then v % 32 ∷ out else rest

-- The second loop: zeros in front.
unfoldable pub pad_words : ℕ → List ℕ → List ℕ
pad_words zero out = out
pad_words (suc missing) out = pad_words missing (0 ∷ out)

unfoldable pub int_to_words : ℕ → ℕ → List ℕ
int_to_words n min = let out = words_of n n [] in pad_words (min - length out) out

pub data Currency : Type 0 where
  bc tb : Currency

-- `no_fuel` is of the model, not of the code.
pub data Bolt11Error : Type 0 where
  no_invoice mixed_case not_bech32 not_an_invoice not_whole_msat too_short field_past_end
        repeated_field wrong_length bad_padding bad_size not_utf8 no_payment_hash bad_recovery
        bad_signature bad_amount no_fuel :
      Bolt11Error

-- `MSAT_PER`: the numerator and the denominator of a multiplier; none where there is no such letter.
abbrev pub msat_per : Text → Option (ℕ × ℕ)
msat_per [] = some (100_000_000_000, 1)
msat_per (c ∷ []) =
    if c == b'm'
    then some (100_000_000, 1)
    else if c == b'u'
    then some (100_000, 1)
    else if c == b'n'
    then some (100, 1)
    else if c == b'p'
    then some (1, 10)
    else none
msat_per (c ∷ d ∷ s) = none

unfoldable pub hrp_units : Currency → ℕ → Option (ℕ × ℕ) → Result Bolt11Error (Currency × Option ℕ)
hrp_units currency amount none = err not_an_invoice
hrp_units currency amount (some (num, den)) =
    if (amount * num) % den == 0
    then ok (currency, some (amount * num / den))
    else err not_whole_msat

-- `(?:([1-9][0-9]*)([munp]?))?$`.
unfoldable pub hrp_amount : Currency → Text × Text → Result Bolt11Error (Currency × Option ℕ)
hrp_amount currency ([], []) = ok (currency, none)
hrp_amount currency ([], c ∷ rest) = err not_an_invoice
hrp_amount currency (d ∷ ds, rest) =
    let read = hrp_units currency (value (d ∷ ds)) (msat_per rest) in
    if d == b'0' then err not_an_invoice else read

-- `parseHrp`: `ln`, the currency, the amount.
unfoldable pub parse_hrp : Text → Result Bolt11Error (Currency × Option ℕ)
parse_hrp (l ∷ n ∷ c ∷ d ∷ rest) =
    let main = hrp_amount bc (span_digits rest) in
    let test = hrp_amount tb (span_digits rest) in
    if l == b'l' && n == b'n' && c == b'b' && d == b'c'
    then main
    else if l == b'l' && n == b'n' && c == b't' && d == b'b'
    then test
    else err not_an_invoice
parse_hrp short = err not_an_invoice
