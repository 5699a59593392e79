-- ===== src/Accounting/Decimal/RoundTrip.antt =====
-- Parsing what was printed gives the amount back.
use native.Mathlib.Nat.{div-add-mod', mod-lt, pow-suc}
use arcagentx.Prelude.{
  ℕ, zero, suc, ◌+◌, ◌*◌, ◌/◌, ◌%◌, ◌^◌, ◌≤◌, ◌<◌, ◌≡◌, refl, ap, ◌∙◌, sym, Bool, true, false, [],
  ◌∷◌, ◌++◌, append-nil, arith, length, ok, some, none, All, All-append, Bool-cases, inl, inr,
  if◌then◌else◌, ltb,
}
use arcagentx.Prelude.Int.{ℤ, pos, negsuc, neg}
use arcagentx.Prelude.Text.{Text, is_digit, is_space, span_digits, trim_of_plain}
use arcagentx.Accounting.Decimal.{
  decimal, value, pad_start, pad_end, strip_zeros, sign_of, fraction_end, fraction_of,
  match_unsigned, match_signed, match_decimal, parse_decimal_to_units, FormatOptions, or_else,
  fraction, with_fraction, format_units_to_decimal,
}
use arcagentx.Accounting.Decimal.Digits.{
  AllDigits, value-decimal, AllDigits-decimal, decimal-nonempty, length-decimal, value-pad_start,
  length-pad_start, AllDigits-pad_start, AllDigits-pad_end, pad_end-pad_end, length-pad_end,
  AllDigits-strip_zeros, length-strip_zeros, pad_end-strip_zeros, value-or_zero,
}

span_digits-append :
    (ds rest : Text)
    → AllDigits ds
    → span_digits rest ≡ ([], rest)
    → span_digits (ds ++ rest) ≡ (ds, rest)
unfolding span_digits
span_digits-append [] rest h e = e
span_digits-append (c ∷ ds) rest (p, h) e = rw p (rw (span_digits-append ds rest h e) refl)

span_digits_of_digits : (ds : Text) → AllDigits ds → span_digits ds ≡ (ds, [])
span_digits_of_digits ds h =
    ap span_digits (sym (append-nil ds)) ∙ span_digits-append ds [] h (unfold span_digits in refl)

span_digits-point :
    (ds frac : Text) → AllDigits ds → span_digits (ds ++ b'.' ∷ frac) ≡ (ds, b'.' ∷ frac)
span_digits-point ds frac h = span_digits-append ds (b'.' ∷ frac) h (unfold span_digits in refl)

fraction_of-digits :
    (c : ℕ) (ds : Text) → AllDigits (c ∷ ds) → fraction_of (b'.' ∷ c ∷ ds) ≡ some (c ∷ ds)
unfolding fraction_of fraction_end
fraction_of-digits c ds h = ap fraction_end (span_digits_of_digits (c ∷ ds) h)

match_unsigned-body :
    (minus : Bool) (c : ℕ) (ds frac : Text)
    → AllDigits (c ∷ ds)
    → AllDigits frac
    → match_unsigned minus (span_digits (with_fraction (c ∷ ds) frac)) ≡ some (minus, c ∷ ds, frac)
unfolding match_unsigned with_fraction
match_unsigned-body minus c ds [] h k =
    rw (span_digits_of_digits (c ∷ ds) h) (unfold fraction_of in refl)
match_unsigned-body minus c ds (f ∷ fs) h k =
    rw (span_digits-point (c ∷ ds) (f ∷ fs) h) (rw (fraction_of-digits f fs k, match_unsigned))

sign_of-digit : (c : ℕ) (s : Text) → is_digit c ≡ true → sign_of (c ∷ s) ≡ (false, c ∷ s)
unfolding sign_of
sign_of-digit c s h = ground arith

with_fraction-head : (c : ℕ) (ds frac : Text) → (s : Text) × (with_fraction (c ∷ ds) frac ≡ c ∷ s)
unfolding with_fraction
with_fraction-head c ds [] = (ds, refl)
with_fraction-head c ds (f ∷ fs) = (ds ++ b'.' ∷ f ∷ fs, refl)

sign_of-body :
    (c : ℕ) (ds frac : Text)
    → AllDigits (c ∷ ds)
    → sign_of (with_fraction (c ∷ ds) frac) ≡ (false, with_fraction (c ∷ ds) frac)
unfolding with_fraction
sign_of-body c ds [] h = sign_of-digit c ds h.0
sign_of-body c ds (f ∷ fs) h = sign_of-digit c (ds ++ b'.' ∷ f ∷ fs) h.0

sign_of-minus : (s : Text) → sign_of (b'-' ∷ s) ≡ (true, s)
unfolding sign_of
sign_of-minus s = refl

-- A body that is printed is matched, with its two parts.
match_decimal-body :
    (c : ℕ) (ds frac : Text)
    → AllDigits (c ∷ ds)
    → AllDigits frac
    → match_decimal (with_fraction (c ∷ ds) frac) ≡ some (false, c ∷ ds, frac)
match_decimal-body c ds frac h k =
    unfold match_decimal match_signed in
    ap match_signed (sign_of-body c ds frac h) ∙ match_unsigned-body false c ds frac h k

match_decimal-minus :
    (c : ℕ) (ds frac : Text)
    → AllDigits (c ∷ ds)
    → AllDigits frac
    → match_decimal (b'-' ∷ with_fraction (c ∷ ds) frac) ≡ some (true, c ∷ ds, frac)
match_decimal-minus c ds frac h k =
    unfold match_decimal match_signed in
    ap match_signed (sign_of-minus (with_fraction (c ∷ ds) frac))
    ∙ match_unsigned-body true c ds frac h k

-- The fraction of `rest` units below one, before its zeros are stripped.
abbrev full : ℕ → ℕ → Text
full rest decimals = pad_start decimals (decimal rest)

-- What is printed stands for the same units as the full fraction.
abbrev Stands : Text → ℕ → Text → Type 0
Stands whole decimals frac =
    AllDigits frac × (length frac ≤ decimals) × (pad_end decimals frac ≡ whole)

Stands-strip_zeros :
    (whole : Text) (decimals : ℕ)
    → AllDigits whole
    → length whole ≡ decimals
    → Stands whole decimals (strip_zeros whole)
Stands-strip_zeros whole decimals h e = (
  AllDigits-strip_zeros whole h,
  omega (arith, length-strip_zeros whole),
  pad_end-strip_zeros decimals whole e,
)

Stands-pad_end :
    (whole frac : Text) (decimals least : ℕ)
    → Stands whole decimals frac
    → least ≤ decimals
    → Stands whole decimals (if ltb (length frac) least then pad_end least frac else frac)
Stands-pad_end whole frac decimals least h k = elim (Bool-cases (ltb (length frac) least)) [
  | inl short ↦
      let fits : length frac ≤ least = ground arith in
      rw short (
        AllDigits-pad_end least frac h.0,
        omega (arith, length-pad_end least frac fits),
        pad_end-pad_end least decimals frac k fits ∙ h.2,
      )
  | inr long ↦ rw long h
]

-- The fraction that is printed when no digit is cut off.
fraction-Stands :
    (rest decimals : ℕ) (opts : FormatOptions)
    → 0 < decimals
    → rest < 10 ^ decimals
    → opts.max_fraction_digits ≡ none
    → or_else opts.min_fraction_digits 0 ≤ decimals
    → Stands (full rest decimals) decimals (fraction rest decimals opts)
unfolding fraction
fraction-Stands rest decimals opts positive below uncut least =
    let whole = full rest decimals in
    let fits : ltb decimals decimals ≡ false = ground arith in
    rw uncut (
      rw fits (
        Stands-pad_end whole (strip_zeros whole) decimals _
          (Stands-strip_zeros whole decimals
            (AllDigits-pad_start decimals (decimal rest) (AllDigits-decimal rest))
            (length-pad_start decimals (decimal rest)
              (length-decimal rest decimals positive below)))
          least))

value-full : (rest decimals : ℕ) → value (full rest decimals) ≡ rest
value-full rest decimals = value-pad_start decimals (decimal rest) ∙ value-decimal rest

abbrev IsPlain : Text → Type 0
IsPlain s = All (λ c. is_space c ≡ false) s

IsPlain-AllDigits : (s : Text) → AllDigits s → IsPlain s
IsPlain-AllDigits [] h = tt
IsPlain-AllDigits (c ∷ s) (p, h) = (ground arith, IsPlain-AllDigits s h)

IsPlain-with_fraction :
    (s frac : Text) → AllDigits s → AllDigits frac → IsPlain (with_fraction s frac)
unfolding with_fraction
IsPlain-with_fraction s [] h k = IsPlain-AllDigits s h
IsPlain-with_fraction s (f ∷ fs) h k =
    All-append _ s (b'.' ∷ f ∷ fs) (IsPlain-AllDigits s h) (refl, IsPlain-AllDigits (f ∷ fs) k)

-- A match of the trimmed text decides the parse.
parse_of_match :
    (text s frac : Text) (minus : Bool) (decimals : ℕ)
    → IsPlain text
    → match_decimal text ≡ some (minus, s, frac)
    → length frac ≤ decimals
    → let n = value s * 10 ^ decimals + value (pad_end decimals frac) in
      parse_decimal_to_units text decimals ≡ ok (if minus then neg n else pos n)
unfolding parse_decimal_to_units
parse_of_match text s frac minus decimals plain e fits =
    let short : ltb decimals (length frac) ≡ false = ground arith in
    rw (trim_of_plain text plain) (rw e (rw short (rw value-or_zero refl)))

neg-suc : (n : ℕ) → neg (suc n) ≡ negsuc n
neg-suc n = ground arith

base_pos : (d : ℕ) → 0 < 10 ^ d
base_pos zero = omega arith
base_pos (suc d) = let e : 10 ^ suc d ≡ 10 ^ d * 10 = pow-suc 10 d in omega (arith, base_pos d)

match_decimal-sign :
    (minus : Bool) (s frac : Text)
    → 0 < length s
    → AllDigits s
    → AllDigits frac
    → match_decimal (if minus then b'-' ∷ with_fraction s frac else with_fraction s frac)
      ≡ some (minus, s, frac)
match_decimal-sign minus [] frac p h k = absurd (omega arith)
match_decimal-sign true (c ∷ ds) frac p h k = match_decimal-minus c ds frac h k
match_decimal-sign false (c ∷ ds) frac p h k = match_decimal-body c ds frac h k

IsPlain-sign : (minus : Bool) (s : Text) → IsPlain s → IsPlain (if minus then b'-' ∷ s else s)
IsPlain-sign true s h = (refl, h)
IsPlain-sign false s h = h

-- Parsing a printed magnitude with its sign.
parse-printed :
    (minus : Bool) (n decimals : ℕ) (opts : FormatOptions)
    → 0 < decimals
    → opts.max_fraction_digits ≡ none
    → or_else opts.min_fraction_digits 0 ≤ decimals
    → let body =
        with_fraction (decimal (n / 10 ^ decimals)) (fraction (n % 10 ^ decimals) decimals opts) in
      parse_decimal_to_units (if minus then b'-' ∷ body else body) decimals
      ≡ ok (if minus then neg n else pos n)
parse-printed minus n decimals opts positive uncut least =
    let whole = n / 10 ^ decimals in
    let rest = n % 10 ^ decimals in
    let frac = fraction rest decimals opts in
    let (ds, fits, same) =
      fraction-Stands rest decimals opts positive (mod-lt n (base_pos decimals)) uncut least in
    let parsed =
      parse_of_match _ (decimal whole) frac minus decimals
        (IsPlain-sign minus _
          (IsPlain-with_fraction (decimal whole) frac (AllDigits-decimal whole) ds))
        (match_decimal-sign minus (decimal whole) frac (decimal-nonempty whole)
          (AllDigits-decimal whole) ds)
        fits in
    let units : value (decimal whole) * 10 ^ decimals + value (pad_end decimals frac) ≡ n =
      rw (value-decimal whole)
        (rw same (rw (value-full rest decimals) (div-add-mod' n (10 ^ decimals)))) in
    rw units at parsed

-- Parsing what was printed gives the amount back, of either sign, for a unit with at least one
-- digit, when no digit is cut off and no more digits are asked for than the unit has.
pub parse-format :
    (units : ℤ) (decimals : ℕ) (opts : FormatOptions)
    → 0 < decimals
    → opts.max_fraction_digits ≡ none
    → or_else opts.min_fraction_digits 0 ≤ decimals
    → parse_decimal_to_units (format_units_to_decimal units decimals opts) decimals ≡ ok units
unfolding format_units_to_decimal
parse-format (pos n) decimals opts positive uncut least =
    let e : n + 0 ≡ n = omega arith in
    let nonneg : ltb n 0 ≡ false = ground arith in
    rw (e, nonneg) (parse-printed false n decimals opts positive uncut least)
parse-format (negsuc n) decimals opts positive uncut least =
    let e : 0 + suc n ≡ suc n = omega arith in
    let negative : ltb 0 (suc n) ≡ true = ground arith in
    rw (e, negative)
      (parse-printed true (suc n) decimals opts positive uncut least ∙ ap ok (neg-suc n))
