-- ===== src/Accounting/Decimal/Digits.antt =====
-- The digits of a number, and the number of some digits.
use arcagentx.Prelude.{
  ℕ, zero, suc, ◌+◌, ◌-◌, ◌*◌, ◌/◌, ◌%◌, ◌^◌, ◌≤◌, ◌<◌, ◌≡◌, refl, ap, true, [], ◌∷◌, ◌++◌,
  append_assoc, arith, ◌==◌, length, length-append, length-replicate, replicate, All, All-append,
  All-replicate, Bool-cases, inl, inr,
}
use arcagentx.Prelude.Text.{Text, is_digit}
use native.Mathlib.Nat.{pow-suc}
use arcagentx.Accounting.Decimal.{
  digits, decimal, value_from, value, pad_start, pad_end, push_bare, strip_zeros, or_zero,
}

abbrev pub AllDigits : Text → Type 0
AllDigits s = All (λ c. is_digit c ≡ true) s

value_from-append :
    (acc : ℕ) (s t : Text) → value_from acc (s ++ t) ≡ value_from (value_from acc s) t
unfolding value_from
value_from-append acc [] t = refl
value_from-append acc (c ∷ s) t = value_from-append (acc * 10 + (c - b'0')) s t

value-digits : (f n : ℕ) → n ≤ f → value_from 0 (digits f n) ≡ n
unfolding value_from digits
value-digits zero n h = omega arith
value-digits (suc f) n h = elim (Bool-cases (n == 0)) [
  | inl done ↦ rw done (ground arith)
  | inr more ↦ rw more (
      rw (value_from-append 0 (digits f (n / 10)) ((b'0' + n % 10) ∷ []))
        (rw (value-digits f (n / 10) (ground arith)) (omega arith)))
]

pub value-decimal : (n : ℕ) → value (decimal n) ≡ n
unfolding value decimal value_from
value-decimal n = ground (arith, value-digits n n)

AllDigits-digits : (f n : ℕ) → AllDigits (digits f n)
unfolding digits
AllDigits-digits zero n = tt
AllDigits-digits (suc f) n = elim (Bool-cases (n == 0)) [
  | inl done ↦ rw done tt
  | inr more ↦ rw more (
      All-append (λ c. is_digit c ≡ true) (digits f (n / 10)) ((b'0' + n % 10) ∷ [])
        (AllDigits-digits f (n / 10)) (ground arith, tt))
]

pub AllDigits-decimal : (n : ℕ) → AllDigits (decimal n)
unfolding decimal
AllDigits-decimal n = ground (arith, AllDigits-digits n n)

digits-ne-nil : (f n : ℕ) → 0 < n → n ≤ f → 0 < length (digits f n)
unfolding digits
digits-ne-nil zero n p h = omega arith
digits-ne-nil (suc f) n p h =
    ground (arith, length-append (digits f (n / 10)) ((b'0' + n % 10) ∷ []))

pub decimal-nonempty : (n : ℕ) → 0 < length (decimal n)
unfolding decimal
decimal-nonempty n = ground (arith, digits-ne-nil n n)

length-digits : (f n d : ℕ) → n < 10 ^ d → length (digits f n) ≤ d
unfolding digits
length-digits zero n d h = omega arith
length-digits (suc f) n zero h = ground arith
length-digits (suc f) n (suc d) h = ground (
  arith,
  length-append (digits f (n / 10)) ((b'0' + n % 10) ∷ []),
  length-digits f (n / 10) d (let e : 10 ^ suc d ≡ 10 ^ d * 10 = pow-suc 10 d in omega arith),
)

-- Below 10 ^ d a number has at most d digits, and at least one.
pub length-decimal : (n d : ℕ) → 0 < d → n < 10 ^ d → length (decimal n) ≤ d
unfolding decimal
length-decimal n d p h = ground (arith, length-digits n n d h)

value-zeros : (k : ℕ) (s : Text) → value_from 0 (replicate k b'0' ++ s) ≡ value_from 0 s
unfolding value_from
value-zeros zero s = refl
value-zeros (suc k) s = value-zeros k s

pub value-pad_start : (d : ℕ) (s : Text) → value (pad_start d s) ≡ value s
unfolding value pad_start
value-pad_start d s = value-zeros (d - length s) s

pub length-pad_start : (d : ℕ) (s : Text) → length s ≤ d → length (pad_start d s) ≡ d
unfolding pad_start
length-pad_start d s h = omega (
  arith,
  length-append (replicate (d - length s) b'0') s,
  length-replicate {A = ℕ} (d - length s) b'0',
)

pub AllDigits-pad_start : (d : ℕ) (s : Text) → AllDigits s → AllDigits (pad_start d s)
unfolding pad_start
AllDigits-pad_start d s h =
    All-append _ (replicate (d - length s) b'0') s (All-replicate _ (d - length s) b'0' refl) h

pub AllDigits-pad_end : (d : ℕ) (s : Text) → AllDigits s → AllDigits (pad_end d s)
unfolding pad_end
AllDigits-pad_end d s h =
    All-append _ s (replicate (d - length s) b'0') h (All-replicate _ (d - length s) b'0' refl)

pub AllDigits-strip_zeros : (s : Text) → AllDigits s → AllDigits (strip_zeros s)
unfolding strip_zeros
AllDigits-strip_zeros [] h = tt
AllDigits-strip_zeros (c ∷ s) (p, h) = ground (arith, AllDigits-strip_zeros s h)

pub length-strip_zeros : (s : Text) → length (strip_zeros s) ≤ length s
unfolding strip_zeros
length-strip_zeros [] = omega arith
length-strip_zeros (c ∷ s) = ground (arith, length-strip_zeros s)

restore : Text → Text → Text
restore s t = t ++ replicate (length s - length t) b'0'

restore-push_bare : (c : ℕ) (s t : Text) → restore s t ≡ s → restore (c ∷ s) (push_bare c t) ≡ c ∷ s
unfolding restore
restore-push_bare c s [] h = elim (Bool-cases (c == b'0')) [
  | inl zero_here ↦
      rw zero_here
        (let e : suc (length s) - 0 ≡ suc (length s - 0) = omega arith in rw e (ground (arith, h)))
  | inr other ↦
      rw other (let e : suc (length s) - 1 ≡ length s - 0 = omega arith in rw e (ap (λ t. c ∷ t) h))
]
restore-push_bare c s (d ∷ t) h =
    let e : suc (length s) - suc (suc (length t)) ≡ length s - suc (length t) = omega arith in
    rw e (ap (λ t. c ∷ t) h)

strip_zeros-restore : (s : Text) → restore s (strip_zeros s) ≡ s
unfolding strip_zeros
strip_zeros-restore [] = unfold restore in refl
strip_zeros-restore (c ∷ s) = restore-push_bare c s (strip_zeros s) (strip_zeros-restore s)

-- Padding with zeros undoes the stripping.
pub pad_end-strip_zeros : (d : ℕ) (s : Text) → length s ≡ d → pad_end d (strip_zeros s) ≡ s
unfolding pad_end restore
pad_end-strip_zeros d s h = rw (← h) (strip_zeros-restore s)

pub value-or_zero : (s : Text) → value (or_zero s) ≡ value s
unfolding value value_from or_zero
value-or_zero [] = refl
value-or_zero (c ∷ s) = refl

replicate-add : (a b : ℕ) (c : ℕ) → replicate (a + b) c ≡ replicate a c ++ replicate b c
replicate-add zero b c = let e : 0 + b ≡ b = omega arith in rw e
replicate-add (suc a) b c =
    let e : suc a + b ≡ suc (a + b) = omega arith in rw e (ap (λ t. c ∷ t) (replicate-add a b c))

-- Padding in two steps.
pub pad_end-pad_end :
    (m d : ℕ) (s : Text) → m ≤ d → length s ≤ m → pad_end d (pad_end m s) ≡ pad_end d s
unfolding pad_end
pad_end-pad_end m d s h k =
    let gap = m - length s in
    let filled : length (s ++ replicate gap b'0') ≡ m =
      omega (arith, length-append s (replicate gap b'0'), length-replicate {A = ℕ} gap b'0') in
    let total : d - length s ≡ gap + (d - m) = omega arith in
    rw filled (rw total (rw replicate-add (append_assoc s (replicate gap b'0') _)))

pub length-pad_end : (d : ℕ) (s : Text) → length s ≤ d → length (pad_end d s) ≡ d
unfolding pad_end
length-pad_end d s h = omega (
  arith,
  length-append s (replicate (d - length s) b'0'),
  length-replicate {A = ℕ} (d - length s) b'0',
)
