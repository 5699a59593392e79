-- ===== src/Lightning/Invoice/Words.antt =====
-- Numbers written in words of five bits, and read back.
use arcagentx.Prelude.{
  ℕ, zero, suc, ◌+◌, ◌-◌, ◌*◌, ◌/◌, ◌%◌, ◌≤◌, ◌<◌, ◌≡◌, refl, ap, inl, inr, ◌∙◌, List, [], ◌∷◌, All,
  arith, length, Bool-cases, ◌==◌,
}
use arcagentx.Lightning.Invoice.{words_from, words_to_int, words_of, pad_words, int_to_words}

words_of-words_from :
    (fuel v : ℕ) (out : List ℕ) → v ≤ fuel → words_from 0 (words_of fuel v out) ≡ words_from v out
unfolding words_of words_from
words_of-words_from zero v out h =
    let e : 0 * 32 + v % 32 ≡ v = omega arith in ap (λ x. words_from x out) e
words_of-words_from (suc fuel) v out h = elim (Bool-cases (v / 32 == 0)) [
  | inl last ↦ let e : 0 * 32 + v % 32 ≡ v = ground arith in rw last (ap (λ x. words_from x out) e)
  | inr more ↦
      let whole : v / 32 * 32 + v % 32 ≡ v = omega arith in
      let rest = words_of-words_from fuel (v / 32) (v % 32 ∷ out) (ground arith) in
      rw more (rest ∙ ap (λ x. words_from x out) whole)
]

pad_words-words_from :
    (missing : ℕ) (out : List ℕ) → words_from 0 (pad_words missing out) ≡ words_from 0 out
unfolding pad_words words_from
pad_words-words_from zero out = refl
pad_words-words_from (suc missing) out = pad_words-words_from missing (0 ∷ out)

abbrev pub IsWord : ℕ → Type 0
IsWord w = w < 32

words_of-IsWord : (fuel v : ℕ) (out : List ℕ) → All IsWord out → All IsWord (words_of fuel v out)
unfolding words_of
words_of-IsWord zero v out h = (omega arith, h)
words_of-IsWord (suc fuel) v out h = elim (Bool-cases (v / 32 == 0)) [
  | inl last ↦ rw last (omega arith, h)
  | inr more ↦ rw more (words_of-IsWord fuel (v / 32) (v % 32 ∷ out) (omega arith, h))
]

pad_words-IsWord :
    (missing : ℕ) (out : List ℕ) → All IsWord out → All IsWord (pad_words missing out)
unfolding pad_words
pad_words-IsWord zero out h = h
pad_words-IsWord (suc missing) out h = pad_words-IsWord missing (0 ∷ out) (omega arith, h)

length-pad_words :
    (missing : ℕ) (out : List ℕ) → length (pad_words missing out) ≡ missing + length out
unfolding pad_words
length-pad_words zero out = omega arith
length-pad_words (suc missing) out = omega (arith, length-pad_words missing (0 ∷ out))

-- A number that is written in words reads back as itself; each word has five bits, and there are at
-- least as many as were asked for.
pub words_to_int-int_to_words :
    (n min : ℕ)
    → (words_to_int (int_to_words n min) ≡ n)
      × All IsWord (int_to_words n min)
      × (min ≤ length (int_to_words n min))
unfolding words_to_int int_to_words
words_to_int-int_to_words n min =
    let out = words_of n n [] in
    let missing = min - length out in
    (
      pad_words-words_from missing out
          ∙ words_of-words_from n n [] (omega arith)
          ∙ unfold words_from in refl,
      pad_words-IsWord missing out (words_of-IsWord n n [] tt),
      omega (arith, length-pad_words missing out),
    )
