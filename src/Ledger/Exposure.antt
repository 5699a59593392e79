-- ===== src/Ledger/Exposure.antt =====
-- `exposure()`: what is signed and neither settled nor failed, per counterparty.
use arcagentx.Prelude.{
  ℕ, ◌+◌, ◌≡◌, ◌≢◌, ap, ◌∙◌, inl, inr, ◌&&◌, List, [], ◌∷◌, arith, if◌then◌else◌, All, Bool-cases,
}
use arcagentx.Prelude.Int.{pos, ◌+ℤ◌, int_laws}
use arcagentx.Prelude.Text.{Text, text_eq, text_eq_iff}
use arcagentx.Accounting.{Usdc6}
use arcagentx.Ledger.{
  PaymentRecord, MemoryLedger, is_signed, Exposed, add_exposure, exposure_from, exposure,
}

-- What the signed rows to one address add up to, and how many they are.
abbrev pub owed : Text → List PaymentRecord → Usdc6
owed pt [] = pos 0
owed pt (r ∷ rs) =
    (if is_signed r.status && text_eq r.pay_to pt then r.amount else pos 0) +ℤ owed pt rs

abbrev pub owing : Text → List PaymentRecord → ℕ
owing pt [] = 0
owing pt (r ∷ rs) = (if is_signed r.status && text_eq r.pay_to pt then 1 else 0) + owing pt rs

-- What the entries for one address add up to.
abbrev pub open_of : Text → List Exposed → Usdc6
open_of pt [] = pos 0
open_of pt (e ∷ es) = (if text_eq e.pay_to pt then e.open_amount else pos 0) +ℤ open_of pt es

abbrev pub count_of : Text → List Exposed → ℕ
count_of pt [] = 0
count_of pt (e ∷ es) = (if text_eq e.pay_to pt then e.count else 0) + count_of pt es

-- No address has two entries, and none has an entry for no payment.
abbrev pub IsDistinct : List Exposed → Type 0
IsDistinct [] = Unit
IsDistinct (e ∷ es) = (e.count ≢ 0) × All (λ f. f.pay_to ≢ e.pay_to) es × IsDistinct es

open_of-add_exposure :
    (pt k : Text) (a : Usdc6) (es : List Exposed)
    → open_of pt (add_exposure k a es) ≡ (if text_eq k pt then a else pos 0) +ℤ open_of pt es
unfolding add_exposure
open_of-add_exposure pt k a [] = elim (Bool-cases (text_eq k pt)) [
  | inl e ↦ rw e (omega int_laws)
  | inr e ↦ rw e (omega int_laws)
]
open_of-add_exposure pt k a (e ∷ es) = elim (Bool-cases (text_eq e.pay_to k)) [
  | inl here ↦
      let same : text_eq e.pay_to pt ≡ text_eq k pt =
        ap (λ t. text_eq t pt) ((text_eq_iff e.pay_to k).0 here) in
      rw here (
        rw same (elim (Bool-cases (text_eq k pt)) [
          | inl e ↦ rw e (omega int_laws)
          | inr e ↦ rw e (omega int_laws)
        ]))
  | inr later ↦ rw later (rw (open_of-add_exposure pt k a es) (omega int_laws))
]

count_of-add_exposure :
    (pt k : Text) (a : Usdc6) (es : List Exposed)
    → count_of pt (add_exposure k a es) ≡ (if text_eq k pt then 1 else 0) + count_of pt es
unfolding add_exposure
count_of-add_exposure pt k a [] = ground (arith, text_eq_iff k pt)
count_of-add_exposure pt k a (e ∷ es) = ground (
  arith,
  text_eq_iff k pt,
  text_eq_iff e.pay_to k,
  text_eq_iff e.pay_to pt,
  count_of-add_exposure pt k a es,
)

pay_to-add_exposure :
    (k other : Text) (a : Usdc6) (es : List Exposed)
    → k ≢ other
    → All (λ f. f.pay_to ≢ other) es
    → All (λ f. f.pay_to ≢ other) (add_exposure k a es)
unfolding add_exposure
pay_to-add_exposure k other a [] h _ = (h, tt)
pay_to-add_exposure k other a (e ∷ es) h (p, q) = elim (Bool-cases (text_eq e.pay_to k)) [
  | inl here ↦ rw here (p, q)
  | inr later ↦ rw later (p, pay_to-add_exposure k other a es h q)
]

IsDistinct-add_exposure :
    (k : Text) (a : Usdc6) (es : List Exposed) → IsDistinct es → IsDistinct (add_exposure k a es)
unfolding add_exposure
IsDistinct-add_exposure k a [] h = (ground arith, tt, tt)
IsDistinct-add_exposure k a (e ∷ es) (c, p, h) = elim (Bool-cases (text_eq e.pay_to k)) [
  | inl here ↦ rw here (omega arith, p, h)
  | inr later ↦ rw later (
    c,
    pay_to-add_exposure k e.pay_to a es (ground (arith, text_eq_iff e.pay_to k)) p,
    IsDistinct-add_exposure k a es h,
  )
]

exposure_from-open :
    (pt : Text) (m : List Exposed) (rs : List PaymentRecord)
    → open_of pt (exposure_from m rs) ≡ open_of pt m +ℤ owed pt rs
unfolding exposure_from
exposure_from-open pt m [] = omega int_laws
exposure_from-open pt m (r ∷ rs) = elim (Bool-cases (is_signed r.status)) [
  | inl counted ↦ rw counted (
      rw (exposure_from-open pt (add_exposure r.pay_to r.amount m) rs)
        (rw (open_of-add_exposure pt r.pay_to r.amount m) (omega int_laws)))
  | inr other ↦ rw other (rw (exposure_from-open pt m rs) (omega int_laws))
]

exposure_from-count :
    (pt : Text) (m : List Exposed) (rs : List PaymentRecord)
    → count_of pt (exposure_from m rs) ≡ count_of pt m + owing pt rs
unfolding exposure_from
exposure_from-count pt m [] = omega arith
exposure_from-count pt m (r ∷ rs) = elim (Bool-cases (is_signed r.status)) [
  | inl counted ↦ rw counted (
      rw (exposure_from-count pt (add_exposure r.pay_to r.amount m) rs)
        (rw (count_of-add_exposure pt r.pay_to r.amount m) (omega arith)))
  | inr other ↦ rw other (rw (exposure_from-count pt m rs) (omega arith))
]

exposure_from-IsDistinct :
    (m : List Exposed) (rs : List PaymentRecord) → IsDistinct m → IsDistinct (exposure_from m rs)
unfolding exposure_from
exposure_from-IsDistinct m [] h = h
exposure_from-IsDistinct m (r ∷ rs) h = elim (Bool-cases (is_signed r.status)) [
  | inl counted ↦ rw counted (
      exposure_from-IsDistinct (add_exposure r.pay_to r.amount m) rs
        (IsDistinct-add_exposure r.pay_to r.amount m h))
  | inr other ↦ rw other (exposure_from-IsDistinct m rs h)
]

-- Each address has at most one entry in the exposure, with at least one payment, and its amount and
-- its count are those of the signed rows to the address.
pub exposure-owed :
    (l : MemoryLedger)
    → IsDistinct (exposure l)
      × ((pt : Text)
          → (open_of pt (exposure l) ≡ owed pt l.rows)
            × (count_of pt (exposure l) ≡ owing pt l.rows))
unfolding exposure
exposure-owed l = (
  exposure_from-IsDistinct [] l.rows tt,
  λ pt. (
    exposure_from-open pt [] l.rows ∙ omega int_laws,
    exposure_from-count pt [] l.rows ∙ omega arith,
  ),
)
