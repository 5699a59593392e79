-- ===== src/Ledger/Spent.antt =====
-- What an agent has spent, and how each operation moves it.
use arcagentx.Prelude.{
  ℕ, ◌≤◌, ◌≡◌, refl, ap, sym, ◌∙◌, inl, inr, Option, none, some, List, [], ◌∷◌, ◌++◌, map, arith,
  ◌==◌, if◌then◌else◌, filter, All, Bool-cases,
}
use arcagentx.Prelude.Int.{pos, ◌+ℤ◌, ◌≤ℤ◌, int_laws, +ℤ_shift}
use arcagentx.Prelude.Text.{Text, to_lower}
use arcagentx.Accounting.{Usdc6}
use arcagentx.Accounting.Sum.{total, sum_usdc6-total}
use arcagentx.Ledger.{
  PaymentRecord, NewPayment, PaymentPatch, MemoryLedger, record_payment, assign, find_row,
  assign_first, update, counts, spent_since,
}

-- What one row counts for.
abbrev pub share : Text → ℕ → Option Text → PaymentRecord → Usdc6
share agent since pay_to r = if counts agent since pay_to r then r.amount else pos 0

-- The sum of the shares of all rows.
abbrev pub shares : Text → ℕ → Option Text → List PaymentRecord → Usdc6
shares agent since pay_to [] = pos 0
shares agent since pay_to (r ∷ rs) = share agent since pay_to r +ℤ shares agent since pay_to rs

module _ (agent : Text) (since : ℕ) (pay_to : Option Text) where
  total-shares :
      (rs : List PaymentRecord)
      → total (map (λ r. r.amount) (filter (counts agent since pay_to) rs))
        ≡ shares agent since pay_to rs
  total-shares [] = refl
  total-shares (r ∷ rs) = elim (Bool-cases (counts agent since pay_to r)) [
    | inl counted ↦ rw (counted, filter) (ap (λ t. r.amount +ℤ t) (total-shares rs))
    | inr left ↦ rw (left, filter) (rw (total-shares rs) (omega int_laws))
  ]

  pub spent_since-shares :
      (l : MemoryLedger) → spent_since agent since pay_to l ≡ shares agent since pay_to l.rows
  unfolding spent_since
  spent_since-shares l = sum_usdc6-total _ ∙ total-shares l.rows

  pub shares-append :
      (xs ys : List PaymentRecord)
      → shares agent since pay_to (xs ++ ys)
        ≡ shares agent since pay_to xs +ℤ shares agent since pay_to ys
  shares-append [] ys = omega int_laws
  shares-append (x ∷ xs) ys = rw (shares-append xs ys) (omega int_laws)

  -- A recorded payment adds its amount to what the agent has spent if it counts, and nothing
  -- otherwise.
  pub spent_since-record_payment :
      (now : ℕ) (p : NewPayment) (l : MemoryLedger)
      → let (l', row) = record_payment now p l in
        spent_since agent since pay_to l'
        ≡ spent_since agent since pay_to l +ℤ share agent since pay_to row
  unfolding record_payment
  spent_since-record_payment now p l =
      rw spent_since-shares (rw (spent_since-shares l) (rw (shares-append l.rows) (omega int_laws)))

  shares-assign_first :
      (id : ℕ) (p : PaymentPatch) (rs : List PaymentRecord) (r : PaymentRecord)
      → find_row id rs ≡ some r
      → shares agent since pay_to (assign_first id p rs) +ℤ share agent since pay_to r
        ≡ shares agent since pay_to rs +ℤ share agent since pay_to (assign p r)
  unfolding assign_first find_row
  shares-assign_first id p [] r e = cc
  shares-assign_first id p (x ∷ rs) r e = elim (Bool-cases (x.id == id)) [
    | inl found ↦
        let same : x ≡ r = let f = rw found at e in cc in rw found (rw same (omega int_laws))
    | inr other ↦
        let f : find_row id rs ≡ some r = rw other at e in
        rw other (+ℤ_shift (share agent since pay_to x) _ _ _ _ (shares-assign_first id p rs r f))
  ]

  -- A patch of a row that is there moves what the agent has spent by the difference that it makes
  -- to that row's share.
  pub spent_since-update :
      (id : ℕ) (p : PaymentPatch) (l : MemoryLedger) (r : PaymentRecord)
      → find_row id l.rows ≡ some r
      → spent_since agent since pay_to (update id p l) +ℤ share agent since pay_to r
        ≡ spent_since agent since pay_to l +ℤ share agent since pay_to (assign p r)
  unfolding update
  spent_since-update id p l r e =
      rw (spent_since-shares (update id p l))
        (rw (spent_since-shares l) (shares-assign_first id p l.rows r e))

  -- A patch of neither the amount nor the status leaves what the agent has spent.
  share-noted :
      (p : PaymentPatch) (r : PaymentRecord)
      → p.amount ≡ none
      → p.status ≡ none
      → share agent since pay_to (assign p r) ≡ share agent since pay_to r
  unfolding assign counts
  share-noted p r e f = rw (e, f) refl

  shares-noted :
      (p : PaymentPatch) (id : ℕ) (rs : List PaymentRecord)
      → p.amount ≡ none
      → p.status ≡ none
      → shares agent since pay_to (assign_first id p rs) ≡ shares agent since pay_to rs
  unfolding assign_first
  shares-noted p id [] e f = refl
  shares-noted p id (r ∷ rs) e f = elim (Bool-cases (r.id == id)) [
    | inl here ↦ rw here (ap (λ a. a +ℤ shares agent since pay_to rs) (share-noted p r e f))
    | inr later ↦ rw later (ap (λ a. share agent since pay_to r +ℤ a) (shares-noted p id rs e f))
  ]

  pub update-noted :
      (p : PaymentPatch) (id : ℕ) (l : MemoryLedger)
      → p.amount ≡ none
      → p.status ≡ none
      → spent_since agent since pay_to (update id p l) ≡ spent_since agent since pay_to l
  unfolding update
  update-noted p id l e f =
      rw (spent_since-shares (update id p l))
        (rw (spent_since-shares l) (shares-noted p id l.rows e f))

-- Amounts that are not negative.
abbrev pub Nonneg : List PaymentRecord → Type 0
Nonneg = All (λ r. pos 0 ≤ℤ r.amount)

share_nonneg :
    (agent : Text) (since : ℕ) (pay_to : Option Text) (r : PaymentRecord)
    → pos 0 ≤ℤ r.amount
    → pos 0 ≤ℤ share agent since pay_to r
share_nonneg agent since pay_to r p = ground arith

share-antitone :
    (agent : Text) (since later : ℕ) (pay_to : Option Text) (r : PaymentRecord)
    → since ≤ later
    → pos 0 ≤ℤ r.amount
    → share agent later pay_to r ≤ℤ share agent since pay_to r
unfolding counts
share-antitone agent since later pay_to r h p = ground arith

pub shares_nonneg :
    (agent : Text) (since : ℕ) (pay_to : Option Text) (rs : List PaymentRecord)
    → Nonneg rs
    → pos 0 ≤ℤ shares agent since pay_to rs
shares_nonneg agent since pay_to [] h = omega arith
shares_nonneg agent since pay_to (r ∷ rs) (p, h) =
    omega (int_laws, share_nonneg agent since pay_to r p, shares_nonneg agent since pay_to rs h)

-- A later window holds no more.
pub shares-antitone :
    (agent : Text) (since later : ℕ) (pay_to : Option Text) (rs : List PaymentRecord)
    → since ≤ later
    → Nonneg rs
    → shares agent later pay_to rs ≤ℤ shares agent since pay_to rs
shares-antitone agent since later pay_to [] h k = omega arith
shares-antitone agent since later pay_to (r ∷ rs) h (p, k) = omega (
  int_laws,
  share-antitone agent since later pay_to r h p,
  shares-antitone agent since later pay_to rs h k,
)

-- Where no amount is negative, a later window holds no more.
pub spent_since-antitone :
    (agent : Text) (since later : ℕ) (pay_to : Option Text) (l : MemoryLedger)
    → since ≤ later
    → Nonneg l.rows
    → spent_since agent later pay_to l ≤ℤ spent_since agent since pay_to l
spent_since-antitone agent since later pay_to l h k = rw (spent_since-shares agent later pay_to l) (
    rw (spent_since-shares agent since pay_to l)
      (shares-antitone agent since later pay_to l.rows h k))

share-lower :
    (agent : Text) (since : ℕ) (a b : Text) (r : PaymentRecord)
    → to_lower a ≡ to_lower b
    → share agent since (some a) r ≡ share agent since (some b) r
unfolding counts
share-lower agent since a b r e = rw e

shares-lower :
    (agent : Text) (since : ℕ) (a b : Text) (rs : List PaymentRecord)
    → to_lower a ≡ to_lower b
    → shares agent since (some a) rs ≡ shares agent since (some b) rs
shares-lower agent since a b [] e = refl
shares-lower agent since a b (r ∷ rs) e =
    rw (share-lower agent since a b r e) (rw (shares-lower agent since a b rs e))

-- Two addresses that differ only by case have one sum.
pub spent_since-lower :
    (agent : Text) (since : ℕ) (a b : Text) (l : MemoryLedger)
    → to_lower a ≡ to_lower b
    → spent_since agent since (some a) l ≡ spent_since agent since (some b) l
spent_since-lower agent since a b l e =
    spent_since-shares agent since (some a) l
    ∙ (shares-lower agent since a b l.rows e ∙ sym (spent_since-shares agent since (some b) l))
