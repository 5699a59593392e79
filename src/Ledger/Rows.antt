-- ===== src/Ledger/Rows.antt =====
-- The rows of a ledger: their ids, and the lists that are read from them.
use arcagentx.Prelude.{
  ℕ, suc, ◌+◌, ◌≤◌, ◌≡◌, refl, inl, inr, Bool, Option, none, some, List, [], ◌∷◌, ◌++◌, reverse,
  arith, ◌==◌, if◌then◌else◌, filter, Bool-cases,
}
use arcagentx.Prelude.Text.{Text, text_eq}
use arcagentx.Ledger.{
  PaymentRecord, NewPayment, PaymentPatch, MemoryLedger, new_row, record_payment, assign, find_row,
  assign_first, update, slice_last, recent, awaiting_proof, awaits_proof,
}

-- Ids rise from row to row, from `low` on, and stay below `high`.
abbrev pub Rises : ℕ → ℕ → List PaymentRecord → Type 0
Rises low high [] = low ≤ high
Rises low high (r ∷ rs) = (low ≤ r.id) × Rises (suc r.id) high rs

-- No two rows have one id, and the next id is new.
abbrev pub IsValid : MemoryLedger → Type 0
IsValid l = Rises 0 l.next_id l.rows

Rises-append :
    (low high : ℕ) (rs : List PaymentRecord) (r : PaymentRecord)
    → r.id ≡ high
    → Rises low high rs
    → Rises low (high + 1) (rs ++ r ∷ [])
Rises-append low high [] r e h = omega arith
Rises-append low high (x ∷ rs) r e (p, h) = (p, Rises-append (suc x.id) high rs r e h)

-- Recording a payment keeps the ids rising, below the next id.
record_payment-IsValid :
    (now : ℕ) (p : NewPayment) (l : MemoryLedger) → IsValid l → IsValid (record_payment now p l).0
unfolding record_payment new_row
record_payment-IsValid now p l h = Rises-append 0 l.next_id l.rows (new_row l.next_id now p) refl h

Rises-assign_first :
    (low high id : ℕ) (p : PaymentPatch) (rs : List PaymentRecord)
    → Rises low high rs
    → Rises low high (assign_first id p rs)
unfolding assign_first assign
Rises-assign_first low high id p [] h = h
Rises-assign_first low high id p (r ∷ rs) (q, h) = elim (Bool-cases (r.id == id)) [
  | inl here ↦ rw here (q, h)
  | inr later ↦ rw later (q, Rises-assign_first (suc r.id) high id p rs h)
]

-- A patch keeps the ids rising, below the next id.
update-IsValid :
    (id : ℕ) (p : PaymentPatch) (l : MemoryLedger) → IsValid l → IsValid (update id p l)
unfolding update
update-IsValid id p l h = Rises-assign_first 0 l.next_id id p l.rows h

Rises-low : (low high : ℕ) (rs : List PaymentRecord) → Rises low high rs → low ≤ high
Rises-low low high [] h = h
Rises-low low high (r ∷ rs) (p, h) = omega (arith, Rises-low (suc r.id) high rs h)

find_row-append :
    (low high id : ℕ) (rs : List PaymentRecord) (r : PaymentRecord)
    → Rises low high rs
    → r.id ≡ high
    → find_row id (rs ++ r ∷ []) ≡ (if id == high then some r else find_row id rs)
unfolding find_row
find_row-append low high id [] r h e = ground arith
find_row-append low high id (x ∷ rs) r (p, h) e =
    ground (arith, find_row-append (suc x.id) high id rs r h e, Rises-low (suc x.id) high rs h)

-- In a ledger whose ids rise below the next one, a recorded payment is found under its id, and
-- every other row is found as before.
pub find_row-record_payment :
    (now : ℕ) (p : NewPayment) (l : MemoryLedger) (id : ℕ)
    → IsValid l
    → let (l', row) = record_payment now p l in
      find_row id l'.rows ≡ (if id == l.next_id then some row else find_row id l.rows)
unfolding record_payment
find_row-record_payment now p l id h =
    find_row-append 0 l.next_id id l.rows (new_row l.next_id now p) h (unfold new_row in refl)

abbrev pub patched : PaymentPatch → Option PaymentRecord → Option PaymentRecord
patched p none = none
patched p (some r) = some (assign p r)

assign-id : (p : PaymentPatch) (r : PaymentRecord) → (assign p r).id ≡ r.id
unfolding assign
assign-id p r = refl

find_row-assign_first :
    (id j : ℕ) (p : PaymentPatch) (rs : List PaymentRecord)
    → find_row j (assign_first id p rs)
      ≡ (if j == id then patched p (find_row j rs) else find_row j rs)
unfolding find_row assign_first
find_row-assign_first id j p [] = ground arith
find_row-assign_first id j p (r ∷ rs) =
    ground (arith, find_row-assign_first id j p rs, assign-id p r)

-- A patch changes the row that it names, if there is one, and no other row.
pub find_row-update :
    (id j : ℕ) (p : PaymentPatch) (l : MemoryLedger)
    → find_row j (update id p l).rows
      ≡ (if j == id then patched p (find_row j l.rows) else find_row j l.rows)
unfolding update
find_row-update id j p l = find_row-assign_first id j p l.rows

abbrev pub of_agent : Text → PaymentRecord → Bool
of_agent agent r = text_eq r.agent_id agent

-- With the limit 0 both give every row.
pub recent_zero :
    (agent : Text) (l : MemoryLedger)
    → (recent agent 0 l ≡ reverse (filter (of_agent agent) l.rows))
      × (awaiting_proof agent 0 l ≡ reverse (filter (awaits_proof agent) l.rows))
unfolding recent awaiting_proof slice_last
recent_zero agent l = (refl, refl)
