-- ===== src/Ledger/Counted.antt =====
-- What counts as spent, in the words of the ledger's contract, and how a payment and a patch move it.
use arcagentx.Prelude.{
  ℕ, ◌≤◌, ◌≡◌, ◌↔◌, ◌⊎◌, refl, ap, sym, ◌∙◌, inl, inr, true, Option, none, some, arith, Bool-cases,
}
use arcagentx.Prelude.Int.{pos, ◌+ℤ◌, int_laws}
use arcagentx.Prelude.Text.{Text, text_eq_iff, to_lower}
use arcagentx.Accounting.{Usdc6}
use arcagentx.Ledger.{
  PaymentRecord, NewPayment, PaymentPatch, PaymentStatus, signed, settled, quoted, rejected, failed,
  MemoryLedger, record_payment, new_row, assign, find_row, update, counts, spent_since, either,
  is_spent, to_payee,
}
use arcagentx.Ledger.Spent.{share, spent_since-record_payment, spent_since-update}

-- Any payee, or the one of the address, whose case does not matter.
abbrev pub IsPayee : Option Text → Text → Type 0
IsPayee none payee = Unit
IsPayee (some pt) payee = payee ≡ to_lower pt

-- A payment of the agent, not before `since`, that is signed or settled, to the payee.
pub record IsCounted (agent : Text) (since : ℕ) (pay_to : Option Text) (who : Text) (at : ℕ)
    (status : PaymentStatus) (payee : Text) : Type 0 where
  pub own : who ≡ agent
  pub in_window : since ≤ at
  pub spent : (status ≡ signed) ⊎ (status ≡ settled)
  pub to : IsPayee pay_to payee

-- The amount where it counts, and nothing where it does not.
pub record IsShare (C : Type 0) (amount c : Usdc6) : Type 0 where
  pub counted : C → c ≡ amount
  pub left_out : ¬ C → c ≡ pos 0

is_spent_iff : (s : PaymentStatus) → (is_spent s ≡ true) ↔ ((s ≡ signed) ⊎ (s ≡ settled))
is_spent_iff quoted = (λ e. cc, λ h. elim h [ inl e ↦ cc | inr e ↦ cc ])
is_spent_iff rejected = (λ e. cc, λ h. elim h [ inl e ↦ cc | inr e ↦ cc ])
is_spent_iff failed = (λ e. cc, λ h. elim h [ inl e ↦ cc | inr e ↦ cc ])
is_spent_iff signed = (λ e. inl refl, λ h. refl)
is_spent_iff settled = (λ e. inr refl, λ h. refl)

to_payee_iff : (o : Option Text) (t : Text) → (to_payee o t ≡ true) ↔ IsPayee o t
to_payee_iff none t = (λ e. tt, λ h. refl)
to_payee_iff (some pt) t = text_eq_iff t (to_lower pt)

module _ (agent : Text) (since : ℕ) (pay_to : Option Text) where
  -- A row counts exactly when it is one that the contract speaks of.
  counts-IsCounted :
      (r : PaymentRecord)
      → (counts agent since pay_to r ≡ true)
        ↔ IsCounted agent since pay_to r.agent_id r.at r.status r.pay_to
  unfolding counts
  counts-IsCounted r =
      let (who, is_who) = text_eq_iff r.agent_id agent in
      let (state, is_state) = is_spent_iff r.status in
      let (payee, is_payee) = to_payee_iff pay_to r.pay_to in
      (
        λ e. record {
          own = who (ground arith);
          in_window = ground arith;
          spent = state (ground arith);
          to = payee (ground arith);
        },
        λ h.
            let a = is_who h.own in
            let b = is_state h.spent in
            let c = is_payee h.to in let d = h.in_window in ground arith,
      )

  share-counted :
      (r : PaymentRecord)
      → IsCounted agent since pay_to r.agent_id r.at r.status r.pay_to
      → share agent since pay_to r ≡ r.amount
  share-counted r h = rw ((counts-IsCounted r).1 h) refl

  share-left_out :
      (r : PaymentRecord)
      → ¬ IsCounted agent since pay_to r.agent_id r.at r.status r.pay_to
      → share agent since pay_to r ≡ pos 0
  share-left_out r h = elim (Bool-cases (counts agent since pay_to r)) [
    | inl yes_counts ↦ absurd (h ((counts-IsCounted r).0 yes_counts))
    | inr other ↦ rw other refl
  ]

  share-IsShare :
      (r : PaymentRecord) (c : Usdc6)
      → IsShare (IsCounted agent since pay_to r.agent_id r.at r.status r.pay_to) r.amount c
      → c ≡ share agent since pay_to r
  share-IsShare r c h = elim (Bool-cases (counts agent since pay_to r)) [
    | inl counted ↦ let k = (counts-IsCounted r).0 counted in h.counted k ∙ sym (share-counted r k)
    | inr other ↦
        let k : ¬ IsCounted agent since pay_to r.agent_id r.at r.status r.pay_to =
          λ i. let t = (counts-IsCounted r).1 i in cc in
        h.left_out k ∙ sym (share-left_out r k)
  ]

  -- A recorded payment raises what the agent has spent by its amount, if it is the agent's, is made
  -- in the window, is signed or settled, and goes to the payee asked for, in any case of its address;
  -- otherwise it leaves it as it was.
  pub spent_since-recorded :
      (now : ℕ) (p : NewPayment) (l : MemoryLedger)
      → (IsCounted agent since pay_to p.agent_id now p.status (to_lower p.pay_to)
          → spent_since agent since pay_to (record_payment now p l).0
            ≡ spent_since agent since pay_to l +ℤ p.amount)
        × (¬ IsCounted agent since pay_to p.agent_id now p.status (to_lower p.pay_to)
            → spent_since agent since pay_to (record_payment now p l).0
              ≡ spent_since agent since pay_to l)
  spent_since-recorded now p l =
      let row = (record_payment now p l).1 in
      let moved = spent_since-record_payment agent since pay_to now p l in
      (
        λ h.
            let whole : share agent since pay_to row ≡ p.amount =
              unfold record_payment new_row in share-counted (new_row l.next_id now p) h in
            moved ∙ ap (λ a. spent_since agent since pay_to l +ℤ a) whole,
        λ h.
            let nothing : share agent since pay_to row ≡ pos 0 =
              unfold record_payment new_row in share-left_out (new_row l.next_id now p) h in
            moved ∙ ap (λ a. spent_since agent since pay_to l +ℤ a) nothing ∙ omega int_laws,
      )

  -- A patch of a row that is there takes away what the row counted for, and adds what it counts for
  -- with the patch's status and amount, where it has them: its amount if it is the agent's, in the
  -- window, signed or settled, and to the payee asked for, and nothing otherwise.
  pub spent_since-patched :
      (id : ℕ) (p : PaymentPatch) (l : MemoryLedger) (r : PaymentRecord) (before after : Usdc6)
      → find_row id l.rows ≡ some r
      → IsShare (IsCounted agent since pay_to r.agent_id r.at r.status r.pay_to) r.amount before
      → IsShare
          (IsCounted agent since pay_to r.agent_id r.at (either p.status r.status) r.pay_to)
          (either p.amount r.amount)
          after
      → spent_since agent since pay_to (update id p l) +ℤ before
        ≡ spent_since agent since pay_to l +ℤ after
  spent_since-patched id p l r before after found old new =
      let taken = share-IsShare r before old in
      let added : after ≡ share agent since pay_to (assign p r) =
        unfold assign in share-IsShare (assign p r) after new in
      rw (taken, added) (spent_since-update agent since pay_to id p l r found)
