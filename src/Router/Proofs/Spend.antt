-- ===== src/Router/Proofs/Spend.antt =====
-- Proofs of settlement change no amount and no status.
use arcagentx.Prelude.{ℕ, ◌≡◌, refl, ◌∙◌, Option, none, some, List, [], ◌∷◌}
use arcagentx.Prelude.Text.{Text}
use arcagentx.Ledger.{MemoryLedger, PaymentRecord, spent_since, awaiting_proof}
use arcagentx.Ledger.Spent.{update-noted}
use arcagentx.Router.Proofs.{
  Sources, SettlementProof, proof_of, proved, resolve_row, resolve_rows, resolve_settlements,
}

module _ (agent : Text) (since : ℕ) (pay_to : Option Text) where
  resolve_row-spent :
      (o : Option SettlementProof) (found : MemoryLedger × List SettlementProof)
      → spent_since agent since pay_to (resolve_row o found).0
        ≡ spent_since agent since pay_to found.0
  unfolding resolve_row
  resolve_row-spent none (l, proofs) = refl
  resolve_row-spent (some p) (l, proofs) =
      update-noted agent since pay_to (proved p) p.ledger_id l refl refl

  resolve_rows-spent :
      (src : Sources) (now : ℕ) (rows : List PaymentRecord)
      (found : MemoryLedger × List SettlementProof)
      → spent_since agent since pay_to (resolve_rows src now rows found).0
        ≡ spent_since agent since pay_to found.0
  unfolding resolve_rows
  resolve_rows-spent src now [] found = refl
  resolve_rows-spent src now (row ∷ rows) found =
      let o = proof_of src now row row.tx_hash in
      resolve_rows-spent src now rows (resolve_row o found) ∙ resolve_row-spent o found

-- Looking for proofs of settlement leaves what any agent has spent, in any window and with any
-- counterparty, as it was, whatever the Gateway and the chain answer.
pub resolve_settlements-spent :
    (src : Sources) (now : ℕ) (who : Text) (limit : ℕ) (l : MemoryLedger) (agent : Text) (since : ℕ)
    (pay_to : Option Text)
    → spent_since agent since pay_to (resolve_settlements src now who limit l).0
      ≡ spent_since agent since pay_to l
unfolding resolve_settlements
resolve_settlements-spent src now who limit l agent since pay_to =
    resolve_rows-spent agent since pay_to src now (awaiting_proof who limit l) (l, [])
