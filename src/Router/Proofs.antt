-- ===== src/Router/Proofs.antt =====
-- packages/router/src/index.ts, `resolveSettlements`: the transfers that settled payments on chain.
-- Circle's Gateway and the chain are parameters: what they answer about a transfer and about a
-- transaction, none where the call throws.
pub mod Spend
use arcagentx.Prelude.{
  ℕ, ◌*◌, Bool, true, false, ◌&&◌, ◌||◌, Option, none, some, List, [], ◌∷◌, ◌++◌, leb, ◌==◌, all,
  length, if◌then◌else◌,
}
use arcagentx.Prelude.Text.{Text, codes, text_eq, is_digit}
use arcagentx.Ledger.{MemoryLedger, PaymentRecord, PaymentPatch, no_patch, update, awaiting_proof}
use arcagentx.Policy.Wording.{usdc}

pub record GatewayTransfer : Type 0 where
  pub status : Option Text
  pub tx_hash : Option Text
  pub updated_at : Option ℕ

pub record SettlementProof : Type 0 where
  pub ledger_id : ℕ
  pub amount_usdc : Text
  pub pay_to : Text
  pub tx_hash : Text
  pub block_number : ℕ
  pub at : ℕ

-- What the Gateway and the chain answer: of a transaction, the number of its block, and the block's
-- time in seconds.
pub record Sources : Type 0 where
  pub transfer : Text → Option GatewayTransfer
  pub block : Text → Option (ℕ × Option ℕ)

abbrev is_id_code : ℕ → Bool
is_id_code c = is_digit c || (leb b'a' c && leb c b'f') || (leb b'A' c && leb c b'F') || c == b'-'

-- `/^[0-9a-f-]{36}$/i`.
abbrev is_transfer_id : Text → Bool
is_transfer_id s = length s == 36 && all is_id_code s

abbrev is_completed : Option Text → Bool
is_completed none = false
is_completed (some s) = text_eq s (codes "completed")

abbrev updated_or_now : ℕ → Option ℕ → ℕ
updated_or_now now none = now
updated_or_now now (some at) = at

-- The block and the time of the proof: the chain's, or else the transfer's, or else now.
abbrev when : ℕ → Option (ℕ × Option ℕ) → ℕ × ℕ
when otherwise none = (0, otherwise)
when otherwise (some (number, none)) = (number, otherwise)
when otherwise (some (number, some seconds)) = (number, seconds * 1000)

unfoldable pub proof_with :
    Sources → ℕ → PaymentRecord → GatewayTransfer → Option Text → Option SettlementProof
proof_with src now row t none = none
proof_with src now row t (some []) = none
proof_with src now row t (some (c ∷ hash)) =
    let seen = when (updated_or_now now t.updated_at) (src.block (c ∷ hash)) in
    let proof : SettlementProof = record {
      ledger_id = row.id;
      amount_usdc = usdc row.amount;
      pay_to = row.pay_to;
      tx_hash = c ∷ hash;
      block_number = seen.0;
      at = seen.1;
    } in
    if is_completed t.status then some proof else none

unfoldable pub proof_from :
    Sources → ℕ → PaymentRecord → Option GatewayTransfer → Option SettlementProof
proof_from src now row none = none
proof_from src now row (some t) = proof_with src now row t t.tx_hash

-- The proof of one row, if there is one yet.
unfoldable pub proof_of : Sources → ℕ → PaymentRecord → Option Text → Option SettlementProof
proof_of src now row none = none
proof_of src now row (some id) =
    if is_transfer_id id then proof_from src now row (src.transfer id) else none

abbrev pub proved : SettlementProof → PaymentPatch
proved p = record no_patch {
  settlement_tx = some (some p.tx_hash);
  settled_onchain_at = some (some p.at);
}

-- One row: what was proved is written down, and anything else is left for the next pass.
unfoldable pub resolve_row :
    Option SettlementProof
    → MemoryLedger × List SettlementProof
    → MemoryLedger × List SettlementProof
resolve_row none (l, proofs) = (l, proofs)
resolve_row (some p) (l, proofs) = (update p.ledger_id (proved p) l, proofs ++ p ∷ [])

-- The loop, with the proofs found so far.
unfoldable pub resolve_rows :
    Sources
    → ℕ
    → List PaymentRecord
    → MemoryLedger × List SettlementProof
    → MemoryLedger × List SettlementProof
resolve_rows src now [] found = found
resolve_rows src now (row ∷ rows) found =
    resolve_rows src now rows (resolve_row (proof_of src now row row.tx_hash) found)

unfoldable pub resolve_settlements :
    Sources → ℕ → Text → ℕ → MemoryLedger → MemoryLedger × List SettlementProof
resolve_settlements src now agent limit l =
    resolve_rows src now (awaiting_proof agent limit l) (l, [])
