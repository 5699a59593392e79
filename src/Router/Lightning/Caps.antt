-- ===== src/Router/Lightning/Caps.antt =====
-- A payment over Lightning, and the caps.
use arcagentx.Prelude.{ℕ, ◌-◌, ◌≡◌, refl, ap, Option, none, some, arith}
use arcagentx.Prelude.Int.{pos, ◌≤ℤ◌, pos_part, neg_part, int_laws}
use arcagentx.Prelude.Text.{Text}
use arcagentx.Accounting.{Usdc6}
use arcagentx.Policy.{PolicyDecision, allow, deny}
use arcagentx.Policy.Decision.{evaluate_policy-allow_iff}
use arcagentx.Ledger.{
  MemoryLedger, NewPayment, PaymentRecord, PaymentPatch, signed, RailKind, record_payment, new_row,
  update, assign, find_row,
}
use arcagentx.Ledger.Spent.{spent_since-update}
use arcagentx.Ledger.Rows.{IsValid, find_row-record_payment}
use arcagentx.Router.Rail.{RailConfig, Request, Requirements, day_ms, payment_for, policy_context}
use arcagentx.Router.Rail.Window.{Within, HasRoom, room-Holds, signed-Within, rejected-Within}
use arcagentx.Router.Rail.Settle.{share-shrinks, Nonneg-assign_first}
use arcagentx.Router.Lightning.{
  LightningOffer, WalletAnswer, paid_with, in_flight, unpaid, SellerAnswer, priced, unpaid_patch,
  paid_patch, with_ceiling_in_sats, decide_lightning, after_retry, finish_lightning,
  conclude_lightning, fetch_lightning,
}

found_new :
    (now : ℕ) (p : NewPayment) (l : MemoryLedger)
    → IsValid l
    → let (l', row) = record_payment now p l in find_row row.id l'.rows ≡ some row
found_new now p l h =
    let id_new : (record_payment now p l).1.id ≡ l.next_id =
      unfold record_payment new_row in refl in
    let found = find_row-record_payment now p l (record_payment now p l).1.id h in ground arith

-- A patch of a signed row that leaves its amount keeps the agent within its caps.
closed-Within :
    (cfg : RailConfig) (t : ℕ) (p : PaymentPatch) (l : MemoryLedger) (row : PaymentRecord)
    → find_row row.id l.rows ≡ some row
    → row.status ≡ signed
    → pos 0 ≤ℤ row.amount
    → p.amount ≡ none
    → Within cfg t l
    → Within cfg t (update row.id p l)
closed-Within cfg t p l row found e q keeps w = record {
  nonneg =
      unfold update in
      Nonneg-assign_first row.id p l.rows (λ x h. unfold assign in rw keeps h) w.nonneg;
  capped = λ sel.
      let moved = spent_since-update cfg.agent_id (t - day_ms) sel row.id p l row found in
      omega (
        int_laws,
        ap pos_part moved,
        ap neg_part moved,
        share-shrinks cfg.agent_id (t - day_ms) sel row p e q (rw keeps (omega arith)),
        w.capped sel,
      );
}

-- What passes the ceiling passed the policy.
passed :
    (price : Usdc6) (ceiling : Option Usdc6) (d : PolicyDecision)
    → with_ceiling_in_sats price ceiling d ≡ allow
    → d ≡ allow
unfolding with_ceiling_in_sats
passed price none d e = e
passed price (some c) allow e = refl
passed price (some c) (deny rule why) e = cc

allowed-HasRoom :
    (cfg : RailConfig) (now : ℕ) (r : Request) (req : Requirements) (l : MemoryLedger)
    → decide_lightning cfg now r req l ≡ allow
    → HasRoom cfg now req l
unfolding decide_lightning
allowed-HasRoom cfg now r req l e =
    let unchecked : RailConfig = record cfg { verified = none } in
    let holds =
      (evaluate_policy-allow_iff cfg.policy (policy_context unchecked l now req r)).0
        (passed req.amount r.ceiling _ e) in
    let room = room-Holds unchecked now r req l holds in
    record { daily_room = room.daily_room; seller_room = room.seller_room }

module _ (cfg : RailConfig) (now done : ℕ) (r : Request) (offer : LightningOffer) (price : Usdc6)
    (meta : Text) (l : MemoryLedger) (valid : IsValid l) (p : pos 0 ≤ℤ price) where
  abbrev signing : NewPayment
  signing = payment_for cfg r (priced offer price) RailKind.lightning signed none (some meta)

  closes :
      (patch : PaymentPatch)
      → patch.amount ≡ none
      → Within cfg now (record_payment now signing l).0
      → Within cfg now
          (update (record_payment now signing l).1.id patch (record_payment now signing l).0)
  closes patch keeps w =
      closed-Within cfg now patch (record_payment now signing l).0 (record_payment now signing l).1
        (found_new now signing l valid) (unfold record_payment new_row payment_for in refl)
        (unfold record_payment new_row payment_for in p) keeps w

  finish_lightning-Within :
      (wallet : WalletAnswer) (answer : Option SellerAnswer)
      → Within cfg now (record_payment now signing l).0
      → Within cfg now
          (finish_lightning done
            (done - r.started_at)
            offer
            answer
            (record_payment now signing l).1
            (record_payment now signing l).0
            wallet).0
  unfolding finish_lightning after_retry
  finish_lightning-Within in_flight answer w = closes _ (unfold unpaid_patch in refl) w
  finish_lightning-Within (unpaid why) answer w = closes _ (unfold unpaid_patch in refl) w
  finish_lightning-Within (paid_with fees) none w = w
  finish_lightning-Within (paid_with fees) (some a) w = closes _ (unfold paid_patch in refl) w

  conclude_lightning-Within :
      (wallet : WalletAnswer) (answer : Option SellerAnswer) (d : PolicyDecision)
      → Within cfg now l
      → (d ≡ allow → HasRoom cfg now (priced offer price) l)
      → Within cfg now (conclude_lightning cfg now done r offer price meta wallet answer l d).0
  unfolding conclude_lightning
  conclude_lightning-Within wallet answer (deny rule why) w room =
      rejected-Within cfg now now _ l (unfold payment_for in refl) (unfold payment_for in p) w
  conclude_lightning-Within wallet answer allow w room = finish_lightning-Within wallet answer (
      signed-Within cfg now now r (priced offer price) RailKind.lightning (some meta) l
        (omega arith) p w (room refl))

-- In a ledger whose ids rise below the next one, a payment over Lightning of a price that is not
-- negative keeps an agent that is within its caps within them, in all and with each counterparty, over
-- the day that ends when it is written down: whether the policy refuses it, the wallet does not make
-- it, the paid retry throws, or the seller serves it or not. As everywhere in the ledger, only what is
-- signed or settled counts.
pub fetch_lightning-Within :
    (cfg : RailConfig) (now done : ℕ) (r : Request) (offer : LightningOffer) (price : Usdc6)
    (meta : Text) (wallet : WalletAnswer) (answer : Option SellerAnswer) (l : MemoryLedger)
    → IsValid l
    → pos 0 ≤ℤ price
    → Within cfg now l
    → Within cfg now (fetch_lightning cfg now done r offer price meta wallet answer l).0
unfolding fetch_lightning
fetch_lightning-Within cfg now done r offer price meta wallet answer l valid p w =
    conclude_lightning-Within cfg now done r offer price meta l valid p wallet answer
      (decide_lightning cfg now r (priced offer price) l) w
      (allowed-HasRoom cfg now r (priced offer price) l)
