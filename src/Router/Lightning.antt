-- ===== src/Router/Lightning.antt =====
-- packages/router/src/index.ts, `fetchLightning`: a payment over Lightning, from the checked offer
-- on. The wallet and the seller are parameters: what they answer is given.
pub mod Caps
use arcagentx.Prelude.{
  ℕ, ◌-◌, Bool, true, false, ◌&&◌, Option, none, some, List, ◌∷◌, ◌++◌, ◌==◌, if◌then◌else◌,
}
use arcagentx.Prelude.Text.{Text, codes, text_eq}
use arcagentx.Accounting.{Usdc6, compare_usdc6}
use arcagentx.Accounting.Decimal.{decimal}
use arcagentx.Policy.{
  PolicyRule, Reason, PolicyDecision, allow, deny, evaluate_policy, is_more, max_price,
  above_ceiling_in_sats,
}
use arcagentx.Policy.Wording.{rule_name, reason_text}
use arcagentx.Ledger.{
  MemoryLedger, PaymentRecord, PaymentPatch, PaymentStatus, signed, settled, failed, rejected,
  RailKind, record_payment, update, no_patch,
}
use arcagentx.Router.Rail.{RailConfig, Request, Requirements, policy_context, payment_for}

-- The offer that passed the checks, and the hash that its invoice names.
pub record LightningOffer : Type 0 where
  pub scheme : Text
  pub network : Text
  pub asset : Text
  pub pay_to : Text
  pub max_timeout_seconds : ℕ
  pub amount_msat : Text
  pub payment_hash : Text

pub data WalletAnswer : Type 0 where
  paid_with : Text → WalletAnswer
  in_flight : WalletAnswer
  unpaid : Text → WalletAnswer

-- The answer to the paid retry: the settlement it carries, its status, and the error that the offer in
-- its header names, if it can be read.
pub record SellerAnswer : Type 0 where
  pub success : Bool
  pub transaction : Option Text
  pub http_status : ℕ
  pub refusal : Option Text

pub data LightningOutcome : Type 0 where
  rejected_by : PolicyRule → Reason → LightningOutcome
  not_paid bought not_served unanswered : LightningOutcome

abbrev pub priced : LightningOffer → Usdc6 → Requirements
priced offer price = record {
  scheme = offer.scheme;
  network = offer.network;
  asset = offer.asset;
  pay_to = offer.pay_to;
  amount = price;
  max_timeout_seconds = offer.max_timeout_seconds;
}

-- `quote.policy.allow && ceiling !== null && compareUsdc6(price, ceiling) > 0`.
unfoldable pub with_ceiling_in_sats : Usdc6 → Option Usdc6 → PolicyDecision → PolicyDecision
with_ceiling_in_sats price none d = d
with_ceiling_in_sats price (some ceiling) allow =
    if is_more (compare_usdc6 price ceiling)
    then deny max_price (above_ceiling_in_sats price ceiling)
    else allow
with_ceiling_in_sats price (some ceiling) (deny rule reason) = deny rule reason

-- The policy's decision on the price, with no identity asked for, and the caller's ceiling.
unfoldable pub decide_lightning :
    RailConfig → ℕ → Request → Requirements → MemoryLedger → PolicyDecision
decide_lightning cfg now r req l =
    let unchecked : RailConfig = record cfg { verified = none } in
    with_ceiling_in_sats req.amount r.ceiling
      (evaluate_policy cfg.policy (policy_context unchecked l now req r))

-- `settlement?.success === true && settlement.transaction === paymentHash`.
unfoldable pub is_served : LightningOffer → SellerAnswer → Bool
is_served offer answer =
    answer.success
    && (elim answer.transaction [ none ↦ false | some hash ↦ text_eq hash offer.payment_hash ])

unfoldable pub unpaid_patch : ℕ → Text → PaymentPatch
unpaid_patch latency why = record no_patch {
  status = some failed;
  reason = some (some why);
  latency_ms = some (some latency);
}

-- The error counts only in a 402.
unfoldable pub refusal_of : SellerAnswer → Option Text
refusal_of answer = if answer.http_status == 402 then answer.refusal else none

-- An empty refusal is none.
unfoldable pub answer_text : ℕ → Option Text → Text
answer_text http_status (some (c ∷ error)) = codes "refused the proof: " ++ c ∷ error
answer_text http_status other =
    codes "answered " ++ decimal http_status ++ codes " without a receipt"

abbrev refusal_text : LightningOffer → SellerAnswer → Text
refusal_text offer answer =
    codes "paid "
    ++ offer.amount_msat
    ++ codes " msat, but the seller "
    ++ answer_text answer.http_status (refusal_of answer)

unfoldable pub paid_patch : ℕ → ℕ → LightningOffer → SellerAnswer → Text → PaymentPatch
paid_patch now latency offer answer meta =
    let ok = is_served offer answer in
    record no_patch {
      status = some (if ok then settled else failed);
      reason = some (if ok then none else some (refusal_text offer answer));
      tx_hash = some (some offer.payment_hash);
      http_status = some (some answer.http_status);
      latency_ms = some (some latency);
      settled_at = some (some now);
      meta = some (some meta);
    }

-- What the paid retry came to, which threw where there is no answer: then the row stays signed.
unfoldable pub after_retry :
    ℕ
    → ℕ
    → LightningOffer
    → (meta : Text) → PaymentRecord
    → MemoryLedger
    → Option SellerAnswer
    → MemoryLedger × LightningOutcome
after_retry done latency offer meta rec l none = (l, unanswered)
after_retry done latency offer meta rec l (some answer) = (
  update rec.id (paid_patch done latency offer answer meta) l,
  (if is_served offer answer then bought else not_served),
)

-- What the wallet answered, and then the seller: at `done`, of the row that was signed for.
unfoldable pub finish_lightning :
    ℕ
    → ℕ
    → LightningOffer
    → Option SellerAnswer
    → PaymentRecord
    → MemoryLedger
    → WalletAnswer
    → MemoryLedger × LightningOutcome
finish_lightning done latency offer answer rec l (paid_with meta) =
    after_retry done latency offer meta rec l answer
finish_lightning done latency offer answer rec l in_flight = (
  update rec.id
      (unpaid_patch latency (
        codes
          "the wallet did not answer in time: the payment may still complete; do not pay again"))
      l,
  not_paid,
)
finish_lightning done latency offer answer rec l (unpaid why) =
    (update rec.id (unpaid_patch latency why) l, not_paid)

-- From the decision on: a refusal is written down, and nothing is paid.
unfoldable pub conclude_lightning :
    RailConfig
    → ℕ
    → ℕ
    → Request
    → LightningOffer
    → Usdc6
    → Text
    → WalletAnswer
    → Option SellerAnswer
    → MemoryLedger
    → PolicyDecision
    → MemoryLedger × LightningOutcome
conclude_lightning cfg now done r offer price meta wallet answer l allow =
    let req = priced offer price in
    let noted =
      record_payment now (payment_for cfg r req RailKind.lightning signed none (some meta)) l in
    finish_lightning done (done - r.started_at) offer answer noted.1 noted.0 wallet
conclude_lightning cfg now done r offer price meta wallet answer l (deny rule why) = (
  (record_payment now
      (payment_for cfg r (priced offer price) RailKind.lightning rejected
        (some (rule_name rule ++ codes ": " ++ reason_text why)) (some meta))
      l).0,
  rejected_by rule why,
)

unfoldable pub fetch_lightning :
    RailConfig
    → ℕ
    → ℕ
    → Request
    → LightningOffer
    → Usdc6
    → Text
    → WalletAnswer
    → Option SellerAnswer
    → MemoryLedger
    → MemoryLedger × LightningOutcome
fetch_lightning cfg now done r offer price meta wallet answer l =
    conclude_lightning cfg now done r offer price meta wallet answer l
      (decide_lightning cfg now r (priced offer price) l)
