-- ===== src/Router/Tests.antt =====
-- An agent under the default policy that pays a seller for up to 0.002 dollars, and is charged a
-- quarter of it.
use arcagentx.Prelude.{◌≡◌, refl, true, false, Option, none, some, arith}
use arcagentx.Prelude.Int.{pos, ◌≤ℤ◌}
use arcagentx.Prelude.Text.{Text, codes, is_base_units}
use arcagentx.Accounting.{Usdc6, compare_usdc6, add_usdc6, sum_usdc6}
use arcagentx.Accounting.Decimal.{value}
use arcagentx.Policy.{
  arc_mainnet, default_policy, evaluate_policy, names, shut_out, check_identity, check_bond,
}
use arcagentx.Ledger.{
  MemoryLedger, PaymentRecord, signed, find_row, new_row, record_payment, update, assign_first,
  assign, spent_since, count_since, empty_ledger,
}
use arcagentx.Router.Decide.{default_thresholds, choose_rail}
use arcagentx.Router.Rail.{
  RailConfig, conclude, with_ceiling, policy_context, Request, Requirements, SettleResponse,
  build_quote, before_payment, after_payment, payment_for, pay, taken, on_response, response_patch,
  row_patch,
}
use arcagentx.Router.Rail.Gate.{before_payment-spent}
use arcagentx.Router.Rail.Window.{Within, pay-Within}
use arcagentx.Router.Rail.Settle.{TookNoMore, on_response-Within}
use arcagentx.Ledger.Rows.{IsValid}
use arcagentx.Router.Lightning.{
  LightningOffer, paid_with, SellerAnswer, conclude_lightning, decide_lightning,
  with_ceiling_in_sats, finish_lightning, after_retry, unanswered, fetch_lightning,
}
use arcagentx.Router.Lightning.Caps.{fetch_lightning-Within}
use arcagentx.Router.Proofs.{Sources, resolve_settlements}
use arcagentx.Router.Proofs.Spend.{resolve_settlements-spent}
use arcagentx.Router.Fetch.{InFlight, responded, finish_fetch}
use arcagentx.Router.Fetch.Spend.{finish_fetch-spent}
use arcagentx.Router.Rail.History.{World, Reach, Reach-Within, Step, empty_ledger-Within}

abbrev cfg : RailConfig
cfg = record {
  agent_id = codes "bot";
  caip2 = arc_mainnet;
  policy = default_policy;
  thresholds = default_thresholds;
  verified = none;
  supports_batching = λ _. true;
  fingerprint = codes "f00d";
}

abbrev req : Requirements
req = record {
  scheme = codes "upto";
  network = arc_mainnet;
  asset = codes "0x36";
  pay_to = codes "0xAb";
  amount = pos 2_000;
  max_timeout_seconds = 300;
}

abbrev asked : Request
asked = record {
  url = codes "https://api.test/x";
  host = codes "api.test";
  method = codes "GET";
  started_at = 4;
  ceiling = some (pos 2_500);
}

start-Within : Within cfg 5 empty_ledger
start-Within = empty_ledger-Within cfg 5 (omega arith) (omega arith)

pay-Within_example : Within cfg 6 (pay cfg 5 6 asked req empty_ledger).0
pay-Within_example =
    pay-Within cfg 5 6 asked req empty_ledger (omega arith) (omega arith) start-Within

abbrev world : World
world = record { clock = 5; ledger = empty_ledger }

paid-Reach : Reach cfg world (record { clock = 6; ledger = (pay cfg 5 6 asked req empty_ledger).0 })
paid-Reach = Reach.next Reach.here (Step.paying world 6 asked req (omega arith) (omega arith))

Reach-Within_example : Within cfg 6 (pay cfg 5 6 asked req empty_ledger).0
Reach-Within_example =
    Reach-Within cfg world (record { clock = 6; ledger = (pay cfg 5 6 asked req empty_ledger).0 })
      paid-Reach start-Within

before_payment-spent_example :
    spent_since (codes "bot") 0 none (before_payment cfg 5 asked req empty_ledger).0
    ≡ spent_since (codes "bot") 0 none empty_ledger
before_payment-spent_example =
    before_payment-spent cfg 5 asked req empty_ledger (codes "bot") 0 none

-- The ledger after the signature, and the row that was signed.
abbrev paid : MemoryLedger
paid = (pay cfg 5 6 asked req empty_ledger).0

abbrev row : PaymentRecord
row = (after_payment cfg 6 asked req empty_ledger).1

abbrev quarter : Option SettleResponse
quarter = some (record {
  success = true;
  amount = some (codes "500");
  transaction = some (codes "0xfeed");
  payer = none;
  error_reason = none;
})

row-find_row : find_row row.id paid.rows ≡ some row
unfolding find_row pay before_payment after_payment record_payment build_quote choose_rail
    compare_usdc6 conclude with_ceiling evaluate_policy policy_context names shut_out count_since
    add_usdc6 spent_since sum_usdc6 check_identity check_bond new_row
row-find_row = refl

row-signed : row.status ≡ signed
unfolding after_payment record_payment new_row payment_for
row-signed = refl

row_nonneg : pos 0 ≤ℤ row.amount
unfolding after_payment record_payment new_row payment_for
row_nonneg = omega arith

five_hundred : (a : Usdc6) → some (pos 500) ≡ some a → a ≤ℤ pos 2_000
five_hundred a e = ground arith

quarter-TookNoMore : TookNoMore row quarter
unfolding after_payment record_payment new_row payment_for taken is_base_units value
quarter-TookNoMore a e = five_hundred a e

abbrev reason_in : Option PaymentRecord → Option (Option Text)
reason_in none = none
reason_in (some r) = some r.reason

on_response-Within_example : Within cfg 9 (on_response 9 asked row quarter none paid)
on_response-Within_example =
    on_response-Within cfg 6 9 asked row quarter none paid (omega arith) row-find_row row-signed
      row_nonneg quarter-TookNoMore pay-Within_example

-- The error's message does not stay in the ledger: the row's own reason is put over it.
reason_overwritten :
    reason_in (find_row row.id (on_response 9 asked row none (some (codes "timeout")) paid).rows)
    ≡ some none
unfolding find_row pay before_payment after_payment record_payment build_quote choose_rail
    compare_usdc6 conclude with_ceiling evaluate_policy policy_context names shut_out count_since
    add_usdc6 spent_since sum_usdc6 check_identity check_bond new_row on_response response_patch
    row_patch update assign_first assign
reason_overwritten = refl

-- A payment over Lightning whose proof the seller does not take.
abbrev offer : LightningOffer
offer = record {
  scheme = codes "exact";
  network = arc_mainnet;
  asset = codes "BTC";
  pay_to = codes "02ab";
  max_timeout_seconds = 300;
  amount_msat = codes "17000";
  payment_hash = codes "9f";
}

abbrev turned_down : SellerAnswer
turned_down = record {
  success = false;
  transaction = none;
  http_status = 402;
  refusal = some (codes "replayed");
}

empty-IsValid : IsValid empty_ledger
empty-IsValid = omega arith

fetch_lightning-Within_example :
    Within cfg 5
      (fetch_lightning cfg 5 8 asked offer
        (pos 2_000)
        (codes "{}")
        (paid_with (codes "{}"))
        (some turned_down)
        empty_ledger).0
fetch_lightning-Within_example =
    fetch_lightning-Within cfg 5 8 asked offer (pos 2_000) (codes "{}") (paid_with (codes "{}"))
      (some turned_down) empty_ledger empty-IsValid (omega arith) start-Within

-- The row of a paid retry that throws stays signed.
unanswered_stays :
    (fetch_lightning cfg 5 8 asked offer
      (pos 2_000)
      (codes "{}")
      (paid_with (codes "{}"))
      none
      empty_ledger).1
    ≡ unanswered
unfolding fetch_lightning conclude_lightning decide_lightning with_ceiling_in_sats evaluate_policy
    policy_context names shut_out compare_usdc6 count_since add_usdc6 spent_since sum_usdc6
    check_identity check_bond finish_lightning after_retry
unanswered_stays = refl

-- A Gateway that has completed every transfer, and a chain that does not answer.
abbrev sources : Sources
sources = record {
  transfer = λ id. some (record {
    status = some (codes "completed");
    tx_hash = some (codes "0xabc");
    updated_at = none;
  });
  block = λ hash. none;
}

resolve_settlements-spent_example :
    spent_since (codes "bot") 0 none (resolve_settlements sources 9 (codes "bot") 20 paid).0
    ≡ spent_since (codes "bot") 0 none paid
resolve_settlements-spent_example =
    resolve_settlements-spent sources 9 (codes "bot") 20 paid (codes "bot") 0 none

abbrev mine : InFlight
mine = record {
  started_at = 4;
  quote = none;
  row = some row;
  rejected_by = none;
  attestation = none;
  new_meta = some (codes "{}");
}

finish_fetch-spent_example :
    spent_since (codes "bot") 0 none (finish_fetch 9 mine (responded 200) paid).0
    ≡ spent_since (codes "bot") 0 none paid
finish_fetch-spent_example = finish_fetch-spent 9 200 mine paid (codes "bot") 0 none
