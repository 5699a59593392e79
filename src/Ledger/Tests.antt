-- ===== src/Ledger/Tests.antt =====
-- A ledger of two payments of one agent, and a settlement of the first.
use arcagentx.Prelude.{ℕ, ◌≡◌, ◌≢◌, inl, inr, refl, none, some, arith}
use arcagentx.Prelude.Int.{pos, ◌+ℤ◌}
use arcagentx.Prelude.Text.{Text, codes, to_lower}
use arcagentx.Ledger.{
  PaymentRecord, NewPayment, PaymentPatch, MemoryLedger, RailKind, no_patch, signed, settled,
  find_row, record_payment, new_row, update, spent_since, exposure, empty_ledger, either,
}
use arcagentx.Ledger.Counted.{IsCounted, IsShare, spent_since-recorded, spent_since-patched}
use arcagentx.Ledger.Patched.{IsPatched, find_row-IsPatched}
use arcagentx.Ledger.Exposure.{owed, owing, open_of, count_of, IsDistinct, exposure-owed}

abbrev coffee : NewPayment
coffee = record {
  agent_id = codes "bot";
  rail = RailKind.nanopayment;
  url = codes "https://api.test/x";
  host = codes "api.test";
  method = codes "GET";
  network = codes "eip155:5042";
  scheme = codes "exact";
  asset = codes "0x36";
  pay_to = codes "0xAB";
  amount = pos 2_000;
  status = signed;
  reason = none;
  http_status = none;
  latency_ms = none;
  tx_hash = none;
  payer = none;
  meta = none;
}

abbrev one : MemoryLedger
one = (record_payment 10 coffee empty_ledger).0

abbrev two : MemoryLedger
two = (record_payment 20 coffee one).0

abbrev first : PaymentRecord
first = new_row 1 10 coffee

abbrev settlement : PaymentPatch
settlement = record no_patch { status = some settled; amount = some (pos 1_500) }

two-find_row : find_row 1 two.rows ≡ some first
unfolding record_payment new_row find_row
two-find_row = refl

same_lower : to_lower (codes "0xAB") ≡ to_lower (codes "0xab")
unfolding to_lower
same_lower = refl

exposure-owed_example :
    IsDistinct (exposure two)
    × ((pt : Text)
        → (open_of pt (exposure two) ≡ owed pt two.rows)
          × (count_of pt (exposure two) ≡ owing pt two.rows))
exposure-owed_example = exposure-owed two

find_row-IsPatched_example :
    ((r : PaymentRecord)
      → find_row 1 two.rows ≡ some r
      → (r' : PaymentRecord) × (find_row 1 (update 1 settlement two).rows ≡ some r')
        × IsPatched settlement r r')
    × (find_row 1 two.rows ≡ none → find_row 1 (update 1 settlement two).rows ≡ none)
    × ((j : ℕ) → j ≢ 1 → find_row j (update 1 settlement two).rows ≡ find_row j two.rows)
find_row-IsPatched_example = find_row-IsPatched 1 settlement two

spent_since-recorded_example :
    (IsCounted (codes "bot") 0 none coffee.agent_id 20 coffee.status (to_lower coffee.pay_to)
      → spent_since (codes "bot") 0 none two
        ≡ spent_since (codes "bot") 0 none one +ℤ coffee.amount)
    × (¬ IsCounted (codes "bot") 0 none coffee.agent_id 20 coffee.status (to_lower coffee.pay_to)
        → spent_since (codes "bot") 0 none two ≡ spent_since (codes "bot") 0 none one)
spent_since-recorded_example = spent_since-recorded (codes "bot") 0 none 20 coffee one

-- The first payment counts before the patch and after it, from the start on.
before-IsShare :
    IsShare
      (IsCounted (codes "bot") 0 none first.agent_id first.at first.status first.pay_to)
      first.amount
      (pos 2_000)
unfolding new_row
before-IsShare = record {
  counted = λ h. refl;
  left_out =
      λ h. absurd (h (record { own = refl; in_window = omega arith; spent = inl refl; to = tt }));
}

after-IsShare :
    IsShare
      (IsCounted
        (codes "bot")
        0
        none
        first.agent_id
        first.at
        (either settlement.status first.status)
        first.pay_to)
      (either settlement.amount first.amount)
      (pos 1_500)
unfolding new_row
after-IsShare = record {
  counted = λ h. refl;
  left_out =
      λ h. absurd (h (record { own = refl; in_window = omega arith; spent = inr refl; to = tt }));
}

spent_since-patched_example :
    spent_since (codes "bot") 0 none (update 1 settlement two) +ℤ pos 2_000
    ≡ spent_since (codes "bot") 0 none two +ℤ pos 1_500
spent_since-patched_example =
    spent_since-patched (codes "bot") 0 none 1 settlement two first (pos 2_000) (pos 1_500)
      two-find_row before-IsShare after-IsShare
