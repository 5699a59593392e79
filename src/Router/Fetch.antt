-- ===== src/Router/Fetch.antt =====
-- packages/router/src/index.ts, `fetch`: what is written down and returned once the paid request has
-- been answered or has thrown. The row is the one that the hooks left, and the receipt's signature
-- and the JSON of its meta are given.
pub mod Spend
use arcagentx.Prelude.{ℕ, ◌-◌, Bool, true, false, Option, none, some, take, if◌then◌else◌}
use arcagentx.Prelude.Text.{Text}
use arcagentx.Accounting.{Usdc6}
use arcagentx.Policy.{PolicyRule, Reason}
use arcagentx.Policy.Wording.{usdc}
use arcagentx.Ledger.{
  MemoryLedger, PaymentRecord, PaymentPatch, PaymentStatus, quoted, settled, failed, no_patch,
  update,
}
use arcagentx.Router.Rail.{Budget, Quote, is_escrow}

pub data ReceiptStatus : Type 0 where
  receipt_settled receipt_failed not_charged : ReceiptStatus

pub record Receipt : Type 0 where
  pub ledger_id : ℕ
  pub amount : Usdc6
  pub amount_usdc : Text
  pub pay_to : Text
  pub network : Text
  pub status : ReceiptStatus
  pub tx_hash : Option Text
  pub latency_ms : ℕ
  pub reason : Option Text
  pub resource : Text
  pub budget : Option Budget
  pub attestation : Option Text

pub data FetchError : Type 0 where
  policy_rejected : PolicyRule → Reason → FetchError
  escrow_not_implemented : Quote → FetchError
  thrown : Text → FetchError

-- How the paid request ended: with a status, or by throwing.
pub data Ending : Type 0 where
  responded : ℕ → Ending
  threw : Text → Ending

pub data Fetched : Type 0 where
  done : Option Receipt → Fetched
  error : FetchError → Fetched

-- What the hooks left for this request.
pub record InFlight : Type 0 where
  pub started_at : ℕ
  pub quote : Option Quote
  pub row : Option PaymentRecord
  pub rejected_by : Option (PolicyRule × Reason)
  pub attestation : Option Text
  pub new_meta : Option Text

unfoldable pub receipt_status : PaymentStatus → ReceiptStatus
receipt_status settled = receipt_settled
receipt_status quoted = not_charged
receipt_status _ = receipt_failed

abbrev budget_in : Option Quote → Option Budget
budget_in none = none
budget_in (some q) = some q.budget

unfoldable pub receipt_of : ℕ → InFlight → PaymentRecord → Receipt
receipt_of now mine row = record {
  ledger_id = row.id;
  amount = row.amount;
  amount_usdc = usdc row.amount;
  pay_to = row.pay_to;
  network = row.network;
  status = receipt_status row.status;
  tx_hash = row.tx_hash;
  latency_ms = now - mine.started_at;
  reason = row.reason;
  resource = row.url;
  budget = budget_in mine.quote;
  attestation = mine.attestation;
}

-- `rec.httpStatus === null`: the status and the latency of the answer.
unfoldable pub note_status : ℕ → ℕ → PaymentRecord → Option ℕ → MemoryLedger → MemoryLedger
note_status http_status latency row (some known) l = l
note_status http_status latency row none l =
    update row.id
      (record no_patch { http_status = some (some http_status); latency_ms = some (some latency) })
      l

-- The budget and the signed receipt are kept with the row.
unfoldable pub note_meta : PaymentRecord → Option Text → MemoryLedger → MemoryLedger
note_meta row none l = l
note_meta row (some meta) l = update row.id (record no_patch { meta = some (some meta) }) l

unfoldable pub answered_with :
    ℕ → ℕ → InFlight → Option PaymentRecord → MemoryLedger → MemoryLedger × Fetched
answered_with now http_status mine none l = (l, done none)
answered_with now http_status mine (some row) l = (
  note_meta row mine.new_meta
      (note_status http_status (now - mine.started_at) row row.http_status l),
  done (some (receipt_of now mine row)),
)

-- A row that was written down when the request threw is a payment that failed.
unfoldable pub note_failure : ℕ → Text → Option PaymentRecord → MemoryLedger → MemoryLedger
note_failure latency message none l = l
note_failure latency message (some row) l =
    update row.id
      (record no_patch {
        status = some failed;
        reason = some (some (take 300 message));
        latency_ms = some (some latency);
      })
      l

unfoldable pub escrow_or :
    ℕ → Text → InFlight → Option Quote → MemoryLedger → MemoryLedger × Fetched
escrow_or now message mine none l =
    (note_failure (now - mine.started_at) message mine.row l, error (thrown message))
escrow_or now message mine (some q) l =
    if is_escrow q.route.rail
    then (l, error (escrow_not_implemented q))
    else (note_failure (now - mine.started_at) message mine.row l, error (thrown message))

unfoldable pub threw_with :
    ℕ → Text → InFlight → Option (PolicyRule × Reason) → MemoryLedger → MemoryLedger × Fetched
threw_with now message mine (some (rule, why)) l = (l, error (policy_rejected rule why))
threw_with now message mine none l = escrow_or now message mine mine.quote l

unfoldable pub finish_fetch : ℕ → InFlight → Ending → MemoryLedger → MemoryLedger × Fetched
finish_fetch now mine (responded http_status) l = answered_with now http_status mine mine.row l
finish_fetch now mine (threw message) l = threw_with now message mine mine.rejected_by l
