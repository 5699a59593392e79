-- ===== src/Router/Fetch/Spend.antt =====
-- The end of an answered request moves no money in the ledger.
use arcagentx.Prelude.{ℕ, ◌-◌, ◌≡◌, refl, ◌∙◌, Option, none, some}
use arcagentx.Prelude.Text.{Text}
use arcagentx.Ledger.{MemoryLedger, PaymentRecord, spent_since}
use arcagentx.Ledger.Spent.{update-noted}
use arcagentx.Router.Fetch.{
  InFlight, responded, note_status, note_meta, answered_with, finish_fetch,
}

module _ (agent : Text) (since : ℕ) (pay_to : Option Text) where
  note_status-spent :
      (http_status latency : ℕ) (row : PaymentRecord) (known : Option ℕ) (l : MemoryLedger)
      → spent_since agent since pay_to (note_status http_status latency row known l)
        ≡ spent_since agent since pay_to l
  unfolding note_status
  note_status-spent http_status latency row none l =
      update-noted agent since pay_to _ row.id l refl refl
  note_status-spent http_status latency row (some known) l = refl

  note_meta-spent :
      (row : PaymentRecord) (meta : Option Text) (l : MemoryLedger)
      → spent_since agent since pay_to (note_meta row meta l) ≡ spent_since agent since pay_to l
  unfolding note_meta
  note_meta-spent row none l = refl
  note_meta-spent row (some meta) l = update-noted agent since pay_to _ row.id l refl refl

  answered_with-spent :
      (now http_status : ℕ) (mine : InFlight) (o : Option PaymentRecord) (l : MemoryLedger)
      → spent_since agent since pay_to (answered_with now http_status mine o l).0
        ≡ spent_since agent since pay_to l
  unfolding answered_with
  answered_with-spent now http_status mine none l = refl
  answered_with-spent now http_status mine (some row) l =
      note_meta-spent row mine.new_meta
        (note_status http_status (now - mine.started_at) row row.http_status l)
      ∙ note_status-spent http_status (now - mine.started_at) row row.http_status l

-- Once a request has been answered, writing down its status, its receipt and its budget leaves what
-- any agent has spent, in any window and with any counterparty, as it was.
pub finish_fetch-spent :
    (now http_status : ℕ) (mine : InFlight) (l : MemoryLedger) (agent : Text) (since : ℕ)
    (pay_to : Option Text)
    → spent_since agent since pay_to (finish_fetch now mine (responded http_status) l).0
      ≡ spent_since agent since pay_to l
unfolding finish_fetch
finish_fetch-spent now http_status mine l agent since pay_to =
    answered_with-spent agent since pay_to now http_status mine mine.row l
