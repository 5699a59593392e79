-- ===== src/Router/Rail/History.antt =====
-- A history of the rail: time passes, one payment after another is made, and settlements are heard
-- of, in any order.
use arcagentx.Prelude.{
  ℕ, ◌-◌, ◌≤◌, ◌≡◌, inl, inr, Option, none, some, List, [], ◌∷◌, Bool-cases, ◌==◌,
}
use arcagentx.Prelude.Int.{pos, ◌≤ℤ◌}
use arcagentx.Prelude.Text.{Text}
use arcagentx.Policy.{SpendPolicy}
use arcagentx.Ledger.{MemoryLedger, PaymentRecord, signed, find_row, empty_ledger}
use arcagentx.Ledger.Spent.{Nonneg, spent_since-shares}
use arcagentx.Router.Rail.{
  RailConfig, Request, Requirements, SettleResponse, day_ms, pay, on_response,
}
use arcagentx.Router.Rail.Window.{cap, Within, Within-later, pay-Within}
use arcagentx.Router.Rail.Settle.{TookNoMore, on_response-Within}

-- The clock and the ledger.
pub record World : Type 0 where
  pub clock : ℕ
  pub ledger : MemoryLedger

-- A payment is decided at `clock` and written down at `at`; no settlement takes more than was
-- signed for; no price is negative.
pub data Step (cfg : RailConfig) : World → World → Type 0 where
  wait : (w : World) (later : ℕ) → w.clock ≤ later → Step cfg w (record w { clock = later })
  paying :
      (w : World) (at : ℕ) (r : Request) (req : Requirements)
      → w.clock ≤ at
      → pos 0 ≤ℤ req.amount
      → Step cfg w (record { clock = at; ledger = (pay cfg w.clock at r req w.ledger).0 })
  hearing :
      (w : World) (now : ℕ) (r : Request) (rec : PaymentRecord) (settle : Option SettleResponse)
      (error : Option Text)
      → w.clock ≤ now
      → find_row rec.id w.ledger.rows ≡ some rec
      → rec.status ≡ signed
      → TookNoMore rec settle
      → Step cfg w (record { clock = now; ledger = on_response now r rec settle error w.ledger })

pub data Reach (cfg : RailConfig) (s : World) : World → Type 0 where
  here : Reach cfg s s
  next : {t u : World} → Reach cfg s t → Step cfg t u → Reach cfg s u

Nonneg-find_row :
    (id : ℕ) (rs : List PaymentRecord) (r : PaymentRecord)
    → find_row id rs ≡ some r
    → Nonneg rs
    → pos 0 ≤ℤ r.amount
unfolding find_row
Nonneg-find_row id [] r e h = cc
Nonneg-find_row id (x ∷ rs) r e (p, h) = elim (Bool-cases (x.id == id)) [
  | inl found ↦ let same : x ≡ r = let f = rw found at e in cc in rw same at p
  | inr other ↦ let f : find_row id rs ≡ some r = rw other at e in Nonneg-find_row id rs r f h
]

Step-Within :
    {cfg : RailConfig} {s t : World}
    → Step cfg s t
    → Within cfg s.clock s.ledger
    → Within cfg t.clock t.ledger
Step-Within (wait w later h) i = Within-later _ w.clock later w.ledger h i
Step-Within (paying w at r req h p) i = pay-Within _ w.clock at r req w.ledger h p i
Step-Within (hearing w now r rec settle error h found e fits) i =
    on_response-Within _ w.clock now r rec settle error w.ledger h found e
      (Nonneg-find_row rec.id w.ledger.rows rec found i.nonneg) fits i

-- From a world within the caps, every world that the rail can come to is within them, over the day
-- that ends at its clock, in all and with each counterparty: for every sequence of waits, of payments
-- one at a time of prices that are not negative, and of settlements of signed payments that take no
-- more than was signed for.
pub Reach-Within :
    (cfg : RailConfig) (s t : World)
    → Reach cfg s t
    → Within cfg s.clock s.ledger
    → Within cfg t.clock t.ledger
Reach-Within cfg s _ here i = i
Reach-Within cfg s _ (next r st) i = Step-Within st (Reach-Within cfg s _ r i)

cap_nonneg :
    (p : SpendPolicy) (pay_to : Option Text)
    → pos 0 ≤ℤ p.daily_cap
    → pos 0 ≤ℤ p.per_counterparty_daily_cap
    → pos 0 ≤ℤ cap p pay_to
cap_nonneg p none d c = d
cap_nonneg p (some pt) d c = c

-- A new ledger is within caps that are not negative.
pub empty_ledger-Within :
    (cfg : RailConfig) (t : ℕ)
    → pos 0 ≤ℤ cfg.policy.daily_cap
    → pos 0 ≤ℤ cfg.policy.per_counterparty_daily_cap
    → Within cfg t empty_ledger
empty_ledger-Within cfg t d c = record {
  nonneg = tt;
  capped = λ sel.
      rw (spent_since-shares cfg.agent_id (t - day_ms) sel empty_ledger)
        (cap_nonneg cfg.policy sel d c);
}
