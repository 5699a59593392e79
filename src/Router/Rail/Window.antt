-- ===== src/Router/Rail/Window.antt =====
-- The caps hold of what the ledger says was spent: a payment keeps the agent within them.
use arcagentx.Prelude.{
  ℕ, ◌-◌, ◌≤◌, ◌≡◌, refl, ap, inl, inr, Bool, true, false, Option, none, some, [], ◌∷◌, ◌++◌, arith,
  Bool-cases, All-append,
}
use arcagentx.Prelude.Int.{pos, ◌+ℤ◌, ◌≤ℤ◌, pos_part, neg_part, int_laws}
use arcagentx.Prelude.Text.{Text, text_eq, text_eq_iff, to_lower}
use arcagentx.Accounting.{Usdc6, add_usdc6}
use arcagentx.Policy.{SpendPolicy, PolicyRule, PolicyDecision, allow, deny, daily, per_counterparty}
use arcagentx.Policy.Decision.{Holds}
use arcagentx.Ledger.{
  MemoryLedger, PaymentRecord, NewPayment, signed, rejected, RailKind, record_payment, new_row,
  counts, spent_since,
}
use arcagentx.Ledger.Spent.{
  share, spent_since-record_payment, spent_since-antitone, spent_since-lower, Nonneg,
}
use arcagentx.Ledger.Counted.{spent_since-recorded}
use arcagentx.Router.Rail.{
  RailConfig, Request, Requirements, day_ms, policy_context, reject, conclude, payment_for,
  before_payment, after_payment, pay, sign_if_let,
}
use arcagentx.Router.Rail.Gate.{Cleared, Cleared-iff, gate, reject-spent}

-- The cap on what goes to anyone, and on what goes to one counterparty.
abbrev pub cap : SpendPolicy → Option Text → Usdc6
cap p none = p.daily_cap
cap p (some _) = p.per_counterparty_daily_cap

-- Over the day that ends at `t` the agent has spent no more than the caps, in all and with each
-- counterparty, and no amount is negative.
pub record Within (cfg : RailConfig) (t : ℕ) (l : MemoryLedger) : Type 0 where
  pub nonneg : Nonneg l.rows
  pub capped :
      (pay_to : Option Text)
      → spent_since cfg.agent_id (t - day_ms) pay_to l ≤ℤ cap cfg.policy pay_to

pub Within-later :
    (cfg : RailConfig) (t later : ℕ) (l : MemoryLedger)
    → t ≤ later
    → Within cfg t l
    → Within cfg later l
Within-later cfg t later l h w = record {
  nonneg = w.nonneg;
  capped = λ sel. omega (
    arith,
    w.capped sel,
    spent_since-antitone cfg.agent_id (t - day_ms) (later - day_ms) sel l (omega arith) w.nonneg,
  );
}

Nonneg-record_payment :
    (now : ℕ) (cfg : RailConfig) (l : MemoryLedger) (row : PaymentRecord)
    → pos 0 ≤ℤ row.amount
    → Nonneg l.rows
    → Nonneg (l.rows ++ row ∷ [])
Nonneg-record_payment now cfg l row p h =
    let last : Nonneg (row ∷ []) = (p, tt) in All-append _ l.rows (row ∷ []) h last

-- There is room for the price: over the last day in all, and with the counterparty.
pub record HasRoom (cfg : RailConfig) (now : ℕ) (req : Requirements) (l : MemoryLedger)
    : Type 0 where
  pub daily_room :
      spent_since cfg.agent_id (now - day_ms) none l +ℤ req.amount ≤ℤ cfg.policy.daily_cap
  pub seller_room :
      spent_since cfg.agent_id (now - day_ms) (some req.pay_to) l +ℤ req.amount
      ≤ℤ cfg.policy.per_counterparty_daily_cap

-- The rules of the policy leave room.
pub room-Holds :
    (cfg : RailConfig) (now : ℕ) (r : Request) (req : Requirements) (l : MemoryLedger)
    → ((rule : PolicyRule) → Holds cfg.policy (policy_context cfg l now req r) rule)
    → HasRoom cfg now req l
unfolding policy_context add_usdc6
room-Holds cfg now r req l holds = record {
  daily_room = holds daily;
  seller_room = holds per_counterparty;
}

module _ (cfg : RailConfig) (now at : ℕ) (r : Request) (req : Requirements) (rail : RailKind)
    (meta : Option Text) (l : MemoryLedger) where
  signing : NewPayment
  signing = payment_for cfg r req rail signed none meta

  after : MemoryLedger
  after = (record_payment at signing l).0

  signed_row : PaymentRecord
  signed_row = (record_payment at signing l).1

  after-spent :
      (pay_to : Option Text)
      → spent_since cfg.agent_id (at - day_ms) pay_to after
        ≡ spent_since cfg.agent_id (at - day_ms) pay_to l
          +ℤ share cfg.agent_id (at - day_ms) pay_to signed_row
  unfolding after signed_row
  after-spent pay_to = spent_since-record_payment cfg.agent_id (at - day_ms) pay_to at signing l

  share-signed :
      (pay_to : Option Text)
      → pos 0 ≤ℤ req.amount
      → share cfg.agent_id (at - day_ms) pay_to signed_row ≤ℤ req.amount
  unfolding signed_row signing record_payment new_row payment_for
  share-signed pay_to p = ground arith

  share-others :
      (pt : Text)
      → text_eq (to_lower req.pay_to) (to_lower pt) ≡ false
      → share cfg.agent_id (at - day_ms) (some pt) signed_row ≡ pos 0
  unfolding signed_row signing record_payment new_row payment_for counts
  share-others pt e = ground arith

  -- A payment that there is room for still fits when it is written down: in all, and with each
  -- counterparty.
  signed-fits :
      (pay_to : Option Text)
      → now ≤ at
      → pos 0 ≤ℤ req.amount
      → Within cfg now l
      → HasRoom cfg now req l
      → spent_since cfg.agent_id (at - day_ms) pay_to after ≤ℤ cap cfg.policy pay_to
  signed-fits none later p w c = rw (after-spent none) (
      omega (
        int_laws,
        spent_since-antitone cfg.agent_id (now - day_ms) (at - day_ms) none l (omega arith)
            w.nonneg,
        share-signed none p,
        c.daily_room,
      ))
  signed-fits (some pt) later p w c =
      let shrinks =
        spent_since-antitone cfg.agent_id (now - day_ms) (at - day_ms) (some pt) l (omega arith)
          w.nonneg in
      elim (Bool-cases (text_eq (to_lower req.pay_to) (to_lower pt))) [
        | inl same ↦
            let one_sum =
              spent_since-lower cfg.agent_id (now - day_ms) req.pay_to pt l
                ((text_eq_iff _ _).0 same) in
            rw (after-spent (some pt)) (
              omega (
                int_laws,
                shrinks,
                ap pos_part one_sum,
                ap neg_part one_sum,
                share-signed (some pt) p,
                c.seller_room,
              ))
        | inr other ↦
            rw (after-spent (some pt))
              (rw (share-others pt other) (omega (int_laws, shrinks, w.capped (some pt))))
      ]

  pub signed-Within :
      now ≤ at
      → pos 0 ≤ℤ req.amount
      → Within cfg now l
      → HasRoom cfg now req l
      → Within cfg at (record_payment at (payment_for cfg r req rail signed none meta) l).0
  unfolding after signing
  signed-Within later p w c = record {
    nonneg =
        unfold record_payment new_row payment_for in Nonneg-record_payment at cfg l _ p w.nonneg;
    capped = λ sel. signed-fits sel later p w c;
  }

pub reject-Within :
    (cfg : RailConfig) (t now : ℕ) (r : Request) (req : Requirements) (l : MemoryLedger)
    (rail : RailKind) (why : Text)
    → pos 0 ≤ℤ req.amount
    → Within cfg t l
    → Within cfg t (reject cfg now r req rail why l)
reject-Within cfg t now r req l rail why p w = record {
  nonneg =
      unfold reject record_payment new_row payment_for in
      Nonneg-record_payment now cfg l _ p w.nonneg;
  capped = λ sel.
      rw (reject-spent cfg now r req l rail why cfg.agent_id (t - day_ms) sel) (w.capped sel);
}

-- A payment that is written down as refused leaves an agent within its caps.
pub rejected-Within :
    (cfg : RailConfig) (t now : ℕ) (p : NewPayment) (l : MemoryLedger)
    → p.status ≡ rejected
    → pos 0 ≤ℤ p.amount
    → Within cfg t l
    → Within cfg t (record_payment now p l).0
rejected-Within cfg t now p l e q w = record {
  nonneg = unfold record_payment new_row in Nonneg-record_payment now cfg l _ q w.nonneg;
  capped = λ sel.
      rw
        ((spent_since-recorded cfg.agent_id (t - day_ms) sel now p l).1
          (λ h. elim h.spent [ inl s ↦ cc | inr s ↦ cc ]))
        (w.capped sel);
}

gate-Within :
    (cfg : RailConfig) (now at : ℕ) (r : Request) (req : Requirements) (l : MemoryLedger)
    (to_job : Bool) (d : PolicyDecision)
    → now ≤ at
    → pos 0 ≤ℤ req.amount
    → Within cfg now l
    → (to_job ≡ false → d ≡ allow → Cleared cfg now r req l)
    → Within cfg at (sign_if_let cfg at r req (gate cfg now r req l to_job d)).0
unfolding sign_if_let conclude after_payment
gate-Within cfg now at r req l true d later p w clear =
    reject-Within cfg at now r req l RailKind.escrow _ p (Within-later cfg now at l later w)
gate-Within cfg now at r req l false allow later p w clear =
    signed-Within cfg now at r req RailKind.nanopayment _ l later p w
      (room-Holds cfg now r req l (clear refl refl).holds)
gate-Within cfg now at r req l false (deny rule x) later p w clear =
    reject-Within cfg at now r req l RailKind.nanopayment _ p (Within-later cfg now at l later w)

-- A payment of a price that is not negative keeps an agent that is within its caps within them,
-- whether it goes through or not, in all and with each counterparty, over the day that ends when it
-- is written down.
pub pay-Within :
    (cfg : RailConfig) (now at : ℕ) (r : Request) (req : Requirements) (l : MemoryLedger)
    → now ≤ at
    → pos 0 ≤ℤ req.amount
    → Within cfg now l
    → Within cfg at (pay cfg now at r req l).0
unfolding pay before_payment
pay-Within cfg now at r req l later p w =
    gate-Within cfg now at r req l _ _ later p w (λ e d. (Cleared-iff cfg now r req l).0 (e, d))
