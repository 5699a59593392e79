-- ===== src/Router/Rail/Gate.antt =====
-- The gate before a signature: when it opens, and what a refusal leaves behind.
use arcagentx.Prelude.{
  ℕ, ◌≡◌, ◌↔◌, refl, ◌∙◌, Bool, true, false, Option, none, some, ◌++◌, arith, if◌then◌else◌,
}
use arcagentx.Prelude.Int.{pos, ◌≤ℤ◌, int_laws}
use arcagentx.Prelude.Text.{Text, codes}
use arcagentx.Accounting.{Usdc6, compare_usdc6}
use arcagentx.Policy.{PolicyRule, PolicyDecision, allow, deny}
use arcagentx.Policy.Decision.{Holds, evaluate_policy-allow_iff}
use arcagentx.Ledger.{
  MemoryLedger, rejected, RailKind, record_payment, new_row, counts, spent_since,
}
use arcagentx.Ledger.Spent.{share, spent_since-record_payment}
use arcagentx.Router.Rail.{
  RailConfig, Request, Requirements, Outcome, to_escrow, policy_context, build_quote, is_escrow,
  with_ceiling, payment_for, reject, conclude, before_payment,
}

abbrev pub Under : Option Usdc6 → Usdc6 → Type 0
Under none price = Unit
Under (some ceiling) price = price ≤ℤ ceiling

-- What has to hold before anything is signed.
pub record Cleared (cfg : RailConfig) (now : ℕ) (r : Request) (req : Requirements)
    (l : MemoryLedger) : Type 0 where
  pub not_escrow : is_escrow (build_quote cfg l now req r).route.rail ≡ false
  pub holds : (rule : PolicyRule) → Holds cfg.policy (policy_context cfg l now req r) rule
  pub under : Under r.ceiling req.amount

with_ceiling-allow_iff :
    (price : Usdc6) (c : Option Usdc6) (d : PolicyDecision)
    → (with_ceiling price c d ≡ allow) ↔ ((d ≡ allow) × Under c price)
unfolding with_ceiling compare_usdc6
with_ceiling-allow_iff price none d = ((λ e. (e, tt)), λ h. h.0)
with_ceiling-allow_iff price (some c) allow = ground arith
with_ceiling-allow_iff price (some c) (deny rule reason) = ground arith

module _ (cfg : RailConfig) (now : ℕ) (r : Request) (req : Requirements) (l : MemoryLedger) where
  pub reject-spent :
      (rail : RailKind) (why : Text) (agent : Text) (since : ℕ) (pay_to : Option Text)
      → spent_since agent since pay_to (reject cfg now r req rail why l)
        ≡ spent_since agent since pay_to l
  unfolding reject
  reject-spent rail why agent since pay_to =
      let p = payment_for cfg r req rail rejected (some why) none in
      let zero_share : share agent since pay_to (new_row l.next_id now p) ≡ pos 0 =
        unfold new_row payment_for counts in ground arith in
      spent_since-record_payment agent since pay_to now p l
      ∙ (unfold record_payment in rw zero_share (omega int_laws))

  abbrev pub gate : Bool → PolicyDecision → MemoryLedger × Outcome
  gate to_job d =
      let quote = build_quote cfg l now req r in
      if to_job
      then (
        reject cfg now r req RailKind.escrow
            (codes "escrow rail not executable yet: " ++ quote.route.reason) l,
        to_escrow quote,
      )
      else conclude cfg now r req l quote d

  gate-spent :
      (to_job : Bool) (d : PolicyDecision) (agent : Text) (since : ℕ) (pay_to : Option Text)
      → spent_since agent since pay_to (gate to_job d).0 ≡ spent_since agent since pay_to l
  unfolding conclude
  gate-spent true d agent since pay_to = reject-spent RailKind.escrow _ agent since pay_to
  gate-spent false allow agent since pay_to = refl
  gate-spent false (deny rule x) agent since pay_to =
      reject-spent RailKind.nanopayment _ agent since pay_to

-- The two tests of the gate, and what they mean.
pub Cleared-iff :
    (cfg : RailConfig) (now : ℕ) (r : Request) (req : Requirements) (l : MemoryLedger)
    → let quote = build_quote cfg l now req r in
      ((is_escrow quote.route.rail ≡ false)
        × (with_ceiling quote.price r.ceiling quote.policy ≡ allow))
      ↔ Cleared cfg now r req l
Cleared-iff cfg now r req l =
    let quote = build_quote cfg l now req r in
    let (passed, shut) = with_ceiling-allow_iff quote.price r.ceiling quote.policy in
    let (holds, allows) = evaluate_policy-allow_iff cfg.policy (policy_context cfg l now req r) in
    (
      λ e.
          let (p, u) = passed e.1 in
          record {
            not_escrow = e.0;
            holds = holds (unfold build_quote in p);
            under = unfold build_quote in u;
          },
      λ h. (h.not_escrow, unfold build_quote in shut (allows h.holds, h.under)),
    )

-- The gate alone spends nothing: what any agent has spent, in any window and with any counterparty,
-- is what it was.
pub before_payment-spent :
    (cfg : RailConfig) (now : ℕ) (r : Request) (req : Requirements) (l : MemoryLedger)
    (agent : Text) (since : ℕ) (pay_to : Option Text)
    → spent_since agent since pay_to (before_payment cfg now r req l).0
      ≡ spent_since agent since pay_to l
unfolding before_payment
before_payment-spent cfg now r req l agent since pay_to =
    let quote = build_quote cfg l now req r in
    gate-spent cfg now r req l (is_escrow quote.route.rail)
      (with_ceiling quote.price r.ceiling quote.policy) agent since pay_to
