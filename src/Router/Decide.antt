-- ===== src/Router/Decide.antt =====
-- packages/router/src/decide.ts: nanopayment or escrow.
use arcagentx.Prelude.{◌≡◌, ◌↔◌, ◌⊎◌, Bool, true, false, ℕ, ◌++◌, arith, if◌then◌else◌}
use arcagentx.Prelude.Int.{pos, ◌<ℤ◌}
use arcagentx.Prelude.Text.{Text, codes}
use arcagentx.Accounting.{Usdc6, compare_usdc6}
use arcagentx.Accounting.Decimal.{int_text}
use arcagentx.Policy.{is_more}

pub data RailChoice : Type 0 where
  nanopayment escrow : RailChoice

pub data Kind : Type 0 where
  call job : Kind

pub record RouteInput : Type 0 where
  pub amount : Usdc6
  pub kind : Kind
  pub supports_batching : Bool
  pub max_timeout_seconds : ℕ

pub record RouteThresholds : Type 0 where
  pub escrow_above : Usdc6

-- `parseUsdc6("5")`.
abbrev pub default_thresholds : RouteThresholds
default_thresholds = record { escrow_above = pos 5_000_000 }

pub record RouteDecision : Type 0 where
  pub rail : RailChoice
  pub reason : Text

abbrev is_job : Kind → Bool
is_job call = false
is_job job = true

unfoldable pub choose_rail : RouteInput → RouteThresholds → RouteDecision
choose_rail input t =
    if is_job input.kind
    then record {
      rail = escrow;
      reason = codes "job with a deliverable: ERC-8183 escrow with evaluator";
    }
    else if is_more (compare_usdc6 input.amount t.escrow_above)
    then record {
      rail = escrow;
      reason = codes "amount above nanopayment threshold " ++ int_text t.escrow_above;
    }
    else if input.supports_batching
    then record {
      rail = nanopayment;
      reason = codes "pay-per-call, seller supports Gateway batched settlement";
    }
    else record {
      rail = nanopayment;
      reason = codes "pay-per-call, on-chain exact settlement (seller does not batch)";
    }

-- A payment goes to escrow exactly when it is for a job or above the threshold; whether the seller
-- batches does not matter.
choose_rail-escrow_iff :
    (input : RouteInput) (t : RouteThresholds)
    → ((choose_rail input t).rail ≡ escrow)
      ↔ ((input.kind ≡ job) ⊎ (t.escrow_above <ℤ input.amount))
unfolding choose_rail compare_usdc6
choose_rail-escrow_iff input t = ground arith
