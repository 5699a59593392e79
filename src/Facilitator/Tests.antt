-- ===== src/Facilitator/Tests.antt =====
-- A facilitator with one address of its own and one registered seller.
use mathlib.Core.Path.{subst}
use arcagentx.Prelude.{◌≡◌, ◌↔◌, ◌⊎◌, refl, true, false, none, some, [], ◌∷◌, arith}
use arcagentx.Prelude.Int.{pos}
use arcagentx.Prelude.Text.{codes, to_lower, text_eq, text_eq_iff}
use arcagentx.Facilitator.Guard.{GuardRules, GuardedRequirements, refuse, Settles, refuse-none_iff}
use arcagentx.Facilitator.Sellers.{SellerRegistry, allowance_refusal, has, count_of}
use arcagentx.Facilitator.Sellers.Caps.{is_fixed, InAllowance, IsApart, HasAllowances}
use arcagentx.Facilitator.Sellers.Allowed.{HasRoom, allowance_refusal-none_iff}
use arcagentx.Facilitator.Service.{Facilitator, is_registered, settle}
use arcagentx.Facilitator.Service.History.{Step, Reach, OfSellers, Reach-WithinAllowances}

abbrev rules : GuardRules
rules = record {
  pay_to = codes "0xa1" ∷ [];
  assets = (codes "eip155:5042", codes "0x36") ∷ [];
  min_amount = pos 1;
  max_amount = pos 1_000_000;
}

abbrev payment : GuardedRequirements
payment = record {
  scheme = codes "exact";
  network = codes "eip155:5042";
  asset = codes "0x36";
  pay_to = codes "0xb2";
  amount = codes "2000";
}

-- Two settlements a day, of which one is used up.
abbrev registry : SellerRegistry
registry = record {
  file = none;
  daily_cap = 2;
  shared_daily_cap = some 2;
  sellers = (codes "0xb2", 0) ∷ [];
  counts = (codes "0xb2", 1) ∷ [];
  registered_today = 1;
  counts_day = 0;
}

abbrev facilitator : Facilitator
facilitator = record {
  rules = rules;
  sellers = some registry;
  gas = record { at = 0; wei = some 10 };
  reserve = 5;
}

refuse-none_iff_example :
    (refuse (is_registered facilitator.sellers) payment rules ≡ none)
    ↔ Settles (is_registered facilitator.sellers) payment rules
refuse-none_iff_example = refuse-none_iff (is_registered facilitator.sellers) payment rules

allowance_refusal-none_iff_example :
    ((allowance_refusal 7 (codes "0xb2") rules.pay_to registry (some 10) 5).1 ≡ none) ↔ (
      (is_fixed rules.pay_to (to_lower (codes "0xb2")) ≡ true)
      ⊎ (has (codes "0xb2") registry ≡ false)
      ⊎ HasRoom 7 (to_lower (codes "0xb2")) registry (some 10) 5)
allowance_refusal-none_iff_example =
    allowance_refusal-none_iff 7 (codes "0xb2") rules.pay_to registry (some 10) 5

start : InAllowance rules.pay_to registry
unfolding count_of
start = record { each = λ a e. ground arith; shared = λ c e. ground arith }

registry-IsApart : IsApart rules.pay_to registry
registry-IsApart a e =
    let known : text_eq (codes "0xb2") a ≡ true = ground arith in
    subst (λ x. is_fixed rules.pay_to x ≡ false) ((text_eq_iff (codes "0xb2") a).0 known) refl

registry-HasAllowances : HasAllowances registry
registry-HasAllowances = (omega arith, λ c e. ground arith)

abbrev settled_once : Facilitator
settled_once = (settle 7 9 (some 10) true payment facilitator).0

Reach-WithinAllowances_example :
    OfSellers (InAllowance settled_once.rules.pay_to) settled_once.sellers
Reach-WithinAllowances_example =
    Reach-WithinAllowances facilitator settled_once
      (Reach.next Reach.here (Step.settling facilitator 7 9 (some 10) true payment))
      registry-IsApart registry-HasAllowances start
