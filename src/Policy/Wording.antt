-- ===== src/Policy/Wording.antt =====
-- packages/policy/src/index.ts: the texts of the reasons, and `describePolicy`.
use arcagentx.Prelude.{Bool, Option, List, ◌++◌}
use arcagentx.Prelude.Int.{pos}
use arcagentx.Prelude.Text.{Text, codes}
use arcagentx.Accounting.{Usdc6}
use arcagentx.Accounting.Decimal.{decimal, format_units_to_decimal, format_usdc6, no_options}
use arcagentx.Policy.{
  SpendPolicy, RateLimit, PolicyRule, network, denylist, allowlist, per_payment, rate, daily,
  per_counterparty, identity, bond, max_price, Reason, network_not_allowed, is_denied,
  not_in_allowlist, exceeds_per_payment, too_many_payments, daily_reached, counterparty_reached,
  identity_unchecked, identity_unverified, bond_unknown, bond_below, above_ceiling,
  above_ceiling_in_sats,
}

abbrev pub usdc : Usdc6 → Text
usdc a = format_usdc6 a no_options

-- `${windowMs / 1000}`: at most three decimals.
unfoldable pub seconds : RateLimit → Text
seconds r = format_units_to_decimal (pos r.window_ms) 3 no_options

unfoldable pub rule_name : PolicyRule → Text
rule_name network = codes "network"
rule_name denylist = codes "denylist"
rule_name allowlist = codes "allowlist"
rule_name per_payment = codes "per_payment"
rule_name rate = codes "rate"
rule_name daily = codes "daily"
rule_name per_counterparty = codes "per_counterparty"
rule_name identity = codes "identity"
rule_name bond = codes "bond"
rule_name max_price = codes "max_price"

unfoldable pub reason_text : Reason → Text
unfolding seconds
reason_text (network_not_allowed n) = codes "network " ++ n ++ codes " not allowed"
reason_text (is_denied host pay_to) = host ++ codes " / " ++ pay_to ++ codes " is denied"
reason_text (not_in_allowlist host pay_to) =
    host ++ codes " / " ++ pay_to ++ codes " not in allowlist"
reason_text (exceeds_per_payment amount cap) =
    usdc amount ++ codes " USDC exceeds per-payment cap " ++ usdc cap
reason_text (too_many_payments count limit) =
    decimal count
    ++ codes " payments in "
    ++ seconds limit
    ++ codes "s window (max "
    ++ decimal limit.max_payments
    ++ codes ")"
reason_text (daily_reached after cap) =
    codes "would reach " ++ usdc after ++ codes " USDC in 24h, cap " ++ usdc cap
reason_text (counterparty_reached after pay_to cap) =
    codes "would reach "
    ++ usdc after
    ++ codes " USDC with "
    ++ pay_to
    ++ codes " in 24h, cap "
    ++ usdc cap
reason_text identity_unchecked = codes "seller identity could not be checked"
reason_text identity_unverified = codes "seller has no verified ERC-8004 identity"
reason_text bond_unknown = codes "seller bond unknown"
reason_text (bond_below posted required) =
    codes "seller bond " ++ usdc posted ++ codes " below required " ++ usdc required
reason_text (above_ceiling price ceiling) =
    codes "the seller asks "
    ++ usdc price
    ++ codes " USDC, above the "
    ++ usdc ceiling
    ++ codes " USDC ceiling set for this call"
reason_text (above_ceiling_in_sats price ceiling) =
    codes "the seller asks "
    ++ usdc price
    ++ codes " USDC in sats, above the "
    ++ usdc ceiling
    ++ codes " USDC ceiling set for this call"

pub record DescribedPolicy : Type 0 where
  pub per_payment_cap_usdc : Text
  pub daily_cap_usdc : Text
  pub per_counterparty_daily_cap_usdc : Text
  pub rate_limit : Text
  pub allowlist : Option (List Text)
  pub denylist : List Text
  pub allowed_networks : List Text
  pub require_verified_identity : Bool
  pub required_seller_bond_usdc : Text

unfoldable pub describe_policy : SpendPolicy → DescribedPolicy
describe_policy p = record {
  per_payment_cap_usdc = usdc p.per_payment_cap;
  daily_cap_usdc = usdc p.daily_cap;
  per_counterparty_daily_cap_usdc = usdc p.per_counterparty_daily_cap;
  rate_limit = decimal p.rate_limit.max_payments ++ codes "/" ++ seconds p.rate_limit ++ codes "s";
  allowlist = p.allowlist;
  denylist = p.denylist;
  allowed_networks = p.allowed_networks;
  require_verified_identity = p.require_verified_identity;
  required_seller_bond_usdc = usdc p.required_seller_bond;
}
