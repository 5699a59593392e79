-- ===== src/Policy.antt =====
-- packages/policy/src/index.ts: the spending policy and its decision. A reason is kept as the
-- values that its text prints; times are whole milliseconds.
mod Tests
pub mod Decision
pub mod Parse
pub mod Wording
use arcagentx.Prelude.{
  ℕ, Bool, true, false, not, ◌&&◌, ◌||◌, Option, none, some, List, [], ◌∷◌, leb, if◌then◌else◌, any,
}
use arcagentx.Prelude.Int.{pos, ltb_ℤ}
use arcagentx.Prelude.Text.{Text, codes, text_eq, trim, to_lower}
use arcagentx.Accounting.{Usdc6, add_usdc6, compare_usdc6, Order, less, same, more}

pub record RateLimit : Type 0 where
  pub max_payments : ℕ
  pub window_ms : ℕ

pub record SpendPolicy : Type 0 where
  pub per_payment_cap : Usdc6
  pub daily_cap : Usdc6
  pub per_counterparty_daily_cap : Usdc6
  pub rate_limit : RateLimit
  pub allowlist : Option (List Text)
  pub denylist : List Text
  pub allowed_networks : List Text
  pub require_verified_identity : Bool
  pub required_seller_bond : Usdc6

pub record PolicyContext : Type 0 where
  pub amount : Usdc6
  pub network : Text
  pub pay_to : Text
  pub host : Text
  pub spent_in_window : Usdc6
  pub spent_in_window_with_counterparty : Usdc6
  pub payments_in_rate_window : ℕ
  pub identity_verified : Option Bool
  pub seller_bond : Option Usdc6

pub data PolicyRule : Type 0 where
  network denylist allowlist per_payment rate daily per_counterparty identity bond max_price :
      PolicyRule

-- The reasons, with the values that their texts print.
pub data Reason : Type 0 where
  network_not_allowed : Text → Reason
  is_denied not_in_allowlist : Text → Text → Reason
  exceeds_per_payment : Usdc6 → Usdc6 → Reason
  too_many_payments : ℕ → RateLimit → Reason
  daily_reached : Usdc6 → Usdc6 → Reason
  counterparty_reached : Usdc6 → Text → Usdc6 → Reason
  identity_unchecked identity_unverified bond_unknown : Reason
  bond_below above_ceiling above_ceiling_in_sats : Usdc6 → Usdc6 → Reason

pub data PolicyDecision : Type 0 where
  allow : PolicyDecision
  deny : PolicyRule → Reason → PolicyDecision

abbrev pub arc_mainnet : Text
arc_mainnet = codes "eip155:5042"

abbrev pub arc_testnet : Text
arc_testnet = codes "eip155:5042002"

-- The amounts are `parseUsdc6("0.05")`, `("5")` and `("1")`.
abbrev pub default_policy : SpendPolicy
default_policy = record {
  per_payment_cap = pos 50_000;
  daily_cap = pos 5_000_000;
  per_counterparty_daily_cap = pos 1_000_000;
  rate_limit = record { max_payments = 120; window_ms = 60_000 };
  allowlist = none;
  denylist = [];
  allowed_networks = arc_mainnet ∷ arc_testnet ∷ [];
  require_verified_identity = false;
  required_seller_bond = pos 0;
}

unfoldable pub norm : Text → Text
norm s = to_lower (trim s)

-- `list.some((d) => norm(d) === host || norm(d) === payTo)`.
unfoldable pub names : List Text → Text → Text → Bool
names list host pay_to = any (λ d. text_eq (norm d) host || text_eq (norm d) pay_to) list

-- `policy.allowlist !== null && !…`.
unfoldable pub shut_out : Option (List Text) → Text → Text → Bool
unfolding names
shut_out none host pay_to = false
shut_out (some list) host pay_to = not (names list host pay_to)

abbrev pub is_more : Order → Bool
is_more more = true
is_more _ = false

abbrev pub is_less : Order → Bool
is_less less = true
is_less _ = false

-- `ctx.identityVerified !== true`, and why.
unfoldable pub check_identity : Bool → Option Bool → PolicyDecision
check_identity true none = deny identity identity_unchecked
check_identity true (some false) = deny identity identity_unverified
check_identity true (some true) = allow
check_identity false verified = allow

unfoldable pub check_bond : Usdc6 → Option Usdc6 → PolicyDecision
unfolding compare_usdc6
check_bond required none = if ltb_ℤ (pos 0) required then deny bond bond_unknown else allow
check_bond required (some posted) =
    if ltb_ℤ (pos 0) required && is_less (compare_usdc6 posted required)
    then deny bond (bond_below posted required)
    else allow

infixl 5 ◌>>◌
-- The first failing check decides.
abbrev pub ◌>>◌ : PolicyDecision → PolicyDecision → PolicyDecision
allow >> later = later
deny r x >> later = deny r x

unfoldable pub evaluate_policy : SpendPolicy → PolicyContext → PolicyDecision
evaluate_policy policy ctx =
    let host = norm ctx.host in
    let pay_to = norm ctx.pay_to in
    let after_daily = add_usdc6 ctx.spent_in_window ctx.amount in
    let after_cp = add_usdc6 ctx.spent_in_window_with_counterparty ctx.amount in
    if not (any (text_eq ctx.network) policy.allowed_networks)
    then deny network (network_not_allowed ctx.network)
    else if names policy.denylist host pay_to
    then deny denylist (is_denied ctx.host ctx.pay_to)
    else if shut_out policy.allowlist host pay_to
    then deny allowlist (not_in_allowlist ctx.host ctx.pay_to)
    else if is_more (compare_usdc6 ctx.amount policy.per_payment_cap)
    then deny per_payment (exceeds_per_payment ctx.amount policy.per_payment_cap)
    else if leb policy.rate_limit.max_payments ctx.payments_in_rate_window
    then deny rate (too_many_payments ctx.payments_in_rate_window policy.rate_limit)
    else if is_more (compare_usdc6 after_daily policy.daily_cap)
    then deny daily (daily_reached after_daily policy.daily_cap)
    else if is_more (compare_usdc6 after_cp policy.per_counterparty_daily_cap)
    then deny per_counterparty
        (counterparty_reached after_cp ctx.pay_to policy.per_counterparty_daily_cap)
    else check_identity policy.require_verified_identity ctx.identity_verified
      >> check_bond policy.required_seller_bond ctx.seller_bond
