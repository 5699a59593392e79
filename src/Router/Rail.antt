-- ===== src/Router/Rail.antt =====
-- packages/router/src/index.ts: the hooks that stand around a payment. What third parties answer
-- (whether the seller batches, whether its identity is verified, the policy's hash) comes with the
-- configuration, and `host` is the host of the URL.
pub mod Gate
pub mod Window
pub mod Settle
pub mod History
use arcagentx.Prelude.{
  ℕ, zero, suc, ◌+◌, ◌-◌, ◌*◌, Bool, true, false, ◌&&◌, not, Option, none, some, List, [], ◌∷◌,
  ◌++◌, if◌then◌else◌,
}
use arcagentx.Prelude.Int.{pos, leb_ℤ}
use arcagentx.Prelude.Text.{Text, codes, text_eq, is_base_units}
use arcagentx.Accounting.{Usdc6, add_usdc6, compare_usdc6, headroom_usdc6}
use arcagentx.Accounting.Decimal.{value, or_else}
use arcagentx.Policy.{
  SpendPolicy, PolicyContext, PolicyRule, max_price, Reason, above_ceiling, PolicyDecision, allow,
  deny, evaluate_policy, is_more, network, network_not_allowed,
}
use arcagentx.Policy.Wording.{usdc, rule_name, reason_text}
use arcagentx.Ledger.{
  MemoryLedger, PaymentRecord, NewPayment, PaymentPatch, PaymentStatus, quoted, rejected, signed,
  settled, failed, RailKind, record_payment, update, assign, spent_since, count_since, no_patch,
}
use arcagentx.Router.Decide.{
  RouteDecision, RouteThresholds, RailChoice, nanopayment, escrow, call, choose_rail,
}

-- `PaymentRequirements`, with the amount that its text stands for.
pub record Requirements : Type 0 where
  pub scheme : Text
  pub network : Text
  pub asset : Text
  pub pay_to : Text
  pub amount : Usdc6
  pub max_timeout_seconds : ℕ

-- The request in flight: what the hooks are told of it.
pub record Request : Type 0 where
  pub url : Text
  pub host : Text
  pub method : Text
  pub started_at : ℕ
  pub ceiling : Option Usdc6

pub record RailConfig : Type 0 where
  pub agent_id : Text
  pub caip2 : Text
  pub policy : SpendPolicy
  pub thresholds : RouteThresholds
  pub verified : Option (Text → Bool)
  pub supports_batching : Requirements → Bool
  pub fingerprint : Text

abbrev pub day_ms : ℕ
day_ms = 24 * 3600 * 1000

-- `identity ? identity.verified : null`.
abbrev pub identity_of : Option (Text → Bool) → Text → Option Bool
identity_of none pay_to = none
identity_of (some resolve) pay_to = some (resolve pay_to)

unfoldable pub policy_context :
    RailConfig → MemoryLedger → ℕ → Requirements → Request → PolicyContext
policy_context cfg l now req r =
    let since = now - day_ms in
    let rate_since = now - cfg.policy.rate_limit.window_ms in
    record {
      amount = req.amount;
      network = req.network;
      pay_to = req.pay_to;
      host = r.host;
      spent_in_window = spent_since cfg.agent_id since none l;
      spent_in_window_with_counterparty = spent_since cfg.agent_id since (some req.pay_to) l;
      payments_in_rate_window = count_since cfg.agent_id rate_since l;
      identity_verified = identity_of cfg.verified req.pay_to;
      seller_bond = none;
    }

pub record Budget : Type 0 where
  pub per_payment_cap_usdc : Text
  pub daily_cap_usdc : Text
  pub per_seller_cap_usdc : Text
  pub spent_today_before_usdc : Text
  pub spent_with_seller_before_usdc : Text
  pub left_today_after_usdc : Text
  pub left_with_seller_after_usdc : Text
  pub policy_hash : Text

unfoldable pub budget_of : RailConfig → Usdc6 → PolicyContext → Budget
budget_of cfg price ctx =
    let p = cfg.policy in
    let with_seller = ctx.spent_in_window_with_counterparty in
    record {
      per_payment_cap_usdc = usdc p.per_payment_cap;
      daily_cap_usdc = usdc p.daily_cap;
      per_seller_cap_usdc = usdc p.per_counterparty_daily_cap;
      spent_today_before_usdc = usdc ctx.spent_in_window;
      spent_with_seller_before_usdc = usdc with_seller;
      left_today_after_usdc =
          usdc (headroom_usdc6 p.daily_cap (add_usdc6 ctx.spent_in_window price));
      left_with_seller_after_usdc =
          usdc (headroom_usdc6 p.per_counterparty_daily_cap (add_usdc6 with_seller price));
      policy_hash = cfg.fingerprint;
    }

pub record Quote : Type 0 where
  pub url : Text
  pub host : Text
  pub price : Usdc6
  pub price_usdc : Text
  pub network : Text
  pub scheme : Text
  pub asset : Text
  pub pay_to : Text
  pub batching : Bool
  pub route : RouteDecision
  pub policy : PolicyDecision
  pub budget : Budget

unfoldable pub build_quote : RailConfig → MemoryLedger → ℕ → Requirements → Request → Quote
build_quote cfg l now req r =
    let batching = cfg.supports_batching req in
    let ctx = policy_context cfg l now req r in
    record {
      url = r.url;
      host = r.host;
      price = req.amount;
      price_usdc = usdc req.amount;
      network = req.network;
      scheme = req.scheme;
      asset = req.asset;
      pay_to = req.pay_to;
      batching = batching;
      route =
          choose_rail
            (record {
              amount = req.amount;
              kind = call;
              supports_batching = batching;
              max_timeout_seconds = req.max_timeout_seconds;
            })
            cfg.thresholds;
      policy = evaluate_policy cfg.policy ctx;
      budget = budget_of cfg req.amount ctx;
    }

-- The first offer on the agent's network that batches, else the first on it.
abbrev pub pick : RailConfig → List Requirements → Option Requirements → Option Requirements
pick cfg [] first = first
pick cfg (a ∷ accepts) first =
    let later = pick cfg accepts first in
    let kept = pick cfg accepts (some (or_else first a)) in
    if not (text_eq a.network cfg.caip2)
    then later
    else if cfg.supports_batching a
    then some a
    else kept

unfoldable pub pick_requirements : RailConfig → List Requirements → Option Requirements
pick_requirements cfg accepts = pick cfg accepts none

-- What the rail writes down for this request.
unfoldable pub payment_for :
    RailConfig
    → Request
    → Requirements
    → RailKind
    → PaymentStatus
    → Option Text
    → Option Text
    → NewPayment
payment_for cfg r req rail status reason meta = record {
  agent_id = cfg.agent_id;
  rail = rail;
  url = r.url;
  host = r.host;
  method = r.method;
  network = req.network;
  scheme = req.scheme;
  asset = req.asset;
  pay_to = req.pay_to;
  amount = req.amount;
  status = status;
  reason = reason;
  http_status = none;
  latency_ms = none;
  tx_hash = none;
  payer = none;
  meta = meta;
}

pub data Outcome : Type 0 where
  proceed to_escrow : Quote → Outcome
  refused : PolicyRule → Reason → Quote → Outcome

abbrev pub is_escrow : RailChoice → Bool
is_escrow escrow = true
is_escrow nanopayment = false

-- `ceiling !== null && compareUsdc6(price, ceiling) > 0`, and the decision it makes.
unfoldable pub with_ceiling : Usdc6 → Option Usdc6 → PolicyDecision → PolicyDecision
with_ceiling price none d = d
with_ceiling price (some ceiling) allow =
    if is_more (compare_usdc6 price ceiling)
    then deny max_price (above_ceiling price ceiling)
    else allow
with_ceiling price (some ceiling) (deny rule reason) = deny rule reason

-- `cfg.ledger.record({ …, status: "rejected", reason })`.
unfoldable pub reject :
    RailConfig → ℕ → Request → Requirements → RailKind → Text → MemoryLedger → MemoryLedger
reject cfg now r req rail why l =
    (record_payment now (payment_for cfg r req rail rejected (some why) none) l).0

-- The two refusals, and the way through.
unfoldable pub conclude :
    RailConfig
    → ℕ
    → Request
    → Requirements
    → MemoryLedger
    → Quote
    → PolicyDecision
    → MemoryLedger × Outcome
unfolding reject
conclude cfg now r req l quote allow = (l, proceed quote)
conclude cfg now r req l quote (deny rule reason) = (
  reject cfg now r req RailKind.nanopayment (rule_name rule ++ codes ": " ++ reason_text reason) l,
  refused rule reason quote,
)

-- `client.onBeforePaymentCreation`: a refusal is written down, and nothing is signed.
unfoldable pub before_payment :
    RailConfig → ℕ → Request → Requirements → MemoryLedger → MemoryLedger × Outcome
before_payment cfg now r req l =
    let quote = build_quote cfg l now req r in
    if is_escrow quote.route.rail
    then (
      reject cfg now r req RailKind.escrow
          (codes "escrow rail not executable yet: " ++ quote.route.reason) l,
      to_escrow quote,
    )
    else conclude cfg now r req l quote (with_ceiling quote.price r.ceiling quote.policy)

abbrev bool_text : Bool → Text
bool_text true = codes "true"
bool_text false = codes "false"

-- The JSON of `{ batching, ...upto }`.
unfoldable pub meta_text : RailConfig → Requirements → Text
meta_text cfg req =
    let upto =
      if text_eq req.scheme (codes "upto")
      then codes ",\"upto\":{\"ceilingUsdc\":\"" ++ usdc req.amount ++ codes "\"}"
      else codes "" in
    codes "{\"batching\":" ++ bool_text (cfg.supports_batching req) ++ upto ++ codes "}"

-- `client.onAfterPaymentCreation`.
unfoldable pub after_payment :
    RailConfig → ℕ → Request → Requirements → MemoryLedger → MemoryLedger × PaymentRecord
after_payment cfg now r req l =
    record_payment now
      (payment_for cfg r req RailKind.nanopayment signed none (some (meta_text cfg req))) l

pub record SettleResponse : Type 0 where
  pub success : Bool
  pub amount : Option Text
  pub transaction : Option Text
  pub payer : Option Text
  pub error_reason : Option Text

abbrev pub is_success : Option SettleResponse → Bool
is_success none = false
is_success (some s) = s.success

abbrev pub said_amount : Option SettleResponse → Option Text
said_amount none = none
said_amount (some s) = s.amount

-- What an `upto` settlement says that it took.
unfoldable pub taken : Bool → Text → Option Text → Option Usdc6
taken settled_now scheme none = none
taken settled_now scheme (some said) =
    if settled_now && text_eq scheme (codes "upto") && is_base_units said
    then some (pos (value said))
    else none

-- `s || null`.
abbrev pub nonempty_or_null : Option Text → Option Text
nonempty_or_null none = none
nonempty_or_null (some []) = none
nonempty_or_null (some (c ∷ s)) = some (c ∷ s)

abbrev field {ℓ} : {A : Type ℓ} → Option SettleResponse → (SettleResponse → Option A) → Option A
field none f = none
field (some s) f = f s

-- The seller's handler failed: nothing was charged.
abbrev pub not_charged : ℕ → PaymentPatch
not_charged latency = record no_patch {
  status = some quoted;
  reason =
      some
        (some (codes "not settled: the seller's handler failed, so the payment was never charged"));
  latency_ms = some (some latency);
}

-- `client.onPaymentResponse`: the patch of the record, from the settlement and the error, if any.
unfoldable pub response_patch :
    ℕ → ℕ → PaymentRecord → Option SettleResponse → Option Text → PaymentPatch
response_patch now started_at rec none none = not_charged (now - started_at)
response_patch now started_at rec settle error =
    let ok = is_success settle in
    let why =
      or_else (field settle (λ s. s.error_reason))
        (or_else error (codes "settlement not confirmed")) in
    record no_patch {
      amount = taken ok rec.scheme (said_amount settle);
      status = some (if ok then settled else failed);
      reason = some (if ok then none else some why);
      tx_hash = some (nonempty_or_null (field settle (λ s. s.transaction)));
      payer = some (field settle (λ s. s.payer));
      settled_at = some (if ok then some now else none);
      latency_ms = some (some (now - started_at));
    }

-- The assignments to the row itself, which is the one in the ledger: the reason is taken from the
-- settlement alone, and the other fields get what they have.
unfoldable pub row_patch : Option SettleResponse → Option Text → PaymentPatch
row_patch none none = no_patch
row_patch settle error = record no_patch {
  reason = some (if is_success settle then none else field settle (λ s. s.error_reason));
}

unfoldable pub on_response :
    ℕ → Request → PaymentRecord → Option SettleResponse → Option Text → MemoryLedger → MemoryLedger
on_response now r rec settle error l =
    update rec.id (row_patch settle error)
      (update rec.id (response_patch now r.started_at rec settle error) l)

unfoldable pub sign_if_let :
    RailConfig → ℕ → Request → Requirements → MemoryLedger × Outcome → MemoryLedger × Outcome
sign_if_let cfg at r req (l, proceed quote) = ((after_payment cfg at r req l).0, proceed quote)
sign_if_let cfg at r req (l, to_escrow quote) = (l, to_escrow quote)
sign_if_let cfg at r req (l, refused rule reason quote) = (l, refused rule reason quote)

-- A payment up to its signature: the gate, and the record of what was signed.
unfoldable pub pay :
    RailConfig → ℕ → ℕ → Request → Requirements → MemoryLedger → MemoryLedger × Outcome
unfolding sign_if_let
pay cfg now at r req l = sign_if_let cfg at r req (before_payment cfg now r req l)
