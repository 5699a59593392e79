-- ===== src/Facilitator/Service.antt =====
-- packages/facilitator/src/index.ts: the hooks around the SDK's verification and settlement, and
-- the routes for sellers. The SDK and the chain are parameters: what the SDK answers once no hook
-- aborts, and the balance that the chain tells, if it answers.
pub mod History
use arcagentx.Prelude.{
  ℕ, ◌-◌, ◌≡◌, refl, Bool, true, false, ◌||◌, Option, none, some, List, ◌++◌, ltb, if◌then◌else◌,
  any,
}
use arcagentx.Prelude.Text.{Text, codes, text_eq, to_lower}
use arcagentx.Facilitator.Guard.{GuardRules, GuardedRequirements, refuse}
use arcagentx.Facilitator.Sellers.{
  SellerRegistry, SellerStatus, has, add, status, allowance_refusal, record_settlement,
}

-- The balance as it was last read, and when.
pub record Gas : Type 0 where
  pub at : ℕ
  pub wei : Option ℕ

pub record Facilitator : Type 0 where
  pub rules : GuardRules
  pub sellers : Option SellerRegistry
  pub gas : Gas
  pub reserve : ℕ

-- `opts.sellers?.has(payTo) ?? false`.
abbrev pub is_registered : Option SellerRegistry → Text → Bool
is_registered none pay_to = false
is_registered (some s) pay_to = has pay_to s

-- `gasLeft`: the balance is read again when the last reading is more than a minute old.
unfoldable pub gas_left : ℕ → Option ℕ → Gas → Gas
gas_left now balance g = if ltb 60_000 (now - g.at) then record { at = now; wei = balance } else g

unfoldable pub ask_allowance :
    ℕ → Option ℕ → Text → Facilitator → Option SellerRegistry → Facilitator × Option Text
ask_allowance now balance pay_to f none = (f, none)
ask_allowance now balance pay_to f (some s) =
    let gas = if has pay_to s then gas_left now balance f.gas else f.gas in
    let read = if has pay_to s then gas.wei else none in
    let asked = allowance_refusal now pay_to f.rules.pay_to s read f.reserve in
    (record f { sellers = some asked.0; gas = gas }, asked.1)

-- `onBeforeVerify(guard).onBeforeVerify(allowance)`, and the same before a settlement: the first
-- reason aborts.
unfoldable pub after_guard :
    ℕ → Option ℕ → Text → Facilitator → Option Text → Facilitator × Option Text
after_guard now balance pay_to f (some reason) = (f, some reason)
after_guard now balance pay_to f none = ask_allowance now balance pay_to f f.sellers

unfoldable pub before_hooks :
    ℕ → Option ℕ → GuardedRequirements → Facilitator → Facilitator × Option Text
before_hooks now balance req f =
    after_guard now balance req.pay_to f (refuse (is_registered f.sellers) req f.rules)

pub data Answer : Type 0 where
  aborted : Text → Answer
  answered : Bool → Answer

-- `opts.sellers?.recordSettlement(payTo)`.
unfoldable pub note : ℕ → Text → Option SellerRegistry → Option SellerRegistry
note now pay_to none = none
note now pay_to (some s) = some (record_settlement now pay_to s)

-- `onAfterSettle`.
unfoldable pub after_settle : ℕ → Text → Bool → Facilitator → Facilitator
after_settle now pay_to false f = f
after_settle now pay_to true f = record f { sellers = note now pay_to f.sellers }

unfoldable pub verify_with : Bool → Facilitator × Option Text → Facilitator × Answer
verify_with valid (f, some reason) = (f, aborted reason)
verify_with valid (f, none) = (f, answered valid)

unfoldable pub verify :
    ℕ → Option ℕ → Bool → GuardedRequirements → Facilitator → Facilitator × Answer
verify now balance valid req f = verify_with valid (before_hooks now balance req f)

-- The hooks run at `now`, and the settlement is written down at `at`, when the SDK has answered.
unfoldable pub settle_with : ℕ → Text → Bool → Facilitator × Option Text → Facilitator × Answer
settle_with at pay_to success (f, some reason) = (f, aborted reason)
settle_with at pay_to success (f, none) = (after_settle at pay_to success f, answered success)

unfoldable pub settle :
    ℕ → ℕ → Option ℕ → Bool → GuardedRequirements → Facilitator → Facilitator × Answer
settle now at balance success req f =
    settle_with at req.pay_to success (before_hooks now balance req f)

pub data Reply : Type 0 where
  off not_an_address : Reply
  told : SellerStatus → Reply

-- `POST /sellers`.
unfoldable pub register_reply : ℕ → Text → SellerRegistry × Bool → SellerRegistry × Reply
register_reply now pay_to (s, false) = (s, not_an_address)
register_reply now pay_to (s, true) = let (s', st) = status now pay_to s in (s', told st)

unfoldable pub register_from : ℕ → Text → Facilitator → Option SellerRegistry → Facilitator × Reply
register_from now pay_to f none = (f, off)
register_from now pay_to f (some s) =
    let replied = register_reply now pay_to (add now pay_to s) in
    (record f { sellers = some replied.0 }, replied.1)

unfoldable pub register : ℕ → Text → Facilitator → Facilitator × Reply
register now pay_to f = register_from now pay_to f f.sellers
