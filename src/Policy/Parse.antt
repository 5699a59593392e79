-- ===== src/Policy/Parse.antt =====
-- packages/policy/src/index.ts, `parsePolicyString`: the compact syntax of a policy.
pub mod Settings
use arcagentx.Prelude.{
  ℕ, ◌+◌, ◌*◌, Bool, true, false, not, ◌&&◌, ◌||◌, Option, none, some, List, [], ◌∷◌, ◌++◌, map,
  Result, ok, err, ◌>>=◌, from_option, ◌==◌, if◌then◌else◌, filter,
}
use arcagentx.Prelude.Text.{Text, codes, text_eq, trim, cut, split, span_digits}
use arcagentx.Accounting.{AccountingError, Usdc6}
use arcagentx.Accounting.Decimal.{parse_usdc6, value}
use arcagentx.Policy.{SpendPolicy, RateLimit, norm}

pub data PolicyError : Type 0 where
  no_key_value unknown_key bad_rate : Text → PolicyError
  bad_amount : AccountingError → PolicyError

-- `parseUsdc6(value)`, which throws an error of its own.
unfoldable pub amount_of : Text → Result PolicyError Usdc6
amount_of v = elim (parse_usdc6 v) [ ok a ↦ ok a | err e ↦ err (bad_amount e) ]

-- The unit of a window in milliseconds: `(s|m|h)$`.
unfoldable pub unit_ms : Text → Option ℕ
unit_ms u =
    if text_eq u (codes "s")
    then some 1000
    else if text_eq u (codes "m")
    then some 60_000
    else if text_eq u (codes "h")
    then some 3_600_000
    else none

-- `/(\d+)(s|m|h)$/`, behind the slash.
unfoldable pub window_of : ℕ → Text × Text → Option RateLimit
unfolding unit_ms
window_of count ([], rest) = none
window_of count (d ∷ ds, rest) = elim (unit_ms rest) [
  | none ↦ none
  | some mult ↦ some (record { max_payments = count; window_ms = value (d ∷ ds) * mult })
]

-- `/^(\d+)\/…/`.
unfoldable pub rate_of_parts : Text × Text → Option RateLimit
unfolding window_of
rate_of_parts ([], rest) = none
rate_of_parts (d ∷ ds, []) = none
rate_of_parts (d ∷ ds, c ∷ rest) =
    if c == b'/' then window_of (value (d ∷ ds)) (span_digits rest) else none

unfoldable pub rate_of : Text → Option RateLimit
unfolding rate_of_parts
rate_of v = rate_of_parts (span_digits v)

-- The keys, in the order of the `switch`.
pub data Setting : Type 0 where
  daily per_seller per_payment rate allow deny networks identity bond : Setting

abbrev pub name : Setting → Text
name daily = codes "daily"
name per_seller = codes "per_seller"
name per_payment = codes "per_payment"
name rate = codes "rate"
name allow = codes "allow"
name deny = codes "deny"
name networks = codes "networks"
name identity = codes "identity"
name bond = codes "bond"

-- The `case` that a key selects.
unfoldable pub setting_of : Text → Option Setting
setting_of key =
    if text_eq key (name daily)
    then some daily
    else if text_eq key (name per_seller)
    then some per_seller
    else if text_eq key (name per_payment)
    then some per_payment
    else if text_eq key (name rate)
    then some rate
    else if text_eq key (name allow)
    then some allow
    else if text_eq key (name deny)
    then some deny
    else if text_eq key (name networks)
    then some networks
    else if text_eq key (name identity)
    then some identity
    else if text_eq key (name bond)
    then some bond
    else none

-- The body of each `case`.
unfoldable pub apply : Setting → Text → SpendPolicy → Result PolicyError SpendPolicy
apply daily v p = do a ← amount_of v; ok (record p { daily_cap = a })
apply per_seller v p = do a ← amount_of v; ok (record p { per_counterparty_daily_cap = a })
apply per_payment v p = do a ← amount_of v; ok (record p { per_payment_cap = a })
apply rate v p = do r ← from_option (rate_of v) (bad_rate v); ok (record p { rate_limit = r })
apply allow v p = ok (record p {
  allowlist = if text_eq v (codes "*") then none else some (map norm (split b'|' v));
})
apply deny v p = ok (record p { denylist = map norm (split b'|' v) })
apply networks v p = ok (record p { allowed_networks = map trim (split b'|' v) })
apply identity v p = ok (record p { require_verified_identity = text_eq v (codes "required") })
apply bond v p = do a ← amount_of v; ok (record p { required_seller_bond = a })

-- One round of the loop.
unfoldable pub apply_part : Text → SpendPolicy → Result PolicyError SpendPolicy
apply_part part p = do
  (key, v) ← from_option (cut b'=' part) (no_key_value part)
  s ← from_option (setting_of (trim key)) (unknown_key (trim key))
  apply s (trim v) p

unfoldable pub apply_parts : List Text → SpendPolicy → Result PolicyError SpendPolicy
apply_parts [] p = ok p
apply_parts (part ∷ parts) p = do q ← apply_part part p; apply_parts parts q

abbrev pub nonempty : Text → Bool
nonempty [] = false
nonempty (c ∷ s) = true

-- `text.split(",").map((s) => s.trim()).filter(Boolean)`.
unfoldable pub parts_of : Text → List Text
parts_of text = filter nonempty (map trim (split b',' text))

unfoldable pub parse_policy_string : Text → SpendPolicy → Result PolicyError SpendPolicy
parse_policy_string text base = apply_parts (parts_of text) base
