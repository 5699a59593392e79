-- ===== src/Lightning/Exact.antt =====
-- packages/lightning/src/lnbtc.ts: the fields of a challenge, and what the scheme takes of them.
mod Tests
pub mod Settle
pub mod Challenge
pub mod Sound
pub mod Once
pub mod Issued
pub mod Paid
pub mod Bought
use arcagentx.Prelude.{
  ℕ, ◌+◌, ◌-◌, ◌^◌, Bool, true, false, ◌&&◌, ◌||◌, not, Option, none, some, List, [], ◌∷◌, ◌++◌,
  Result, ok, err, ◌>>=◌, ◌>>◌, require, from_option, ltb, leb, ◌==◌, if◌then◌else◌, length, all,
  any,
}
use arcagentx.Prelude.Text.{Text, codes, text_eq, is_digit}
use arcagentx.Lightning.Json.{
  Json, Items, Members, Platform, null, boolean, whole, other_number, text, array, object, get,
  is_text, is_hex_digit,
}
use arcagentx.Lightning.Binding.{BindingError}
use arcagentx.Lightning.Invoice.{Currency, bc, tb}

abbrev pub lnbtc_mainnet : Text
lnbtc_mainnet = codes "lnbtc:000000000019d6689c085ae165831e93"

abbrev pub lnbtc_testnet : Text
lnbtc_testnet = codes "lnbtc:000000000933ea01ad0ee984209779ba"

abbrev pub default_skew_seconds : ℕ
default_skew_seconds = 60

pub data LnbtcSettleError : Type 0 where
  unsupported_scheme network_mismatch unsupported_network invalid_asset invalid_amount
        amount_mismatch pay_to_mismatch pay_to_malformed max_timeout_mismatch extra_mismatch
        request_binding request_mismatch asset_transfer_method payment_flow invoice_missing
        invoice_decode_failed invoice_description invoice_request_mismatch invoice_payee_mismatch
        invoice_currency_mismatch invoice_amount_mismatch max_timeout invoice_expiry_mismatch
        invoice_created_in_future duplicate_settlement preimage_missing preimage_malformed
        preimage_length preimage_hash_mismatch invoice_expired :
      LnbtcSettleError

-- A check that does not hold, or a throw that the function does not catch.
pub data Stop : Type 0 where
  refused : LnbtcSettleError → Stop
  threw : BindingError → Stop

-- `CURRENCY`.
unfoldable pub currency_of : Text → Option Currency
currency_of network =
    if text_eq network lnbtc_mainnet
    then some bc
    else if text_eq network lnbtc_testnet
    then some tb
    else none

unfoldable pub network_of : Option Json → Option Text
network_of (some (text s)) = some s
network_of other = none

unfoldable pub same_currency : Currency → Currency → Bool
same_currency bc bc = true
same_currency tb tb = true
same_currency a b = false

-- `HASH`.
unfoldable pub is_hash : Option Json → Bool
is_hash (some (text s)) = all is_hex_digit s && length s == 64
is_hash other = false

abbrev starts_positive : Text → Bool
starts_positive [] = false
starts_positive (c ∷ s) = is_digit c && ltb b'0' c

-- `isPosIntString`: the text, if it is one.
unfoldable pub pos_int_string : Option Json → Option Text
pos_int_string (some (text s)) = if starts_positive s && all is_digit s then some s else none
pos_int_string other = none

-- `isPosInt`: the number, if it is one.
unfoldable pub pos_int : Option Json → Option ℕ
pos_int (some (whole n)) = if ltb 0 n && ltb n (2 ^ 53) then some n else none
pos_int other = none

abbrev is_key : Text → Bool
is_key (c ∷ d ∷ s) = c == b'0' && (d == b'2' || d == b'3') && all is_hex_digit s && length s == 64
is_key short = false

-- `isPayTo`: the key, if it is one.
unfoldable pub pay_to_of : Platform → Option Json → Option Text
pay_to_of p (some (text s)) = if is_key s && p.is_point s then some s else none
pay_to_of p other = none

-- What the scheme takes: section 2 of the settlement, and the first checks of the client.
pub record Terms : Type 0 where
  pub network : Text
  pub currency : Currency
  pub amount : Text
  pub max_timeout : ℕ
  pub pay_to : Text

unfoldable pub read_terms : Platform → Members → Result Stop Terms
read_terms p req = do
  require (is_text (codes "exact") (get (codes "scheme") req)) (refused unsupported_scheme)
  network ← from_option (network_of (get (codes "network") req)) (refused unsupported_network)
  currency ← from_option (currency_of network) (refused unsupported_network)
  require (is_text (codes "BTC") (get (codes "asset") req)) (refused invalid_asset)
  msat ← from_option (pos_int_string (get (codes "amount") req)) (refused invalid_amount)
  timeout ← from_option (pos_int (get (codes "maxTimeoutSeconds") req)) (refused max_timeout)
  pay_to ← from_option (pay_to_of p (get (codes "payTo") req)) (refused pay_to_malformed)
  ok (record {
    network = network;
    currency = currency;
    amount = msat;
    max_timeout = timeout;
    pay_to = pay_to;
  })

-- `(x.assetTransferMethod ?? "bolt11") === "bolt11"`.
unfoldable pub is_bolt11 : Option Json → Bool
is_bolt11 none = true
is_bolt11 (some null) = true
is_bolt11 other = is_text (codes "bolt11") other

unfoldable pub is_upfront : Members → Bool
is_upfront x = is_text (codes "upfront") (get (codes "paymentFlow") x)

unfoldable pub nonempty : Text → Option Text
nonempty [] = none
nonempty (c ∷ s) = some (c ∷ s)

-- The invoice, if it is a text that is not empty.
unfoldable pub invoice_of : Members → Option Text
invoice_of x = elim (network_of (get (codes "invoice") x)) [ none ↦ none | some t ↦ nonempty t ]
