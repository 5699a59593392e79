-- ===== src/Lightning/Exact/Challenge.antt =====
-- packages/lightning/src/lnbtc.ts: the seller issues a challenge, the buyer checks it and pays it, and
-- the local pair of a receiver and a payer. An answer of the receiver or of the wallet is an argument.
use arcagentx.Prelude.{
  ℕ, ◌+◌, Bool, true, false, ◌&&◌, not, Option, none, some, Result, ok, err, ◌>>=◌, ◌>>◌, require,
  from_option, ltb, leb, ◌==◌, length, all,
}
use arcagentx.Prelude.Text.{Text, codes, text_eq, to_lower}
use arcagentx.Lightning.Json.{
  Json, Members, Platform, whole, text, object, done, member, get, as_object, is_text, is_hex_digit,
}
use arcagentx.Lightning.Binding.{
  BindingError, BindingParams, http_params, mcp_params, http_1, mcp_1, check_params,
}
use arcagentx.Lightning.Binding.Hash.{
  HttpRequestForBinding, McpCallForBinding, params_json, profile_of, sha256hex, http_binding,
  mcp_binding,
}
use arcagentx.Lightning.Invoice.{Currency, Bolt11Error}
use arcagentx.Lightning.Decode.{Bolt11, decode_bolt11}
use arcagentx.Lightning.Exact.{
  Stop, Terms, refused, unsupported_scheme, request_binding, request_mismatch,
  asset_transfer_method, payment_flow, invoice_missing, invoice_description,
  invoice_request_mismatch, invoice_payee_mismatch, invoice_currency_mismatch,
  invoice_amount_mismatch, invoice_expiry_mismatch, invoice_created_in_future, invoice_expired,
  currency_of, same_currency, is_hash, pos_int_string, pos_int, pay_to_of, read_terms, is_bolt11,
  is_upfront, invoice_of,
}
use arcagentx.Lightning.Exact.Settle.{decoded}

pub data LnbtcIntent : Type 0 where
  http_intent : HttpRequestForBinding → (resource_url : Option Text) → LnbtcIntent
  mcp_intent : McpCallForBinding → (server : Text) → LnbtcIntent

unfoldable pub intent_profile : LnbtcIntent → Text
intent_profile (http_intent request resource_url) = http_1
intent_profile (mcp_intent call server) = mcp_1

-- A BindingError in the buyer's check is a refusal.
unfoldable pub as_refusal : Result BindingError Text → Result Stop Text
as_refusal (err e) = err (refused request_binding)
as_refusal (ok t) = ok t

-- The resource is the one of the request, if one is named.
abbrev names_url : Option Text → Text → Bool
names_url none url = true
names_url (some t) url = text_eq t url

-- The hash of the request that the buyer is about to make, with the checked parameters.
unfoldable pub computed_hash : Platform → LnbtcIntent → BindingParams → Result Stop Text
computed_hash p (http_intent request resource_url) (http_params headers) =
    require (names_url resource_url request.url) (refused request_mismatch)
    >> as_refusal (http_binding p request (http_params headers) headers)
computed_hash p (mcp_intent call server) (mcp_params named metadata) =
    require (text_eq named server) (refused request_mismatch)
    >> as_refusal (mcp_binding p call (mcp_params named metadata) named metadata)
computed_hash p intent other = err (refused request_binding)

unfoldable pub or_refusal : Result BindingError BindingParams → Result Stop BindingParams
or_refusal (err e) = err (refused request_binding)
or_refusal (ok params) = ok params

unfoldable pub checked_params : Platform → Members → Result Stop BindingParams
checked_params p x =
    or_refusal (
      check_params p (get (codes "requestBindingProfile") x) (get (codes "requestBindingParams") x))

abbrev pub is_none : {A : Type 0} → Option A → Bool
is_none none = true
is_none (some a) = false

abbrev pub is_some_text : Option Text → Text → Bool
is_some_text none t = false
is_some_text (some s) t = text_eq s t

-- The checks of the invoice against what the buyer computed and what the challenge says.
unfoldable pub check_fit : (now skew : ℕ) → Terms → Members → Text → Bolt11 → Result Stop (Unit {0})
check_fit now skew terms x computed inv = do
  require (not (is_none inv.description_hash) && is_none inv.description)
      (refused invoice_description)
  require (is_text computed (get (codes "requestHash") x)) (refused request_mismatch)
  require (is_some_text inv.description_hash computed) (refused invoice_request_mismatch)
  require (text_eq inv.payee terms.pay_to) (refused invoice_payee_mismatch)
  require (same_currency inv.currency terms.currency) (refused invoice_currency_mismatch)
  require (is_some_text inv.amount_msat terms.amount) (refused invoice_amount_mismatch)
  require (inv.expiry == terms.max_timeout) (refused invoice_expiry_mismatch)
  require (leb inv.timestamp (now + skew)) (refused invoice_created_in_future)
  require (ltb now (inv.timestamp + inv.expiry)) (refused invoice_expired)

-- What the buyer goes on with.
pub record Checked : Type 0 where
  pub requirements : Members
  pub terms : Terms
  pub invoice : Bolt11

unfoldable pub check_lnbtc_challenge :
    Platform → (now skew : ℕ) → LnbtcIntent → Option Json → Result Stop Checked
check_lnbtc_challenge p now skew intent requirements = do
  r ← from_option (as_object requirements) (refused unsupported_scheme)
  terms ← read_terms p r
  x ← from_option (as_object (get (codes "extra") r)) (refused request_binding)
  require (is_upfront x) (refused payment_flow)
  require (is_bolt11 (get (codes "assetTransferMethod") x)) (refused asset_transfer_method)
  invoice ← from_option (invoice_of x) (refused invoice_missing)
  inv ← decoded p invoice
  require (is_hash (get (codes "requestHash") x)) (refused request_binding)
  require (is_text (intent_profile intent) (get (codes "requestBindingProfile") x))
      (refused request_binding)
  params ← checked_params p x
  computed ← computed_hash p intent params
  check_fit now skew terms x computed inv
  ok (record { requirements = r; terms = terms; invoice = inv })

-- What a wallet answers.
pub record Paid : Type 0 where
  pub preimage : Option Text
  pub payment_hash : Option Text
  pub invoice : Option Text
  pub amount_msat : Option Text
  pub fees_msat : Option Text

pub data PayAnswer : Type 0 where
  paid : Paid → PayAnswer
  in_flight failed : PayAnswer

pub data PayError : Type 0 where
  payment_in_flight payment_not_paid payer_invoice_mismatch payer_payment_hash_mismatch
        payer_amount_mismatch payer_preimage_required payer_preimage_malformed
        payer_preimage_hash_mismatch :
      PayError

-- `x === undefined || f(x) === y`.
abbrev pub agrees : (Text → Text) → Option Text → Text → Bool
agrees f none y = true
agrees f (some x) y = text_eq (f x) y

-- The payment payload: the version, the accepted requirements, the preimage.
unfoldable pub payload_with : Members → Text → Json
payload_with requirements preimage = object (
    member (codes "x402Version") (whole 2) (
      member (codes "accepted") (object requirements)
        (member (codes "payload") (object (member (codes "preimage") (text preimage) done)) done)))

unfoldable pub payload_of : Platform → Checked → Paid → Result PayError (Json × Option Text)
payload_of p c r = do
  require (agrees to_lower r.invoice c.invoice.invoice) payer_invoice_mismatch
  require (agrees to_lower r.payment_hash c.invoice.payment_hash) payer_payment_hash_mismatch
  require (agrees (λ t. t) r.amount_msat c.terms.amount) payer_amount_mismatch
  given ← from_option r.preimage payer_preimage_required
  let preimage = to_lower given
  require (all is_hex_digit preimage && length preimage == 64) payer_preimage_malformed
  require (text_eq (sha256hex p (p.from_hex preimage)) c.invoice.payment_hash)
      payer_preimage_hash_mismatch
  ok (payload_with c.requirements preimage, r.fees_msat)

-- The payload and the fees, for the wallet's answer about `invoice.invoice` and the amount.
unfoldable pub pay_lnbtc_challenge :
    Platform → Checked → PayAnswer → Result PayError (Json × Option Text)
pay_lnbtc_challenge p c in_flight = err payment_in_flight
pay_lnbtc_challenge p c failed = err payment_not_paid
pay_lnbtc_challenge p c (paid r) = payload_of p c r

-- What the seller asks for.
pub record Offer : Type 0 where
  pub pubkey : Text
  pub network : Text
  pub amount_msat : Text
  pub max_timeout_seconds : ℕ
  pub params : BindingParams
  pub request_hash : Text

pub data IssueError : Type 0 where
  bad_network bad_amount bad_timeout bad_key unfit_invoice : IssueError
  unbound : BindingError → IssueError
  undecoded : Bolt11Error → IssueError

unfoldable pub or_unbound : Result BindingError BindingParams → Result IssueError (Unit {0})
or_unbound (err e) = err (unbound e)
or_unbound (ok params) = ok tt

unfoldable pub offer_params : Platform → Offer → Result IssueError (Unit {0})
offer_params p o =
    or_unbound (check_params p (some (text (profile_of o.params))) (some (params_json o.params)))

unfoldable pub or_unreadable : Result Bolt11Error Bolt11 → Result IssueError Bolt11
or_unreadable (err e) = err (undecoded e)
or_unreadable (ok inv) = ok inv

unfoldable pub offer_invoice : Platform → Text → Result IssueError Bolt11
offer_invoice p invoice = or_unreadable (decode_bolt11 p invoice)

-- `problems` is empty.
unfoldable pub fits : (now skew : ℕ) → Offer → Currency → Bolt11 → Bool
fits now skew o currency inv =
    is_some_text inv.amount_msat o.amount_msat
    && same_currency inv.currency currency
    && (is_some_text inv.description_hash o.request_hash && is_none inv.description)
    && text_eq inv.payee o.pubkey
    && inv.expiry == o.max_timeout_seconds
    && leb inv.timestamp (now + skew)
    && ltb now (inv.timestamp + inv.expiry)

unfoldable pub extra_of : Offer → Bolt11 → Members
extra_of o inv = member (codes "assetTransferMethod") (text (codes "bolt11")) (
    member (codes "paymentFlow") (text (codes "upfront")) (
      member (codes "requestHash") (text o.request_hash) (
        member (codes "requestBindingProfile") (text (profile_of o.params)) (
          member (codes "requestBindingParams") (params_json o.params)
            (member (codes "invoice") (text inv.invoice) done)))))

unfoldable pub requirements_of : Offer → Bolt11 → Members
requirements_of o inv = member (codes "scheme") (text (codes "exact")) (
    member (codes "network") (text o.network) (
      member (codes "amount") (text o.amount_msat) (
        member (codes "asset") (text (codes "BTC")) (
          member (codes "payTo") (text o.pubkey) (
            member (codes "maxTimeoutSeconds") (whole o.max_timeout_seconds)
              (member (codes "extra") (object (extra_of o inv)) done))))))

-- The requirements, for the invoice that the receiver made.
unfoldable pub issue_lnbtc_challenge :
    Platform → (now skew : ℕ) → Offer → (invoice : Text) → Result IssueError Members
issue_lnbtc_challenge p now skew o invoice = do
  currency ← from_option (currency_of o.network) bad_network
  msat ← from_option (pos_int_string (some (text o.amount_msat))) bad_amount
  timeout ← from_option (pos_int (some (whole o.max_timeout_seconds))) bad_timeout
  key ← from_option (pay_to_of p (some (text o.pubkey))) bad_key
  offer_params p o
  inv ← offer_invoice p invoice
  require (fits now skew o currency inv) unfit_invoice
  ok (requirements_of o inv)
