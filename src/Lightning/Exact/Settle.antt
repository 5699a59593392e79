-- ===== src/Lightning/Exact/Settle.antt =====
-- packages/lightning/src/lnbtc.ts: `settleLnbtc`. Its store is the one of file-replay.ts, whose clock
-- is taken to be the clock of the settlement.
use arcagentx.Prelude.{
  ℕ, ◌+◌, Bool, true, false, ◌&&◌, Option, none, some, [], ◌∷◌, ◌++◌, Result, ok, err, ◌>>=◌, ◌>>◌,
  require, from_option, leb, ◌==◌, if◌then◌else◌, length, all, any,
}
use arcagentx.Prelude.Text.{Text, codes, text_eq}
use arcagentx.Lightning.Json.{
  Json, Members, Platform, null, text, done, member, get, as_object, same, is_text, is_hex_digit,
}
use arcagentx.Lightning.Binding.{BindingError, BindingParams, not_json, jcs, check_params}
use arcagentx.Lightning.Binding.Hash.{sha256hex}
use arcagentx.Lightning.Invoice.{Bolt11Error}
use arcagentx.Lightning.Decode.{Bolt11, decode_bolt11}
use arcagentx.Lightning.Replay.{FileReplayStore, claim}
use arcagentx.Lightning.Exact.{
  LnbtcSettleError, Stop, Terms, refused, threw, unsupported_scheme, network_mismatch,
  invalid_asset, amount_mismatch, pay_to_mismatch, max_timeout_mismatch, extra_mismatch,
  request_binding, request_mismatch, asset_transfer_method, payment_flow, invoice_missing,
  invoice_decode_failed, invoice_description, invoice_request_mismatch, invoice_payee_mismatch,
  invoice_currency_mismatch, invoice_amount_mismatch, invoice_expiry_mismatch,
  invoice_created_in_future, duplicate_settlement, preimage_missing, preimage_malformed,
  preimage_length, preimage_hash_mismatch, invoice_expired, network_of, same_currency, is_hash,
  read_terms, is_bolt11, is_upfront, invoice_of,
}

pub data LnbtcSettlement : Type 0 where
  settled : (transaction network : Text) → LnbtcSettlement
  failed : LnbtcSettleError → Option Text → LnbtcSettlement

-- What the checks leave for the replay store.
pub record Proof : Type 0 where
  pub network : Text
  pub payment_hash : Text
  pub keep_until : ℕ

abbrev same_field : Text → Members → Members → Bool
same_field key a b = same (get key a) (get key b)

-- 1. The core fields that the client accepted are the server's.
unfoldable pub check_core : Members → Members → Result Stop (Unit {0})
check_core acc req = do
  require (same_field (codes "scheme") acc req) (refused unsupported_scheme)
  require (same_field (codes "network") acc req) (refused network_mismatch)
  require (same_field (codes "amount") acc req) (refused amount_mismatch)
  require (same_field (codes "asset") acc req) (refused invalid_asset)
  require (same_field (codes "payTo") acc req) (refused pay_to_mismatch)
  require (same_field (codes "maxTimeoutSeconds") acc req) (refused max_timeout_mismatch)

-- The loop over both sides: a hash, and parameters that are well formed.
unfoldable pub or_unbound : Result BindingError BindingParams → Result Stop (Unit {0})
or_unbound (err e) = err (refused request_binding)
or_unbound (ok params) = ok tt

unfoldable pub check_binding : Platform → Members → Result Stop (Unit {0})
check_binding p x =
    require (is_hash (get (codes "requestHash") x)) (refused request_binding)
    >> or_unbound (
        check_params p (get (codes "requestBindingProfile") x)
          (get (codes "requestBindingParams") x))

unfoldable pub or_thrown : Result BindingError Text → Result Stop Text
or_thrown (err e) = err (threw e)
or_thrown (ok t) = ok t

unfoldable pub jcs_of : Platform → Option Json → Result Stop Text
jcs_of p none = err (threw not_json)
jcs_of p (some j) = or_thrown (jcs p j)

unfoldable pub same_form :
    Platform → Option Json → Option Json → LnbtcSettleError → Result Stop (Unit {0})
same_form p a b e = do s ← jcs_of p a; t ← jcs_of p b; require (text_eq s t) (refused e)

-- `RULED`.
unfoldable pub is_ruled : Text → Bool
is_ruled k =
    any (λ r. text_eq r k)
      (codes "invoice"
        ∷ codes "requestHash"
        ∷ codes "requestBindingProfile"
        ∷ codes "requestBindingParams"
        ∷ codes "assetTransferMethod"
        ∷ codes "paymentFlow"
        ∷ [])

unfoldable pub check_member : Platform → Text → Json → Option Json → Result Stop (Unit {0})
check_member p k v none = err (refused extra_mismatch)
check_member p k v (some j) = same_form p (some j) (some v) extra_mismatch

-- The loop over the entries of the server's extra fields.
unfoldable pub check_members : Platform → Members → Members → Result Stop (Unit {0})
check_members p done ax = ok tt
check_members p (member k v m) ax =
    (if is_ruled k then ok tt else check_member p k v (get k ax)) >> check_members p m ax

-- 3. The extra fields of the scheme, and the binding on both sides.
unfoldable pub check_extra : Platform → Members → Members → Result Stop (Unit {0})
check_extra p rx ax = do
  let method = codes "assetTransferMethod"
  require (is_bolt11 (get method rx) && is_bolt11 (get method ax)) (refused asset_transfer_method)
  require (is_upfront rx && is_upfront ax) (refused payment_flow)
  check_binding p rx
  check_binding p ax
  require
      (same_field (codes "requestHash") ax rx && same_field (codes "requestBindingProfile") ax rx)
      (refused request_mismatch)
  same_form p (get (codes "requestBindingParams") ax) (get (codes "requestBindingParams") rx)
      request_mismatch
  check_members p rx ax

abbrev pub is_none : {A : Type 0} → Option A → Bool
is_none none = true
is_none (some a) = false

-- Whatever the decoder throws is one refusal.
unfoldable pub or_undecoded : Result Bolt11Error Bolt11 → Result Stop Bolt11
or_undecoded (err e) = err (refused invoice_decode_failed)
or_undecoded (ok inv) = ok inv

unfoldable pub decoded : Platform → Text → Result Stop Bolt11
decoded p t = or_undecoded (decode_bolt11 p t)

-- 5. The paid invoice: binding, signer, currency, amount, expiry, time.
unfoldable pub check_invoice : (now skew : ℕ) → Terms → Members → Bolt11 → Result Stop (Unit {0})
check_invoice now skew terms rx inv = do
  msat ← from_option inv.amount_msat (refused invoice_decode_failed)
  hash ← from_option inv.description_hash (refused invoice_description)
  require (is_none inv.description) (refused invoice_description)
  require (is_text hash (get (codes "requestHash") rx)) (refused invoice_request_mismatch)
  require (text_eq inv.payee terms.pay_to) (refused invoice_payee_mismatch)
  require (same_currency inv.currency terms.currency) (refused invoice_currency_mismatch)
  require (text_eq msat terms.amount) (refused invoice_amount_mismatch)
  require (inv.expiry == terms.max_timeout) (refused invoice_expiry_mismatch)
  require (leb inv.timestamp (now + skew)) (refused invoice_created_in_future)

abbrev pub get_in : Text → Option Members → Option Json
get_in key none = none
get_in key (some m) = get key m

-- 6. The preimage proves the payment.
unfoldable pub check_digest : Platform → Text → Text → Result Stop (Unit {0})
check_digest p payment_hash s = do
  require (all is_hex_digit s) (refused preimage_malformed)
  require (length s == 64) (refused preimage_length)
  require (text_eq (sha256hex p (p.from_hex s)) payment_hash) (refused preimage_hash_mismatch)

unfoldable pub check_preimage : Platform → Text → Option Json → Result Stop (Unit {0})
check_preimage p payment_hash none = err (refused preimage_missing)
check_preimage p payment_hash (some null) = err (refused preimage_missing)
check_preimage p payment_hash (some (text s)) = check_digest p payment_hash s
check_preimage p payment_hash other = err (refused preimage_malformed)

-- 4 to 7: what is checked once the two sides agree.
unfoldable pub check_paid :
    Platform → (now skew : ℕ) → Terms → (rx ax : Members) → Option Json → Result Stop Proof
check_paid p now skew terms rx ax preimage = do
  server_invoice ← from_option (invoice_of rx) (refused invoice_missing)
  invoice ← from_option (invoice_of ax) (refused invoice_missing)
  inv ← decoded p invoice
  check_invoice now skew terms rx inv
  check_preimage p inv.payment_hash preimage
  require (leb now (inv.timestamp + inv.expiry + skew)) (refused invoice_expired)
  ok (record {
    network = terms.network;
    payment_hash = inv.payment_hash;
    keep_until = inv.timestamp + inv.expiry + skew + 3600;
  })

unfoldable pub check_sides : Platform → (now skew : ℕ) → (pay acc req : Members) → Result Stop Proof
check_sides p now skew pay acc req = do
  check_core acc req
  terms ← read_terms p req
  rx ← from_option (as_object (get (codes "extra") req)) (refused request_binding)
  ax ← from_option (as_object (get (codes "extra") acc)) (refused request_binding)
  check_extra p rx ax
  check_paid p now skew terms rx ax
      (get_in (codes "preimage") (as_object (get (codes "payload") pay)))

-- Every check before the claim, in order.
unfoldable pub check_payment :
    Platform → (now skew : ℕ) → (payment requirements : Option Json) → Result Stop Proof
check_payment p now skew payment requirements = do
  req ← from_option (as_object requirements) (refused unsupported_scheme)
  pay ← from_option (as_object payment) (refused unsupported_scheme)
  acc ← from_option (as_object (get (codes "accepted") pay)) (refused unsupported_scheme)
  check_sides p now skew pay acc req

unfoldable pub replay_key : Proof → Text
replay_key proof = proof.network ++ b':' ∷ proof.payment_hash

-- `fail`: with the server's network, where that is a text.
unfoldable pub fail : Option Json → LnbtcSettleError → LnbtcSettlement
fail requirements e = failed e (network_of (get_in (codes "network") (as_object requirements)))

-- What follows the checks: the claim.
unfoldable pub claim_proof :
    ℕ
    → Option Json
    → Result Stop Proof
    → FileReplayStore
    → FileReplayStore × Result BindingError LnbtcSettlement
claim_proof now requirements (err (refused e)) s = (s, ok (fail requirements e))
claim_proof now requirements (err (threw e)) s = (s, err e)
claim_proof now requirements (ok proof) s =
    let (s', claimed) = claim now (replay_key proof) proof.keep_until s in
    (
      s',
      ok (
          if claimed
          then settled proof.payment_hash proof.network
          else fail requirements duplicate_settlement),
    )

unfoldable pub settle_lnbtc :
    Platform
    → (now skew : ℕ) → (payment requirements : Option Json) → FileReplayStore
    → FileReplayStore × Result BindingError LnbtcSettlement
settle_lnbtc p now skew payment requirements s =
    claim_proof now requirements (check_payment p now skew payment requirements) s
