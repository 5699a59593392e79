-- ===== src/Lightning/Exact/Tests.antt =====
-- A platform whose digest of 32 bytes is those bytes, and an invoice over 100,000 millisatoshis of
-- the time 1,000 that expires after 60 seconds.
use arcagentx.Prelude.{
  ℕ, ◌+◌, ◌-◌, ◌*◌, ◌/◌, ◌%◌, ◌≡◌, ◌≢◌, refl, arith, true, false, Option, none, some, List, [], ◌∷◌,
  ◌++◌, ok, err, length, take, replicate, ◌==◌, if◌then◌else◌,
}
use arcagentx.Prelude.Text.{Text, codes}
use arcagentx.Lightning.Json.{Json, Platform, text, object}
use arcagentx.Lightning.Binding.{http_params}
use arcagentx.Lightning.Binding.Hash.{HttpRequestForBinding}
use arcagentx.Lightning.Invoice.{bc, no_fuel}
use arcagentx.Lightning.Decode.{Bolt11}
use arcagentx.Lightning.Decode.Fuel.{decode_bolt11-ends}
use arcagentx.Lightning.Replay.{FileReplayStore}
use arcagentx.Lightning.Replay.Once.{Reach}
use arcagentx.Lightning.Exact.Settle
use arcagentx.Lightning.Exact.Settle.{settled, Proof}
use arcagentx.Lightning.Exact.Challenge.{http_intent, Checked, PayAnswer, paid, Offer}
use arcagentx.Lightning.Exact.Sound.{Facts, settle_lnbtc_sound}
use arcagentx.Lightning.Exact.Once.{settle_lnbtc-once}
use arcagentx.Lightning.Exact.Bought.{bought-settles}
use arcagentx.Lightning.Exact.Paid.{proof_for}
use arcagentx.Prelude.Text.{trim, to_lower, span_digits}
use arcagentx.Lightning.Invoice.{parse_hrp, hrp_amount, hrp_units, words_to_int, words_from}
use arcagentx.Accounting.Decimal.{value, value_from, decimal, digits}
use arcagentx.Lightning.Decode.{
  decode_bolt11, decode_words, read_fields, read_field, once, store_field, hash_field, field_bytes,
  conclude, recovery_of, signer, words_to_bytes_padded, bytes_padded, bytes_in,
}
use arcagentx.Lightning.Binding.{
  check_params, check_http, count_members, items_or, check_headers, check_url, is_scheme,
  names_user, user_after, before_path, is_token_char, jcs, jcs_items, jcs_members, check_string,
  has_lone, sort_keys, insert_key, join_comma,
}
use arcagentx.Lightning.Json.{is_text, get, as_object, same, text_lt}
use arcagentx.Lightning.Binding.Hash.{
  params_json, profile_of, texts, http_binding, header_hashes, sha256hex, hash_of,
}
use arcagentx.Lightning.Exact.{
  currency_of, pos_int_string, pos_int, pay_to_of, same_currency, read_terms, network_of,
  invoice_of, nonempty, is_upfront, is_bolt11, is_hash,
}
use arcagentx.Lightning.Exact.Challenge.{
  issue_lnbtc_challenge, offer_params, offer_invoice, or_unreadable, fits, requirements_of,
  extra_of, check_lnbtc_challenge, checked_params, or_refusal, computed_hash, intent_profile,
  as_refusal, check_fit, pay_lnbtc_challenge, payload_of, payload_with, or_unbound,
}
use arcagentx.Lightning.Exact.Settle.{
  settle_lnbtc, check_payment, check_sides, check_core, check_extra, check_binding, check_members,
  is_ruled, same_form, jcs_of, or_thrown, check_paid, check_invoice, check_preimage, check_digest,
  claim_proof, replay_key, decoded, or_undecoded,
}
use arcagentx.Lightning.Replay.{claim, knows}

abbrev digits_of : List ℕ → Text
digits_of [] = []
digits_of (b ∷ bytes) = (b'0' + b / 16) ∷ (b'0' + b % 16) ∷ digits_of bytes

abbrev bytes_of : Text → List ℕ
bytes_of [] = []
bytes_of (c ∷ []) = []
bytes_of (c ∷ d ∷ s) = ((c - b'0') * 16 + (d - b'0')) ∷ bytes_of s

abbrev words : List ℕ
words =
    (0 ∷ 0 ∷ 0 ∷ 0 ∷ 0 ∷ 31 ∷ 8 ∷ [])
    ++ (1 ∷ 1 ∷ 20 ∷ replicate 52 0)
    ++ (23 ∷ 1 ∷ 20 ∷ replicate 52 0)
    ++ (6 ∷ 0 ∷ 2 ∷ 1 ∷ 28 ∷ [])
    ++ replicate 104 0

abbrev key : Text
key = codes "02" ++ replicate 64 b'0'

abbrev quoted : Json → Text
quoted (text s) = b'"' ∷ s ++ b'"' ∷ []
quoted other = []

abbrev platform : Platform
platform = record {
  sha256 = λ bytes. if length bytes == 32 then bytes else replicate 32 0;
  hex = digits_of;
  from_hex = bytes_of;
  utf8 = λ s. s;
  utf8_decode = λ bytes. some bytes;
  stringify = quoted;
  parse_url = λ url. some (record { protocol = codes "https:"; username = []; password = [] });
  bech32_decode = λ s. some (codes "lnbc1u", words);
  from_words = λ ws. some (take (length ws * 5 / 8) ws);
  is_point = λ s. true;
  is_signature = λ sig. true;
  verify = λ sig digest k. true;
  recover = λ sig recovery digest. some key;
}

abbrev zeros : Text
zeros = replicate 64 b'0'

abbrev paid_for : Bolt11
paid_for = record {
  invoice = codes "lnbc1";
  currency = bc;
  amount_msat = some (codes "100000");
  timestamp = 1000;
  expiry = 60;
  payment_hash = zeros;
  payment_secret = none;
  description_hash = some zeros;
  description = none;
  payee = key;
  payee_stated = false;
  min_final_cltv_expiry = none;
}

paid_for-decodes : decode_bolt11 platform (codes "lnbc1") ≡ ok paid_for
unfolding decode_bolt11 trim to_lower parse_hrp hrp_amount span_digits hrp_units value value_from
    decode_words read_fields read_field once store_field hash_field field_bytes conclude recovery_of
    signer decimal digits words_to_bytes_padded bytes_padded bytes_in words_to_int words_from
paid_for-decodes = refl

abbrev offer : Offer
offer = record {
  pubkey = key;
  network = codes "lnbtc:000000000019d6689c085ae165831e93";
  amount_msat = codes "100000";
  max_timeout_seconds = 60;
  params = http_params [];
  request_hash = zeros;
}

offer-issued :
    issue_lnbtc_challenge platform 1_000 60 offer (codes "lnbc1")
    ≡ ok (requirements_of offer paid_for)
unfolding issue_lnbtc_challenge currency_of pos_int_string pos_int pay_to_of offer_params or_unbound
    offer_invoice or_unreadable fits same_currency requirements_of extra_of check_params check_http
    is_text params_json profile_of count_members get items_or check_headers texts decode_bolt11 trim
    to_lower parse_hrp hrp_amount span_digits hrp_units value value_from decode_words read_fields
    read_field once store_field hash_field field_bytes conclude recovery_of signer decimal digits
    words_to_bytes_padded bytes_padded bytes_in words_to_int words_from
offer-issued = refl

abbrev request : HttpRequestForBinding
request = record {
  method = codes "GET";
  url = codes "https://a";
  body = none;
  header = λ name. none;
}

abbrev trusted : Checked
unfolding requirements_of extra_of
trusted = record {
  requirements = requirements_of offer paid_for;
  terms = record {
    network = offer.network;
    currency = bc;
    amount = offer.amount_msat;
    max_timeout = 60;
    pay_to = key;
  };
  invoice = paid_for;
}

offer-checked :
    check_lnbtc_challenge platform 1_010 60
      (http_intent request none)
      (some (object (requirements_of offer paid_for)))
    ≡ ok trusted
unfolding check_lnbtc_challenge checked_params or_refusal computed_hash intent_profile http_binding
    check_url is_scheme names_user user_after before_path is_token_char header_hashes sha256hex
    hash_of jcs jcs_items jcs_members check_string has_lone sort_keys insert_key join_comma text_lt
    as_refusal check_fit read_terms network_of as_object invoice_of nonempty decoded or_undecoded
    is_upfront is_bolt11 is_hash check_params check_http is_text params_json profile_of
    count_members get items_or check_headers texts decode_bolt11 trim to_lower parse_hrp hrp_amount
    span_digits hrp_units value value_from decode_words read_fields read_field once store_field
    hash_field field_bytes conclude recovery_of signer decimal digits words_to_bytes_padded
    bytes_padded bytes_in words_to_int words_from requirements_of extra_of same_currency currency_of
    pos_int_string pos_int pay_to_of
offer-checked = refl

abbrev answer : PayAnswer
answer = paid (record {
  preimage = some zeros;
  payment_hash = none;
  invoice = none;
  amount_msat = none;
  fees_msat = none;
})

abbrev payload : Json
unfolding payload_with
payload = payload_with (requirements_of offer paid_for) zeros

offer-paid : pay_lnbtc_challenge platform trusted answer ≡ ok (payload, none)
unfolding pay_lnbtc_challenge payload_of payload_with sha256hex requirements_of extra_of to_lower
offer-paid = refl

abbrev no_proofs : FileReplayStore
no_proofs = record { keys = []; file = []; since_compaction = 0 }

abbrev server : Option Json
unfolding requirements_of
server = some (object (requirements_of offer paid_for))

payload-settles :
    (settle_lnbtc platform 1_020 60 (some payload) server no_proofs).1
    ≡ ok (settled zeros offer.network)
unfolding settle_lnbtc check_payment check_sides check_core same check_extra check_binding
    check_members is_ruled same_form jcs_of or_thrown check_paid check_invoice check_preimage
    check_digest claim_proof claim knows replay_key payload_with sha256hex jcs jcs_items jcs_members
    join_comma sort_keys insert_key check_string has_lone Settle.or_unbound read_terms network_of
    as_object invoice_of nonempty decoded or_undecoded is_upfront is_bolt11 is_hash check_params
    check_http is_text params_json profile_of count_members get items_or check_headers texts
    decode_bolt11 trim to_lower parse_hrp hrp_amount span_digits hrp_units value value_from
    decode_words read_fields read_field once store_field hash_field field_bytes conclude recovery_of
    signer decimal digits words_to_bytes_padded bytes_padded bytes_in words_to_int words_from
    requirements_of extra_of same_currency currency_of pos_int_string pos_int pay_to_of
payload-settles = refl

abbrev form : Text
form = codes "{\"headers\":[]}"

offer-form : jcs platform (params_json offer.params) ≡ ok form
unfolding jcs jcs_items jcs_members join_comma sort_keys insert_key check_string has_lone
    params_json texts
offer-form = refl

abbrev settled_proof : Proof
settled_proof = proof_for 60 offer paid_for

claimed : (claim 1_020 (replay_key settled_proof) (1_000 + 60 + 60 + 3_600) no_proofs).1 ≡ true
unfolding claim knows
claimed = refl

decode_bolt11-ends_example : decode_bolt11 platform (codes "lnbc1") ≢ err no_fuel
decode_bolt11-ends_example = decode_bolt11-ends platform (codes "lnbc1")

settle_lnbtc_sound_example :
    (proof : Proof) × Facts platform 1_020 60 (some payload) server proof
    × (zeros ≡ proof.payment_hash)
    × (offer.network ≡ proof.network)
    × ((settle_lnbtc platform 1_020 60 (some payload) server no_proofs).0
        ≡ (claim 1_020 (replay_key proof) proof.keep_until no_proofs).0)
    × ((claim 1_020 (replay_key proof) proof.keep_until no_proofs).1 ≡ true)
settle_lnbtc_sound_example =
    settle_lnbtc_sound platform 1_020 60 (some payload) server no_proofs zeros offer.network
      payload-settles

settle_lnbtc-once_example :
    (settle_lnbtc platform 1_030 60
      (some payload)
      server
      (settle_lnbtc platform 1_020 60 (some payload) server no_proofs).0).1
    ≢ ok (settled zeros offer.network)
settle_lnbtc-once_example =
    settle_lnbtc-once platform 1_020 1_030 60 (some payload) server (some payload) server no_proofs
      (settle_lnbtc platform 1_020 60 (some payload) server no_proofs).0 zeros offer.network zeros
      offer.network payload-settles refl (omega arith) Reach.here

bought-settles_example :
    (settle_lnbtc platform 1_020 60
      (some payload)
      (some (object (requirements_of offer paid_for)))
      no_proofs).1
    ≡ ok (settled zeros offer.network)
bought-settles_example =
    bought-settles platform 1_000 1_010 1_020 60 offer (requirements_of offer paid_for) paid_for
      (http_intent request none) trusted answer payload none form no_proofs offer-issued
      paid_for-decodes offer-form offer-checked offer-paid (omega arith) (omega arith) claimed
