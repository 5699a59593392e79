-- ===== src/Lightning/Exact/Paid.antt =====
-- An issued challenge that is paid settles.
use mathlib.Core.Path.{subst}
use arcagentx.Prelude.{
  ℕ, ◌+◌, ◌≤◌, ◌≡◌, refl, ap, sym, ◌∙◌, true, some, [], ◌∷◌, ok, arith, ok-eq, leb, ==_iff,
}
use arcagentx.Prelude.Text.{Text, codes}
use arcagentx.Lightning.Json.{Members, Platform, get, as_object, same, text, object, is_text}
use arcagentx.Lightning.Binding.{BindingParams, check_params, jcs}
use arcagentx.Lightning.Binding.Hash.{params_json, profile_of}
use arcagentx.Lightning.Invoice.{Currency}
use arcagentx.Lightning.Decode.{Bolt11, decode_bolt11}
use arcagentx.Lightning.Replay.{FileReplayStore, claim}
use arcagentx.Lightning.Exact.{network_of, is_hash, is_bolt11, is_upfront, nonempty, invoice_of}
use arcagentx.Lightning.Exact.Settle.{
  settled, Proof, or_unbound, or_thrown, jcs_of, same_form, is_ruled, check_members, check_binding,
  or_undecoded, decoded, check_digest, check_preimage, check_core, check_extra, check_paid,
  check_sides, check_payment, replay_key, claim_proof, settle_lnbtc,
}
use arcagentx.Lightning.Exact.Challenge.{
  Offer, fits, extra_of, requirements_of, payload_with, issue_lnbtc_challenge,
}
use arcagentx.Lightning.Exact.Issued.{
  Issued, Fit, text_eq_refl, issue-Issued, fits-Fit, terms_of, read_terms-requirements_of,
  check_invoice-Fit,
}

check_core-same :
    (o : Offer) (inv : Bolt11) → check_core (requirements_of o inv) (requirements_of o inv) ≡ ok tt
unfolding check_core requirements_of get same
check_core-same o inv =
    rw
      (
        text_eq_refl o.network,
        text_eq_refl o.amount_msat,
        text_eq_refl o.pubkey,
        (==_iff o.max_timeout_seconds o.max_timeout_seconds).1 refl,
      )
      refl

check_extra-same :
    (p : Platform) (o : Offer) (inv : Bolt11) (params : BindingParams) (canonical : Text)
    → check_params p (some (text (profile_of o.params))) (some (params_json o.params)) ≡ ok params
    → is_hash (some (text o.request_hash)) ≡ true
    → jcs p (params_json o.params) ≡ ok canonical
    → check_extra p (extra_of o inv) (extra_of o inv) ≡ ok tt
unfolding check_extra check_binding or_unbound check_members is_ruled extra_of get same is_bolt11
    is_text is_upfront same_form jcs_of or_thrown
check_extra-same p o inv params canonical bound hash form =
    rw
      (
        hash,
        bound,
        form,
        text_eq_refl o.request_hash,
        text_eq_refl (profile_of o.params),
        text_eq_refl canonical,
      )
      refl

-- What the settlement of a paid invoice leaves for the store.
abbrev pub proof_for : ℕ → Offer → Bolt11 → Proof
proof_for skew o inv = record {
  network = o.network;
  payment_hash = inv.payment_hash;
  keep_until = inv.timestamp + inv.expiry + skew + 3600;
}

nonempty-decoded :
    (p : Platform) (t : Text) (inv : Bolt11) → decode_bolt11 p t ≡ ok inv → nonempty t ≡ some t
unfolding nonempty decode_bolt11
nonempty-decoded p [] inv h = cc
nonempty-decoded p (c ∷ t) inv h = refl

pub invoice_of-decoded :
    (p : Platform) (o : Offer) (inv : Bolt11)
    → decode_bolt11 p inv.invoice ≡ ok inv
    → invoice_of (extra_of o inv) ≡ some inv.invoice
unfolding invoice_of extra_of get network_of
invoice_of-decoded p o inv h = nonempty-decoded p inv.invoice inv h

check_paid-Fit :
    (p : Platform) (issued now skew : ℕ) (o : Offer) (currency : Currency) (inv : Bolt11)
    (preimage : Text)
    → Fit issued skew o currency inv
    → decode_bolt11 p inv.invoice ≡ ok inv
    → check_digest p inv.payment_hash preimage ≡ ok tt
    → issued ≤ now
    → now ≤ inv.timestamp + inv.expiry + skew
    → check_paid p now skew
        (terms_of o currency)
        (extra_of o inv)
        (extra_of o inv)
        (some (text preimage))
      ≡ ok (proof_for skew o inv)
unfolding check_paid decoded or_undecoded check_preimage
check_paid-Fit p issued now skew o currency inv preimage f decodes digest le alive =
    let in_time : leb now (inv.timestamp + inv.expiry + skew) ≡ true = ground arith in
    rw
      (
        invoice_of-decoded p o inv decodes,
        decodes,
        check_invoice-Fit issued now skew o currency inv f le,
        digest,
        in_time,
      )
      refl

pub extra_of-requirements_of :
    (o : Offer) (inv : Bolt11)
    → as_object (get (codes "extra") (requirements_of o inv)) ≡ some (extra_of o inv)
unfolding requirements_of get as_object
extra_of-requirements_of o inv = refl

check_payment-Issued :
    (p : Platform) (issued now skew : ℕ) (o : Offer) (inv : Bolt11) (preimage canonical : Text)
    → Issued p issued skew o inv.invoice (requirements_of o inv)
    → decode_bolt11 p inv.invoice ≡ ok inv
    → is_hash (some (text o.request_hash)) ≡ true
    → jcs p (params_json o.params) ≡ ok canonical
    → check_digest p inv.payment_hash preimage ≡ ok tt
    → issued ≤ now
    → now ≤ inv.timestamp + inv.expiry + skew
    → check_payment p now skew
        (some (payload_with (requirements_of o inv) preimage))
        (some (object (requirements_of o inv)))
      ≡ ok (proof_for skew o inv)
unfolding check_payment check_sides as_object payload_with get
check_payment-Issued p issued now skew o inv preimage canonical i decodes hash form digest le
      alive =
    let same_inv : i.inv ≡ inv = ok-eq (sym decodes ∙ i.decodes) in
    let fit = subst (λ v. fits issued skew o i.currency v ≡ true) same_inv i.fit in
    let f = fits-Fit issued skew o i.currency inv fit in
    let (params, bound) = i.params in
    rw
      (
        check_core-same o inv,
        read_terms-requirements_of p o i.currency inv i.on i.amount i.timeout i.key,
        extra_of-requirements_of o inv,
        check_extra-same p o inv params canonical bound hash form,
      )
      (check_paid-Fit p issued now skew o i.currency inv preimage f decodes digest le alive)

-- A challenge that was issued, for an invoice written in small letters and a request hash of 64
-- hexadecimal digits, settles at any time from its issue until the skew after the invoice's expiry,
-- once the preimage of the invoice is sent back with it, if its key is not in the store; the
-- parameters of the binding must have a canonical form.
pub issue-settles :
    (p : Platform) (issued now skew : ℕ) (o : Offer) (req : Members) (inv : Bolt11)
    (preimage canonical : Text) (s : FileReplayStore)
    → issue_lnbtc_challenge p issued skew o inv.invoice ≡ ok req
    → decode_bolt11 p inv.invoice ≡ ok inv
    → is_hash (some (text o.request_hash)) ≡ true
    → jcs p (params_json o.params) ≡ ok canonical
    → check_digest p inv.payment_hash preimage ≡ ok tt
    → issued ≤ now
    → now ≤ inv.timestamp + inv.expiry + skew
    → (claim now (replay_key (proof_for skew o inv)) (inv.timestamp + inv.expiry + skew + 3600) s).1
      ≡ true
    → (settle_lnbtc p now skew (some (payload_with req preimage)) (some (object req)) s).1
      ≡ ok (settled inv.payment_hash o.network)
unfolding settle_lnbtc claim_proof
issue-settles p issued now skew o req inv preimage canonical s issue decodes hash form digest le
      alive new =
    let i = issue-Issued p issued skew o inv.invoice req issue in
    let same_inv : i.inv ≡ inv = ok-eq (sym decodes ∙ i.decodes) in
    let answer : req ≡ requirements_of o inv = i.answer ∙ ap (requirements_of o) same_inv in
    let whole_i = subst (Issued p issued skew o inv.invoice) answer i in
    let checked =
      check_payment-Issued p issued now skew o inv preimage canonical whole_i decodes hash form
        digest le alive in
    rw (answer, checked, new) refl
