-- ===== src/Lightning/Exact/Bought.antt =====
-- A challenge from its issue to its settlement: what the buyer checked and the wallet paid settles.
use mathlib.Core.Path.{subst}
use arcagentx.Prelude.{
  ℕ, ◌+◌, ◌≤◌, ◌≡◌, refl, ap, sym, ◌∙◌, true, ◌&&◌, Option, some, ok, Ensures, >>=-Ensures,
  require-Ensures, ok-eq, from_option, from_option-eq-ok, length, all, ◌==◌,
}
use arcagentx.Prelude.Text.{Text, codes, text_eq, to_lower}
use arcagentx.Lightning.Json.{
  Json, Members, Platform, get, as_object, text, object, is_text, is_hex_digit,
}
use arcagentx.Lightning.Binding.{jcs}
use arcagentx.Lightning.Binding.Hash.{params_json, sha256hex}
use arcagentx.Lightning.Decode.{Bolt11, decode_bolt11}
use arcagentx.Lightning.Replay.{FileReplayStore, claim}
use arcagentx.Lightning.Exact.{
  refused, unsupported_scheme, request_binding, invoice_missing, is_hash, read_terms, invoice_of,
  is_upfront, is_bolt11,
}
use arcagentx.Lightning.Exact.Settle.{settled, check_digest, decoded, replay_key, settle_lnbtc}
use arcagentx.Lightning.Exact.Challenge.{
  LnbtcIntent, Checked, Paid, PayAnswer, paid, in_flight, failed, payer_preimage_required, agrees,
  intent_profile, checked_params, computed_hash, check_fit, payload_with, payload_of,
  check_lnbtc_challenge, pay_lnbtc_challenge, Offer, extra_of, requirements_of,
  issue_lnbtc_challenge,
}
use arcagentx.Lightning.Exact.Sound.{extra_in, decoded-eq}
use arcagentx.Lightning.Exact.Issued.{issue-Issued, and-true}
use arcagentx.Lightning.Exact.Paid.{
  proof_for, invoice_of-decoded, extra_of-requirements_of, issue-settles,
}

-- What the buyer goes on with, after its checks.
record Trusted (p : Platform) (requirements : Option Json) (c : Checked) : Type 0 where
  from_server : as_object requirements ≡ some c.requirements
  extra : Members
  extra_fields : extra_in c.requirements ≡ some extra
  carried : (t : Text) × (invoice_of extra ≡ some t) × (decode_bolt11 p t ≡ ok c.invoice)
  hash : is_hash (get (codes "requestHash") extra) ≡ true

check-Trusted :
    (p : Platform) (now skew : ℕ) (intent : LnbtcIntent) (requirements : Option Json)
    → Ensures (Trusted p requirements) (check_lnbtc_challenge p now skew intent requirements)
unfolding check_lnbtc_challenge
check-Trusted p now skew intent requirements = >>=-Ensures _ _ λ r r_eq.
    >>=-Ensures (read_terms p r) _ λ terms terms_eq.
      >>=-Ensures (from_option (extra_in r) (refused request_binding)) _ λ x x_eq.
        require-Ensures (is_upfront x) _ _ λ upfront.
          require-Ensures (is_bolt11 (get (codes "assetTransferMethod") x)) _ _ λ method.
            >>=-Ensures (from_option (invoice_of x) (refused invoice_missing)) _ λ t t_eq.
              >>=-Ensures (decoded p t) _ λ inv inv_eq.
                require-Ensures (is_hash (get (codes "requestHash") x)) _ _ λ hash.
                  require-Ensures
                    (is_text (intent_profile intent) (get (codes "requestBindingProfile") x)) _ _
                    λ profile. >>=-Ensures (checked_params p x) _ λ params params_eq.
                      >>=-Ensures (computed_hash p intent params) _ λ computed computed_eq.
                        >>=-Ensures (check_fit now skew terms x computed inv) _ λ fit fit_ok.
                          λ c c_eq.
                            let made : Checked = record {
                              requirements = r;
                              terms = terms;
                              invoice = inv;
                            } in
                            let same : c ≡ made = ok-eq c_eq in
                            subst (Trusted p requirements) (sym same) (record {
                              from_server =
                                  from_option-eq-ok (as_object requirements)
                                    (refused unsupported_scheme) r_eq;
                              extra = x;
                              extra_fields =
                                  from_option-eq-ok (extra_in r) (refused request_binding) x_eq;
                              carried = (
                                t,
                                from_option-eq-ok (invoice_of x) (refused invoice_missing) t_eq,
                                decoded-eq p t inv inv_eq,
                              );
                              hash = hash;
                            })

-- What the wallet's answer leaves: a payload with a preimage of the invoice.
record Payload (p : Platform) (c : Checked) (payload : Json) : Type 0 where
  preimage : Text
  answer : payload ≡ payload_with c.requirements preimage
  digest : check_digest p c.invoice.payment_hash preimage ≡ ok tt

digest_ok :
    (p : Platform) (payment_hash s : Text)
    → all is_hex_digit s ≡ true
    → (length s == 64) ≡ true
    → text_eq (sha256hex p (p.from_hex s)) payment_hash ≡ true
    → check_digest p payment_hash s ≡ ok tt
unfolding check_digest
digest_ok p payment_hash s digits long digest = rw (digits, long, digest) refl

payload_of-Payload :
    (p : Platform) (c : Checked) (r : Paid) → Ensures (λ out. Payload p c out.0) (payload_of p c r)
unfolding payload_of
payload_of-Payload p c r =
    require-Ensures (agrees to_lower r.invoice c.invoice.invoice) _ _ λ same_invoice.
      require-Ensures (agrees to_lower r.payment_hash c.invoice.payment_hash) _ _ λ same_hash.
        require-Ensures (agrees (λ t. t) r.amount_msat c.terms.amount) _ _ λ same_amount.
          >>=-Ensures (from_option r.preimage payer_preimage_required) _ λ given given_eq.
            require-Ensures (all is_hex_digit (to_lower given) && length (to_lower given) == 64) _ _
              λ form.
                require-Ensures
                  (text_eq (sha256hex p (p.from_hex (to_lower given))) c.invoice.payment_hash) _ _
                  λ digest. λ out out_eq.
                    let same = ok-eq out_eq in
                    let (digits, long) = and-true _ _ form in
                    record {
                      preimage = to_lower given;
                      answer = ap (λ (o : Json × Option Text). o.0) same;
                      digest =
                          digest_ok p c.invoice.payment_hash (to_lower given) digits long digest;
                    }

pay-Payload :
    (p : Platform) (c : Checked) (answer : PayAnswer)
    → Ensures (λ out. Payload p c out.0) (pay_lnbtc_challenge p c answer)
unfolding pay_lnbtc_challenge
pay-Payload p c in_flight = λ a h. cc
pay-Payload p c failed = λ a h. cc
pay-Payload p c (paid r) = payload_of-Payload p c r

some-eq : {A : Type 0} {a b : A} → some a ≡ some b → a ≡ b
some-eq h = cc

get-request_hash :
    (o : Offer) (inv : Bolt11)
    → get (codes "requestHash") (extra_of o inv) ≡ some (text o.request_hash)
unfolding get extra_of
get-request_hash o inv = refl

-- What the buyer checked was the server's challenge, and its invoice the one of the receiver.
Trusted-issued :
    (p : Platform) (o : Offer) (inv : Bolt11) (c : Checked)
    → decode_bolt11 p inv.invoice ≡ ok inv
    → Trusted p (some (object (requirements_of o inv))) c
    → (c.requirements ≡ requirements_of o inv)
      × (c.invoice ≡ inv)
      × (is_hash (some (text o.request_hash)) ≡ true)
unfolding as_object
Trusted-issued p o inv c decodes t =
    let requirements : c.requirements ≡ requirements_of o inv = cc in
    let extra : t.extra ≡ extra_of o inv =
      some-eq (sym t.extra_fields ∙ ap extra_in requirements ∙ extra_of-requirements_of o inv) in
    let (invoice, carried, decoded) = t.carried in
    let texts : invoice ≡ inv.invoice =
      some-eq (sym carried ∙ ap invoice_of extra ∙ invoice_of-decoded p o inv decodes) in
    let invoices : c.invoice ≡ inv =
      ok-eq (sym decodes ∙ ap (decode_bolt11 p) (sym texts) ∙ decoded) in
    (
      requirements,
      invoices,
      ap is_hash (sym (get-request_hash o inv))
          ∙ ap (λ (x : Members). is_hash (get (codes "requestHash") x)) (sym extra)
          ∙ t.hash,
    )

-- A challenge that was issued, that the buyer's own check passed, and that the wallet's answer turned
-- into a payload, settles with that payload, at any time from its issue until the skew after the
-- invoice's expiry, if its key is not in the store: the invoice must be written in small letters, and
-- the parameters of the binding must have a canonical form.
pub bought-settles :
    (p : Platform) (issued checked_at now skew : ℕ) (o : Offer) (req : Members) (inv : Bolt11)
    (intent : LnbtcIntent) (c : Checked) (answer : PayAnswer) (payload : Json) (fees : Option Text)
    (canonical : Text) (s : FileReplayStore)
    → issue_lnbtc_challenge p issued skew o inv.invoice ≡ ok req
    → decode_bolt11 p inv.invoice ≡ ok inv
    → jcs p (params_json o.params) ≡ ok canonical
    → check_lnbtc_challenge p checked_at skew intent (some (object req)) ≡ ok c
    → pay_lnbtc_challenge p c answer ≡ ok (payload, fees)
    → issued ≤ now
    → now ≤ inv.timestamp + inv.expiry + skew
    → (claim now (replay_key (proof_for skew o inv)) (inv.timestamp + inv.expiry + skew + 3600) s).1
      ≡ true
    → (settle_lnbtc p now skew (some payload) (some (object req)) s).1
      ≡ ok (settled inv.payment_hash o.network)
bought-settles p issued checked_at now skew o req inv intent c answer payload fees canonical s issue
      decodes form check pay le alive new =
    let i = issue-Issued p issued skew o inv.invoice req issue in
    let req_eq : req ≡ requirements_of o inv =
      i.answer ∙ ap (requirements_of o) (ok-eq (sym decodes ∙ i.decodes)) in
    let t = check-Trusted p checked_at skew intent (some (object req)) c check in
    let (requirements, invoice, hash) =
      Trusted-issued p o inv c decodes
        (subst (λ (r : Members). Trusted p (some (object r)) c) req_eq t) in
    let q = pay-Payload p c answer (payload, fees) pay in
    let digest =
      subst (λ (v : Bolt11). check_digest p v.payment_hash q.preimage ≡ ok tt) invoice q.digest in
    let sent : payload ≡ payload_with req q.preimage =
      q.answer ∙ ap (λ (r : Members). payload_with r q.preimage) (requirements ∙ sym req_eq) in
    rw sent (
      issue-settles p issued now skew o req inv q.preimage canonical s issue decodes hash form
        digest le alive new)
