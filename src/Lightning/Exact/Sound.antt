-- ===== src/Lightning/Exact/Sound.antt =====
-- What is so when a settlement succeeds: the payment's invoice was made for the request and for the
-- price, and it is paid.
use arcagentx.Prelude.{
  ℕ, ◌+◌, ◌≤◌, ◌≡◌, refl, ap, ◌∙◌, inl, inr, true, Option, none, some, Result, ok, err, from_option,
  from_option-eq-ok, Ensures, >>=-Ensures, require-Ensures, require-eq-ok, ok-eq, leb→le, ◌==◌,
  ==_iff, length, all, Bool-cases,
}
use arcagentx.Prelude.Text.{Text, codes, text_eq_iff}
use arcagentx.Lightning.Json.{
  Json, Members, Platform, null, text, get, as_object, is_text, is_hex_digit, boolean, whole,
  other_number, array, object,
}
use arcagentx.Lightning.Binding.Hash.{sha256hex}
use arcagentx.Lightning.Invoice.{Currency, Bolt11Error, bc, tb}
use arcagentx.Lightning.Decode.{Bolt11, decode_bolt11}
use arcagentx.Lightning.Replay.{FileReplayStore, claim}
use arcagentx.Lightning.Exact.{
  Stop, Terms, unsupported_scheme, request_binding, invoice_decode_failed, invoice_description,
  invoice_missing, refused, threw, same_currency, read_terms, invoice_of,
}
use arcagentx.Lightning.Exact.Settle.{
  settled, Proof, check_core, check_extra, or_undecoded, decoded, check_invoice, get_in, is_none,
  check_digest, check_preimage, check_paid, check_sides, check_payment, replay_key, fail,
  claim_proof, settle_lnbtc,
}

-- The extra fields of a challenge, and the invoice that a payment was made for.
abbrev pub extra_in : Members → Option Members
extra_in m = as_object (get (codes "extra") m)

abbrev pub accepted_in : Option Json → Option Members
accepted_in payment = as_object (get_in (codes "accepted") (as_object payment))

abbrev pub bind_option : {A B : Type 0} → Option A → (A → Option B) → Option B
bind_option none f = none
bind_option (some a) f = f a

abbrev pub paid_invoice : Option Json → Option Text
paid_invoice payment = bind_option (bind_option (accepted_in payment) extra_in) invoice_of

-- The preimage that a payment carries.
abbrev pub preimage_in : Option Json → Option Json
preimage_in payment =
    get_in (codes "preimage") (as_object (get_in (codes "payload") (as_object payment)))

-- The invoice is paid: the preimage is a text whose digest is the payment hash.
abbrev pub IsPaid : Platform → Bolt11 → Option Json → Type 0
IsPaid p inv (some (text s)) = sha256hex p (p.from_hex s) ≡ inv.payment_hash
IsPaid p inv other = ⊥

-- The invoice is for these terms and this request, and the time is in its window.
pub record IsFor (now skew : ℕ) (terms : Terms) (request_hash : Option Json) (inv : Bolt11)
    : Type 0 where
  pub amount : inv.amount_msat ≡ some terms.amount
  pub request :
      (hash : Text) × (inv.description_hash ≡ some hash) × (request_hash ≡ some (text hash))
  pub no_description : inv.description ≡ none
  pub payee : inv.payee ≡ terms.pay_to
  pub currency : inv.currency ≡ terms.currency
  pub expiry : inv.expiry ≡ terms.max_timeout
  pub begun : inv.timestamp ≤ now + skew

same_currency-eq : (a b : Currency) → same_currency a b ≡ true → a ≡ b
unfolding same_currency
same_currency-eq bc bc h = refl
same_currency-eq tb tb h = refl
same_currency-eq bc tb h = cc
same_currency-eq tb bc h = cc

is_text-eq : (t : Text) (j : Option Json) → is_text t j ≡ true → j ≡ some (text t)
unfolding is_text
is_text-eq t none h = cc
is_text-eq t (some null) h = cc
is_text-eq t (some (boolean b)) h = cc
is_text-eq t (some (whole n)) h = cc
is_text-eq t (some (other_number n)) h = cc
is_text-eq t (some (text s)) h = ap (λ u. some (text u)) ((text_eq_iff s t).0 h)
is_text-eq t (some (array js)) h = cc
is_text-eq t (some (object m)) h = cc

is_none-eq : {A : Type 0} (o : Option A) → is_none o ≡ true → o ≡ none
is_none-eq none h = refl
is_none-eq (some a) h = cc

check_invoice-IsFor :
    (now skew : ℕ) (terms : Terms) (rx : Members) (inv : Bolt11)
    → Ensures
        (λ done. IsFor now skew terms (get (codes "requestHash") rx) inv)
        (check_invoice now skew terms rx inv)
unfolding check_invoice
check_invoice-IsFor now skew terms rx inv = >>=-Ensures _ _ λ msat amount.
    >>=-Ensures _ _ λ hash named. require-Ensures _ _ _ λ bare. require-Ensures _ _ _ λ asked.
      require-Ensures _ _ _ λ payee. require-Ensures _ _ _ λ currency.
        require-Ensures _ _ _ λ priced. require-Ensures _ _ _ λ expiry. λ done begun. record {
          amount =
              from_option-eq-ok inv.amount_msat (refused invoice_decode_failed) amount
              ∙ ap some ((text_eq_iff msat terms.amount).0 priced);
          request = (
            hash,
            from_option-eq-ok inv.description_hash (refused invoice_description) named,
            is_text-eq hash _ asked,
          );
          no_description = is_none-eq inv.description bare;
          payee = (text_eq_iff _ _).0 payee;
          currency = same_currency-eq _ _ currency;
          expiry = (==_iff _ _).0 expiry;
          begun = leb→le _ _ (require-eq-ok _ _ done begun);
        }

check_digest-eq :
    (p : Platform) (payment_hash s : Text)
    → Ensures (λ done. sha256hex p (p.from_hex s) ≡ payment_hash) (check_digest p payment_hash s)
unfolding check_digest
check_digest-eq p payment_hash s = require-Ensures (all is_hex_digit s) _ _ λ digits.
    require-Ensures (length s == 64) _ _
      λ long. λ done hashed. (text_eq_iff _ _).0 (require-eq-ok _ _ done hashed)

check_preimage-IsPaid :
    (p : Platform) (inv : Bolt11) (j : Option Json)
    → Ensures (λ done. IsPaid p inv j) (check_preimage p inv.payment_hash j)
unfolding check_preimage
check_preimage-IsPaid p inv none = λ a h. cc
check_preimage-IsPaid p inv (some null) = λ a h. cc
check_preimage-IsPaid p inv (some (boolean b)) = λ a h. cc
check_preimage-IsPaid p inv (some (whole n)) = λ a h. cc
check_preimage-IsPaid p inv (some (other_number n)) = λ a h. cc
check_preimage-IsPaid p inv (some (array js)) = λ a h. cc
check_preimage-IsPaid p inv (some (object m)) = λ a h. cc
check_preimage-IsPaid p inv (some (text s)) = check_digest-eq p inv.payment_hash s

or_undecoded-eq :
    (r : Result Bolt11Error Bolt11) (inv : Bolt11) → or_undecoded r ≡ ok inv → r ≡ ok inv
unfolding or_undecoded
or_undecoded-eq (err e) inv h = cc
or_undecoded-eq (ok a) inv h = cc

pub decoded-eq :
    (p : Platform) (t : Text) (inv : Bolt11) → decoded p t ≡ ok inv → decode_bolt11 p t ≡ ok inv
unfolding decoded
decoded-eq p t inv h = or_undecoded-eq (decode_bolt11 p t) inv h

-- What the checks make sure of.
pub record Facts (p : Platform) (now skew : ℕ) (payment requirements : Option Json) (proof : Proof)
    : Type 0 where
  pub terms : Terms
  pub server : Members
  pub extra : Members
  pub invoice : Text
  pub inv : Bolt11
  pub from_server : as_object requirements ≡ some server
  pub read : read_terms p server ≡ ok terms
  pub extra_fields : extra_in server ≡ some extra
  pub carried : paid_invoice payment ≡ some invoice
  pub decodes : decode_bolt11 p invoice ≡ ok inv
  pub is_for : IsFor now skew terms (get (codes "requestHash") extra) inv
  pub is_paid : IsPaid p inv (preimage_in payment)
  pub in_time : now ≤ inv.timestamp + inv.expiry + skew
  pub network : proof.network ≡ terms.network
  pub payment_hash : proof.payment_hash ≡ inv.payment_hash
  pub keep_until : proof.keep_until ≡ inv.timestamp + inv.expiry + skew + 3600

check_payment-Facts :
    (p : Platform) (now skew : ℕ) (payment requirements : Option Json)
    → Ensures
        (Facts p now skew payment requirements)
        (check_payment p now skew payment requirements)
unfolding check_payment check_sides check_paid
check_payment-Facts p now skew payment requirements = >>=-Ensures _ _ λ req req_eq.
    >>=-Ensures _ _ λ pay pay_eq. >>=-Ensures _ _ λ acc acc_eq.
      >>=-Ensures (check_core acc req) _ λ core core_ok. >>=-Ensures _ _ λ terms terms_eq.
        >>=-Ensures _ _ λ rx rx_eq. >>=-Ensures _ _ λ ax ax_eq.
          >>=-Ensures (check_extra p rx ax) _ λ extra extra_ok.
            >>=-Ensures (from_option (invoice_of rx) (refused invoice_missing)) _
              λ server_invoice server_eq. >>=-Ensures _ _ λ invoice invoice_eq.
                >>=-Ensures _ _ λ inv inv_eq. >>=-Ensures _ _ λ is_for for_eq.
                  >>=-Ensures _ _ λ is_paid paid_eq. require-Ensures _ _ _ λ in_time.
                    λ proof proof_eq.
                      let server =
                        from_option-eq-ok (as_object requirements) (refused unsupported_scheme)
                          req_eq in
                      let body =
                        from_option-eq-ok (as_object payment) (refused unsupported_scheme) pay_eq in
                      let accepted =
                        from_option-eq-ok (as_object (get (codes "accepted") pay))
                          (refused unsupported_scheme) acc_eq in
                      let sent = from_option-eq-ok (extra_in acc) (refused request_binding) ax_eq in
                      let named =
                        from_option-eq-ok (invoice_of ax) (refused invoice_missing) invoice_eq in
                      record {
                        terms = terms;
                        server = req;
                        extra = rx;
                        invoice = invoice;
                        inv = inv;
                        from_server = server;
                        read = terms_eq;
                        extra_fields =
                            from_option-eq-ok (extra_in req) (refused request_binding) rx_eq;
                        carried = rw body (rw accepted (rw sent named));
                        decodes = decoded-eq p invoice inv inv_eq;
                        is_for = check_invoice-IsFor now skew terms rx inv is_for for_eq;
                        is_paid = rw body (check_preimage-IsPaid p inv _ is_paid paid_eq);
                        in_time = leb→le _ _ in_time;
                        network = ap (λ (q : Proof). q.network) (ok-eq proof_eq);
                        payment_hash = ap (λ (q : Proof). q.payment_hash) (ok-eq proof_eq);
                        keep_until = ap (λ (q : Proof). q.keep_until) (ok-eq proof_eq);
                      }

claim_proof-settled :
    (now : ℕ) (requirements : Option Json) (r : Result Stop Proof) (s : FileReplayStore)
    (tx network : Text)
    → (claim_proof now requirements r s).1 ≡ ok (settled tx network)
    → (proof : Proof) × (r ≡ ok proof)
      × (tx ≡ proof.payment_hash)
      × (network ≡ proof.network)
      × ((claim_proof now requirements r s).0 ≡ (claim now (replay_key proof) proof.keep_until s).0)
      × ((claim now (replay_key proof) proof.keep_until s).1 ≡ true)
unfolding claim_proof fail
claim_proof-settled now requirements (err (refused e)) s tx network h = cc
claim_proof-settled now requirements (err (threw e)) s tx network h = cc
claim_proof-settled now requirements (ok proof) s tx network h =
    elim (Bool-cases (claim now (replay_key proof) proof.keep_until s).1) [
      | inl new ↦ let k = rw new at h in (proof, refl, cc, cc, refl, new)
      | inr old ↦ let k = rw old at h in cc
    ]

-- A settlement that succeeds names the payment hash of the invoice that the payment carries and the
-- network of the server, its key was not known before, and the invoice is for exactly the server's
-- price, key, network, expiry and request, it is paid, and it has expired no longer ago than the
-- skew.
pub settle_lnbtc_sound :
    (p : Platform) (now skew : ℕ) (payment requirements : Option Json) (s : FileReplayStore)
    (tx network : Text)
    → (settle_lnbtc p now skew payment requirements s).1 ≡ ok (settled tx network)
    → (proof : Proof) × Facts p now skew payment requirements proof
      × (tx ≡ proof.payment_hash)
      × (network ≡ proof.network)
      × ((settle_lnbtc p now skew payment requirements s).0
          ≡ (claim now (replay_key proof) proof.keep_until s).0)
      × ((claim now (replay_key proof) proof.keep_until s).1 ≡ true)
unfolding settle_lnbtc
settle_lnbtc_sound p now skew payment requirements s tx network h =
    let (proof, e, hash, on, state, new) = claim_proof-settled now requirements _ s tx network h in
    (proof, check_payment-Facts p now skew payment requirements proof e, hash, on, state, new)
