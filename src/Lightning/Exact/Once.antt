-- ===== src/Lightning/Exact/Once.antt =====
-- One invoice buys one request.
use mathlib.Core.Path.{subst}
use arcagentx.Prelude.{
  ℕ, ◌+◌, ◌≤◌, ◌≡◌, ◌≢◌, ap, sym, ◌∙◌, inl, inr, Bool, false, Option, some, ◌∷◌, ◌++◌, ok, arith,
  Bool-cases, Ensures, >>=-Ensures, require-Ensures, ok-eq, from_option, from_option-eq-ok,
}
use arcagentx.Prelude.Text.{Text, codes, text_eq, text_eq_iff}
use arcagentx.Lightning.Json.{Json, Members, Platform, get, is_text}
use arcagentx.Lightning.Invoice.{Currency, bc, tb}
use arcagentx.Lightning.Decode.{Bolt11, decode_bolt11}
use arcagentx.Lightning.Replay.{FileReplayStore, claim}
use arcagentx.Lightning.Replay.Once.{Step, Reach, claim-once}
use arcagentx.Lightning.Exact.{
  Terms, currency_of, read_terms, unsupported_network, max_timeout, pay_to_malformed, pay_to_of,
  pos_int, invalid_amount, pos_int_string, refused, network_of, lnbtc_mainnet, lnbtc_testnet,
}
use arcagentx.Lightning.Exact.Settle.{settled, Proof, replay_key, settle_lnbtc}
use arcagentx.Lightning.Exact.Sound.{Facts, paid_invoice, settle_lnbtc_sound}

Reach-le :
    (early late : ℕ) (s t : FileReplayStore) → early ≤ late → Reach early s t → Reach late s t
Reach-le early late s _ le Reach.here = Reach.here
Reach-le early late s _ le (Reach.next r (Step.claiming u now k t h)) =
    Reach.next (Reach-le early late s u le r) (Step.claiming u now k t (omega arith))
Reach-le early late s _ le (Reach.next r (Step.restarting u now h)) =
    Reach.next (Reach-le early late s u le r) (Step.restarting u now (omega arith))

-- The network's name, by the currency.
abbrev network_for : Currency → Text
network_for bc = lnbtc_mainnet
network_for tb = lnbtc_testnet

some-eq : {A : Type 0} {a b : A} → some a ≡ some b → a ≡ b
some-eq h = cc

currency_of-network :
    (network : Text) (c : Currency) → currency_of network ≡ some c → network ≡ network_for c
unfolding currency_of
currency_of-network network c h = elim (Bool-cases (text_eq network lnbtc_mainnet)) [
  | inl main ↦
      let k = rw main at h in
      subst (λ d. network ≡ network_for d) (some-eq k) ((text_eq_iff network lnbtc_mainnet).0 main)
  | inr other ↦ elim (Bool-cases (text_eq network lnbtc_testnet)) [
    | inl test ↦
        let k = rw (other, test) at h in
        subst (λ d. network ≡ network_for d) (some-eq k)
          ((text_eq_iff network lnbtc_testnet).0 test)
    | inr unknown ↦ let k = rw (other, unknown) at h in cc
  ]
]

read_terms-network :
    (p : Platform) (req : Members)
    → Ensures (λ terms. terms.network ≡ network_for terms.currency) (read_terms p req)
unfolding read_terms
read_terms-network p req =
    require-Ensures (is_text (codes "exact") (get (codes "scheme") req)) _ _ λ scheme.
      >>=-Ensures
        (from_option (network_of (get (codes "network") req)) (refused unsupported_network)) _
        λ network network_eq. >>=-Ensures _ _ λ currency currency_eq.
          require-Ensures (is_text (codes "BTC") (get (codes "asset") req)) _ _ λ asset.
            >>=-Ensures
              (from_option (pos_int_string (get (codes "amount") req)) (refused invalid_amount)) _
              λ msat msat_eq.
                >>=-Ensures
                  (from_option (pos_int (get (codes "maxTimeoutSeconds") req))
                    (refused max_timeout))
                  _
                  λ timeout timeout_eq.
                    >>=-Ensures
                      (from_option (pay_to_of p (get (codes "payTo") req))
                        (refused pay_to_malformed))
                      _
                      λ key key_eq. λ terms terms_eq.
                        let same = ok-eq terms_eq in
                        ap (λ (t : Terms). t.network) same
                        ∙ currency_of-network network currency (
                            from_option-eq-ok (currency_of network) (refused unsupported_network)
                              currency_eq)
                        ∙ ap (λ (t : Terms). network_for t.currency) (sym same)

Facts-network :
    (p : Platform) (now skew : ℕ) (pay req : Option Json) (proof : Proof)
    (f : Facts p now skew pay req proof)
    → proof.network ≡ network_for f.inv.currency
Facts-network p now skew pay req proof f =
    f.network
    ∙ read_terms-network p f.server f.terms f.read
    ∙ ap network_for (sym f.is_for.currency)

-- What an invoice fixes: the key in the store and the time until which it is kept.
Facts-unique :
    (p : Platform) (now later skew : ℕ) (pay req pay' req' : Option Json) (proof proof' : Proof)
    → paid_invoice pay ≡ paid_invoice pay'
    → Facts p now skew pay req proof
    → Facts p later skew pay' req' proof'
    → (replay_key proof ≡ replay_key proof') × (proof.keep_until ≡ proof'.keep_until)
unfolding replay_key
Facts-unique p now later skew pay req pay' req' proof proof' same f g =
    let text_same = some-eq (sym f.carried ∙ same ∙ g.carried) in
    let inv_same = ok-eq (sym g.decodes ∙ ap (decode_bolt11 p) (sym text_same) ∙ f.decodes) in
    let network =
      Facts-network p now skew pay req proof f
      ∙ ap (λ (inv : Bolt11). network_for inv.currency) inv_same
      ∙ sym (Facts-network p later skew pay' req' proof' g) in
    let hash =
      f.payment_hash ∙ ap (λ (inv : Bolt11). inv.payment_hash) inv_same ∙ sym g.payment_hash in
    (
      ap (λ (n : Text). n ++ b':' ∷ proof.payment_hash) network
          ∙ ap (λ (h : Text). proof'.network ++ b':' ∷ h) hash,
      f.keep_until
          ∙ ap (λ (inv : Bolt11). inv.timestamp + inv.expiry + skew + 3600) inv_same
          ∙ sym g.keep_until,
    )

-- An invoice whose payment has been settled is never settled again: no later settlement of a payment
-- that carries the same invoice succeeds, whatever its time and whatever the server asks for then,
-- after any claims and restarts of the store in between, as long as the clock did not run past the
-- time of the later one.
pub settle_lnbtc-once :
    (p : Platform) (now later skew : ℕ) (pay req pay' req' : Option Json) (s t : FileReplayStore)
    (tx network tx' network' : Text)
    → (settle_lnbtc p now skew pay req s).1 ≡ ok (settled tx network)
    → paid_invoice pay ≡ paid_invoice pay'
    → now ≤ later
    → Reach later (settle_lnbtc p now skew pay req s).0 t
    → (settle_lnbtc p later skew pay' req' t).1 ≢ ok (settled tx' network')
settle_lnbtc-once p now later skew pay req pay' req' s t tx network tx' network' first same le r
      again =
    let (proof, f, hash, on, state, new) =
      settle_lnbtc_sound p now skew pay req s tx network first in
    let (proof', g, hash', on', state', new') =
      settle_lnbtc_sound p later skew pay' req' t tx' network' again in
    let (key, kept) = Facts-unique p now later skew pay req pay' req' proof proof' same f g in
    let in_time : later ≤ proof.keep_until = omega (arith, kept, g.keep_until, g.in_time) in
    let from_claim = subst (λ u. Reach later u t) state r in
    let refused_again =
      claim-once (replay_key proof) proof.keep_until now later proof'.keep_until s t
        (omega (arith, in_time, le)) new (Reach-le later proof.keep_until _ t in_time from_claim) in
    let denied = subst (λ k. claim later k proof'.keep_until t ≡ (t, false)) key refused_again in
    let answer = sym new' ∙ ap (λ (c : FileReplayStore × Bool). c.1) denied in cc
