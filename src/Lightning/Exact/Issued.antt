-- ===== src/Lightning/Exact/Issued.antt =====
-- A challenge that was issued passes the buyer's check, and settles once it is paid.
use arcagentx.Prelude.{
  ℕ, ◌+◌, ◌≤◌, ◌<◌, ◌≡◌, refl, ap, Bool, true, false, ◌&&◌, Option, none, some, Result, ok, err,
  arith, Ensures, >>=-Ensures, require-Ensures, ok-eq, from_option, from_option-eq-ok, leb, leb→le,
  ltb→lt, ==_iff,
}
use arcagentx.Prelude.Text.{Text, text_eq, text_eq_iff}
use arcagentx.Lightning.Json.{Members, Platform, get, text, whole, is_text}
use arcagentx.Lightning.Binding.{BindingError, BindingParams, check_params}
use arcagentx.Lightning.Binding.Hash.{params_json, profile_of}
use arcagentx.Lightning.Invoice.{Currency, Bolt11Error, bc, tb}
use arcagentx.Lightning.Decode.{Bolt11, decode_bolt11}
use arcagentx.Lightning.Exact.{
  Terms, currency_of, network_of, same_currency, pos_int_string, pos_int, pay_to_of, read_terms,
}
use arcagentx.Lightning.Exact.Settle.{check_invoice}
use arcagentx.Lightning.Exact.Challenge.{
  Offer, IssueError, bad_network, bad_amount, bad_timeout, bad_key, or_unbound, or_unreadable,
  offer_params, offer_invoice, fits, extra_of, requirements_of, is_none, is_some_text,
  issue_lnbtc_challenge,
}

pub text_eq_refl : (s : Text) → text_eq s s ≡ true
text_eq_refl s = (text_eq_iff s s).1 refl

pos_int_string-eq : (s t : Text) → pos_int_string (some (text s)) ≡ some t → t ≡ s
unfolding pos_int_string
pos_int_string-eq s t h = ground arith

pos_int-eq : (n m : ℕ) → pos_int (some (whole n)) ≡ some m → m ≡ n
unfolding pos_int
pos_int-eq n m h = ground arith

pay_to_of-eq : (p : Platform) (s t : Text) → pay_to_of p (some (text s)) ≡ some t → t ≡ s
unfolding pay_to_of
pay_to_of-eq p s t h = ground arith

-- A reader that gives back what it reads.
read_as :
    {A : Type 0} (o : Option A) (a : A) (e : IssueError)
    → ((b : A) → o ≡ some b → b ≡ a)
    → {b : A} → from_option o e ≡ ok b
    → o ≡ some a
read_as (some c) a e h k = ap some (h c refl)
read_as none a e h k = cc

or_unbound-eq :
    (r : Result BindingError BindingParams) (done : Unit {0})
    → or_unbound r ≡ ok done
    → (c : BindingParams) × (r ≡ ok c)
unfolding or_unbound
or_unbound-eq (err e) done h = cc
or_unbound-eq (ok c) done h = (c, refl)

or_unreadable-eq :
    (r : Result Bolt11Error Bolt11) (inv : Bolt11) → or_unreadable r ≡ ok inv → r ≡ ok inv
unfolding or_unreadable
or_unreadable-eq (err e) inv h = cc
or_unreadable-eq (ok a) inv h = cc

-- What an offer for which a challenge was issued has.
pub record Issued (p : Platform) (now skew : ℕ) (o : Offer) (invoice : Text) (req : Members)
    : Type 0 where
  pub currency : Currency
  pub inv : Bolt11
  pub on : currency_of o.network ≡ some currency
  pub amount : pos_int_string (some (text o.amount_msat)) ≡ some o.amount_msat
  pub timeout : pos_int (some (whole o.max_timeout_seconds)) ≡ some o.max_timeout_seconds
  pub key : pay_to_of p (some (text o.pubkey)) ≡ some o.pubkey
  pub params :
      (c : BindingParams) × (check_params p
          (some (text (profile_of o.params)))
          (some (params_json o.params))
        ≡ ok c)
  pub decodes : decode_bolt11 p invoice ≡ ok inv
  pub fit : fits now skew o currency inv ≡ true
  pub answer : req ≡ requirements_of o inv

pub issue-Issued :
    (p : Platform) (now skew : ℕ) (o : Offer) (invoice : Text)
    → Ensures (Issued p now skew o invoice) (issue_lnbtc_challenge p now skew o invoice)
unfolding issue_lnbtc_challenge offer_params offer_invoice
issue-Issued p now skew o invoice = >>=-Ensures _ _ λ currency on.
    >>=-Ensures (from_option (pos_int_string (some (text o.amount_msat))) bad_amount) _
      λ msat amount.
        >>=-Ensures (from_option (pos_int (some (whole o.max_timeout_seconds))) bad_timeout) _
          λ timeout timed.
            >>=-Ensures (from_option (pay_to_of p (some (text o.pubkey))) bad_key) _ λ key keyed.
              >>=-Ensures (offer_params p o) _ λ bound params.
                >>=-Ensures (offer_invoice p invoice) _ λ inv decoded.
                  require-Ensures (fits now skew o currency inv) _ _ λ fit. λ req answer. record {
                    currency = currency;
                    inv = inv;
                    on = from_option-eq-ok (currency_of o.network) bad_network on;
                    amount = read_as _ _ _ (pos_int_string-eq o.amount_msat) amount;
                    timeout = read_as _ _ _ (pos_int-eq o.max_timeout_seconds) timed;
                    key = read_as _ _ _ (pay_to_of-eq p o.pubkey) keyed;
                    params = or_unbound-eq _ bound params;
                    decodes = or_unreadable-eq _ inv decoded;
                    fit = fit;
                    answer = ok-eq answer;
                  }

-- What an invoice that fits an offer says.
pub record Fit (now skew : ℕ) (o : Offer) (currency : Currency) (inv : Bolt11) : Type 0 where
  pub amount : inv.amount_msat ≡ some o.amount_msat
  pub hash : inv.description_hash ≡ some o.request_hash
  pub bare : inv.description ≡ none
  pub payee : inv.payee ≡ o.pubkey
  pub currency_same : inv.currency ≡ currency
  pub expiry : inv.expiry ≡ o.max_timeout_seconds
  pub begun : inv.timestamp ≤ now + skew
  pub alive : now < inv.timestamp + inv.expiry

pub and-true : (a b : Bool) → (a && b) ≡ true → (a ≡ true) × (b ≡ true)
and-true true b h = (refl, h)
and-true false b h = cc

is_some_text-eq : (o : Option Text) (t : Text) → is_some_text o t ≡ true → o ≡ some t
is_some_text-eq (some s) t h = ap some ((text_eq_iff s t).0 h)
is_some_text-eq none t h = cc

is_none-eq : (o : Option Text) → is_none o ≡ true → o ≡ none
is_none-eq none h = refl
is_none-eq (some a) h = cc

same_currency-eq : (a b : Currency) → same_currency a b ≡ true → a ≡ b
unfolding same_currency
same_currency-eq bc bc h = refl
same_currency-eq tb tb h = refl
same_currency-eq bc tb h = cc
same_currency-eq tb bc h = cc

pub same_currency_refl : (a : Currency) → same_currency a a ≡ true
unfolding same_currency
same_currency_refl bc = refl
same_currency_refl tb = refl

pub fits-Fit :
    (now skew : ℕ) (o : Offer) (currency : Currency) (inv : Bolt11)
    → fits now skew o currency inv ≡ true
    → Fit now skew o currency inv
unfolding fits
fits-Fit now skew o currency inv h =
    let (rest6, alive) = and-true _ _ h in
    let (rest5, begun) = and-true _ _ rest6 in
    let (rest4, expiry) = and-true _ _ rest5 in
    let (rest3, payee) = and-true _ _ rest4 in
    let (rest2, said) = and-true _ _ rest3 in
    let (amount, coin) = and-true _ _ rest2 in
    let (hash, bare) = and-true _ _ said in
    record {
      amount = is_some_text-eq inv.amount_msat o.amount_msat amount;
      hash = is_some_text-eq inv.description_hash o.request_hash hash;
      bare = is_none-eq inv.description bare;
      payee = (text_eq_iff inv.payee o.pubkey).0 payee;
      currency_same = same_currency-eq inv.currency currency coin;
      expiry = (==_iff inv.expiry o.max_timeout_seconds).0 expiry;
      begun = leb→le inv.timestamp (now + skew) begun;
      alive = ltb→lt now (inv.timestamp + inv.expiry) alive;
    }

-- The terms of an offer.
abbrev pub terms_of : Offer → Currency → Terms
terms_of o currency = record {
  network = o.network;
  currency = currency;
  amount = o.amount_msat;
  max_timeout = o.max_timeout_seconds;
  pay_to = o.pubkey;
}

pub read_terms-requirements_of :
    (p : Platform) (o : Offer) (currency : Currency) (inv : Bolt11)
    → currency_of o.network ≡ some currency
    → pos_int_string (some (text o.amount_msat)) ≡ some o.amount_msat
    → pos_int (some (whole o.max_timeout_seconds)) ≡ some o.max_timeout_seconds
    → pay_to_of p (some (text o.pubkey)) ≡ some o.pubkey
    → read_terms p (requirements_of o inv) ≡ ok (terms_of o currency)
unfolding read_terms requirements_of get is_text network_of
read_terms-requirements_of p o currency inv on amount timeout key =
    rw (on, amount, timeout, key) refl

pub check_invoice-Fit :
    (issued now skew : ℕ) (o : Offer) (currency : Currency) (inv : Bolt11)
    → Fit issued skew o currency inv
    → issued ≤ now
    → check_invoice now skew (terms_of o currency) (extra_of o inv) inv ≡ ok tt
unfolding check_invoice extra_of get is_text
check_invoice-Fit issued now skew o currency inv f le =
    let begun : leb inv.timestamp (now + skew) ≡ true = ground (arith, f.begun) in
    rw
      (
        f.amount,
        f.hash,
        f.bare,
        f.payee,
        f.currency_same,
        f.expiry,
        begun,
        text_eq_refl o.request_hash,
        text_eq_refl o.pubkey,
        same_currency_refl currency,
        text_eq_refl o.amount_msat,
        (==_iff o.max_timeout_seconds o.max_timeout_seconds).1 refl,
      )
      refl
