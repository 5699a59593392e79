-- ===== src/Lightning/Decode/Fuel.antt =====
-- The loop over the fields of an invoice ends before its fuel does.
use arcagentx.Prelude.{
  ℕ, zero, suc, ◌+◌, ◌-◌, ◌*◌, ◌≤◌, ◌≢◌, Bool, true, false, Option, none, some, List, [], ◌∷◌,
  Result, ok, err, ◌>>=◌, ◌>>◌, from_option, require, ◌==◌, if◌then◌else◌, length, take, drop,
  length-drop, arith,
}
use arcagentx.Prelude.Text.{Text}
use arcagentx.Lightning.Json.{Platform}
use arcagentx.Lightning.Invoice.{
  Bolt11Error, no_fuel, no_invoice, mixed_case, too_short, bad_signature, parse_hrp, hrp_amount,
  hrp_units, msat_per, Currency, bc, tb,
}
use arcagentx.Lightning.Decode.{
  Fields, field_bytes, once, hash_field, utf8_field, payee_field, store_field, read_field,
  read_fields, signer, conclude, no_fields, decode_words, decode_bolt11,
}

-- The call does not stop for want of fuel.
abbrev Ends : {A : Type 0} → Result Bolt11Error A → Type 0
Ends r = r ≢ err no_fuel

>>=-Ends :
    {A B : Type 0} (r : Result Bolt11Error A) (next : A → Result Bolt11Error B)
    → Ends r
    → ((a : A) → Ends (next a))
    → Ends (r >>= next)
>>=-Ends (ok a) next h k = k a
>>=-Ends (err e) next h k = λ p. h cc

ok-Ends : {A : Type 0} (a : A) → Ends (ok a)
ok-Ends a = λ p. cc

err-Ends : {A : Type 0} (e : Bolt11Error) → e ≢ no_fuel → Ends {A = A} (err e)
err-Ends e h = λ p. h cc

map-Ends :
    {A B : Type 0} (r : Result Bolt11Error A) (f : A → B) → Ends r → Ends (r >>= λ a. ok (f a))
map-Ends (ok a) f h = λ p. cc
map-Ends (err e) f h = λ p. h cc

from_option-Ends :
    {A : Type 0} (o : Option A) (e : Bolt11Error) → e ≢ no_fuel → Ends (from_option o e)
from_option-Ends (some a) e h = λ p. cc
from_option-Ends none e h = λ p. h (cc)

require-Ends :
    {A : Type 0} (b : Bool) (e : Bolt11Error) (r : Result Bolt11Error A)
    → e ≢ no_fuel
    → Ends r
    → Ends (require b e >> r)
require-Ends true e r h k = k
require-Ends false e r h k = λ p. h cc

field_bytes-Ends : (p : Platform) (words : List ℕ) (size : ℕ) → Ends (field_bytes p words size)
unfolding field_bytes
field_bytes-Ends p words size =
    >>=-Ends _ _ (from_option-Ends (p.from_words words) _ (λ h. cc))
      λ bytes. require-Ends _ _ _ (λ h. cc) (ok-Ends _)

hash_field-Ends : (p : Platform) (words : List ℕ) → Ends (hash_field p words)
unfolding hash_field
hash_field-Ends p words =
    require-Ends _ _ _ (λ h. cc) (map-Ends _ p.hex (field_bytes-Ends p words 32))

utf8_field-Ends : (p : Platform) (words : List ℕ) → Ends (utf8_field p words)
unfolding utf8_field
utf8_field-Ends p words =
    >>=-Ends _ _ (from_option-Ends (p.from_words words) _ (λ h. cc))
      λ bytes. from_option-Ends (p.utf8_decode bytes) _ (λ h. cc)

payee_field-Ends : (p : Platform) (words : List ℕ) → Ends (payee_field p words)
unfolding payee_field
payee_field-Ends p words = require-Ends _ _ _ (λ h. cc) (field_bytes-Ends p words 33)

once-Ends : (type : ℕ) (f : Fields) → Ends (once type f)
unfolding once
once-Ends type f = λ h. ground arith

if-Ends :
    {A : Type 0} (b : Bool) (r s : Result Bolt11Error A)
    → Ends r
    → Ends s
    → Ends (if b then r else s)
if-Ends true r s h k = h
if-Ends false r s h k = k

store_field-Ends :
    (p : Platform) (type : ℕ) (words : List ℕ) (f : Fields) → Ends (store_field p type words f)
unfolding store_field
store_field-Ends p type words f = if-Ends (type == 1) _ _ (map-Ends _ _ (hash_field-Ends p words)) (
    if-Ends (type == 16) _ _ (map-Ends _ _ (hash_field-Ends p words)) (
      if-Ends (type == 23) _ _ (map-Ends _ _ (hash_field-Ends p words)) (
        if-Ends (type == 13) _ _ (map-Ends _ _ (utf8_field-Ends p words)) (
          if-Ends (type == 19) _ _ (map-Ends _ _ (payee_field-Ends p words))
            (if-Ends (type == 6) _ _ (ok-Ends _) (ok-Ends _))))))

read_field-Ends :
    (p : Platform) (type : ℕ) (words : List ℕ) (f : Fields) → Ends (read_field p type words f)
unfolding read_field
read_field-Ends p type words f =
    if-Ends _ _ _ (>>=-Ends _ _ (once-Ends type f) (store_field-Ends p type words)) (ok-Ends f)

read_fields-Ends :
    (fuel : ℕ) (p : Platform) (words : List ℕ) (f : Fields)
    → length words ≤ fuel
    → Ends (read_fields fuel p words f)
unfolding read_fields
read_fields-Ends fuel p [] f h = λ e. cc
read_fields-Ends zero p (w ∷ ws) f h = absurd (omega arith)
read_fields-Ends (suc fuel) p (type ∷ []) f h = λ e. cc
read_fields-Ends (suc fuel) p (type ∷ high ∷ []) f h = λ e. cc
read_fields-Ends (suc fuel) p (type ∷ high ∷ low ∷ rest) f h =
    if-Ends _ _ _ (err-Ends _ (λ h. cc)) (
      >>=-Ends _ _ (read_field-Ends p type _ f) λ g.
        read_fields-Ends fuel p (drop (high * 32 + low) rest) g
          (omega (arith, length-drop (high * 32 + low) rest)))

hrp_units-Ends :
    (currency : Currency) (amount : ℕ) (units : Option (ℕ × ℕ))
    → Ends (hrp_units currency amount units)
unfolding hrp_units
hrp_units-Ends currency amount none = err-Ends _ (λ h. cc)
hrp_units-Ends currency amount (some (num, den)) = if-Ends _ _ _ (ok-Ends _) (err-Ends _ (λ h. cc))

hrp_amount-Ends : (currency : Currency) (parts : Text × Text) → Ends (hrp_amount currency parts)
unfolding hrp_amount
hrp_amount-Ends currency ([], []) = ok-Ends _
hrp_amount-Ends currency ([], c ∷ rest) = err-Ends _ (λ h. cc)
hrp_amount-Ends currency (d ∷ ds, rest) =
    if-Ends _ _ _ (err-Ends _ (λ h. cc)) (hrp_units-Ends currency _ (msat_per rest))

parse_hrp-Ends : (hrp : Text) → Ends (parse_hrp hrp)
unfolding parse_hrp
parse_hrp-Ends [] = λ h. cc
parse_hrp-Ends (l ∷ []) = λ h. cc
parse_hrp-Ends (l ∷ n ∷ []) = λ h. cc
parse_hrp-Ends (l ∷ n ∷ c ∷ []) = λ h. cc
parse_hrp-Ends (l ∷ n ∷ c ∷ d ∷ rest) =
    if-Ends _ _ _ (hrp_amount-Ends bc _)
      (if-Ends _ _ _ (hrp_amount-Ends tb _) (err-Ends _ (λ h. cc)))

signer-Ends :
    (p : Platform) (sig digest : List ℕ) (key : Option (List ℕ)) → Ends (signer p sig digest key)
unfolding signer
signer-Ends p sig digest (some key) =
    require-Ends _ bad_signature _ (λ h. cc) (require-Ends _ bad_signature _ (λ h. cc) (ok-Ends _))
signer-Ends p sig digest none =
    require-Ends _ bad_signature _ (λ h. cc) (from_option-Ends _ bad_signature (λ h. cc))

conclude-Ends :
    (p : Platform) (lower prefix : Text) (hrp : Currency × Option ℕ) (words sig_words : List ℕ)
    (f : Fields)
    → Ends (conclude p lower prefix hrp words sig_words f)
unfolding conclude
conclude-Ends p lower prefix hrp words sig_words f =
    >>=-Ends _ _ (from_option-Ends f.payment_hash _ (λ h. cc)) λ hash.
      >>=-Ends _ _ (field_bytes-Ends p sig_words 65)
        λ sig. require-Ends _ _ _ (λ h. cc) (map-Ends _ _ (signer-Ends p sig _ f.payee))

decode_fields_Ends :
    (p : Platform) (before : List ℕ)
    → Ends (read_fields (length before) p (drop 7 before) no_fields)
decode_fields_Ends p before = read_fields-Ends _ p _ _ (omega (arith, length-drop 7 before))

-- Decoding ends on every text, whatever the platform answers: the fuel of the loop over the fields
-- is never used up.
pub decode_bolt11-ends : (p : Platform) (input : Text) → decode_bolt11 p input ≢ err no_fuel
unfolding decode_bolt11 decode_words
decode_bolt11-ends p input =
    require-Ends _ no_invoice _ (λ h. cc)
      (require-Ends _ mixed_case _ (λ h. cc)
        (>>=-Ends _ _ (from_option-Ends (p.bech32_decode _) _ (λ h. cc)) λ decoded.
          >>=-Ends _ _ (parse_hrp-Ends _) λ hrp.
            require-Ends _ too_short _ (λ h. cc)
              (>>=-Ends _ _ (decode_fields_Ends p (take (length decoded.1 - 104) decoded.1))
                λ f. conclude-Ends p _ _ _ _ _ f)))
