-- ===== src/Lightning/Decode.antt =====
-- packages/lightning/src/bolt11.ts: decoding an invoice. The loop over the fields takes as much fuel
-- as there are words.
pub mod Fuel
use arcagentx.Prelude.{
  ℕ, zero, suc, ◌+◌, ◌-◌, ◌*◌, ◌/◌, ◌%◌, ◌^◌, Bool, true, false, ◌||◌, ◌&&◌, not, Option, none,
  some, List, [], ◌∷◌, ◌++◌, Result, ok, err, ◌>>=◌, ◌>>◌, require, from_option, ltb, leb, ◌==◌,
  if◌then◌else◌, length, take, drop, any, map,
}
use arcagentx.Prelude.Text.{Text, codes, text_eq, trim, to_lower}
use arcagentx.Accounting.Decimal.{decimal}
use arcagentx.Lightning.Json.{Platform}
use arcagentx.Lightning.Invoice.{
  Currency, Bolt11Error, bc, tb, words_to_int, parse_hrp, no_invoice, mixed_case, not_bech32,
  too_short, field_past_end, repeated_field, wrong_length, bad_padding, bad_size, not_utf8,
  no_payment_hash, bad_recovery, bad_signature, no_fuel,
}

pub record Bolt11 : Type 0 where
  pub invoice : Text
  pub currency : Currency
  pub amount_msat : Option Text
  pub timestamp : ℕ
  pub expiry : ℕ
  pub payment_hash : Text
  pub payment_secret : Option Text
  pub description_hash : Option Text
  pub description : Option Text
  pub payee : Text
  pub payee_stated : Bool
  pub min_final_cltv_expiry : Option ℕ

-- The variables of the loop.
pub record Fields : Type 0 where
  pub payment_hash : Option Text
  pub payment_secret : Option Text
  pub description_hash : Option Text
  pub description : Option Text
  pub payee : Option (List ℕ)
  pub expiry : Option ℕ
  pub min_final_cltv_expiry : Option ℕ
  pub seen : List ℕ

abbrev pub no_fields : Fields
no_fields = record {
  payment_hash = none;
  payment_secret = none;
  description_hash = none;
  description = none;
  payee = none;
  expiry = none;
  min_final_cltv_expiry = none;
  seen = [];
}

-- The loop of `wordsToBytesPadded` inside a word: bytes come out while there are eight bits.
unfoldable pub bytes_in : ℕ → ℕ → ℕ → List ℕ × ℕ
bytes_in zero acc bits = ([], bits)
bytes_in (suc fuel) acc bits =
    let rest = bytes_in fuel acc (bits - 8) in
    if leb 8 bits then (acc / 2 ^ (bits - 8) % 256 ∷ rest.0, rest.1) else ([], bits)

-- Fewer than eight bits wait when a word of five comes, so one byte at most comes out.
unfoldable pub bytes_padded : ℕ → ℕ → List ℕ → List ℕ
bytes_padded acc bits [] = if leb 1 bits then acc * 2 ^ (8 - bits) % 256 ∷ [] else []
bytes_padded acc bits (w ∷ words) =
    let (out, left) = bytes_in 2 (acc * 32 + w) (bits + 5) in
    out ++ bytes_padded ((acc * 32 + w) % 2 ^ left) left words

unfoldable pub words_to_bytes_padded : List ℕ → List ℕ
words_to_bytes_padded words = bytes_padded 0 0 words

unfoldable pub field_bytes : Platform → List ℕ → ℕ → Result Bolt11Error (List ℕ)
field_bytes p words size = do
  bytes ← from_option (p.from_words words) bad_padding
  require (length bytes == size) bad_size
  ok bytes

-- `once`.
unfoldable pub once : ℕ → Fields → Result Bolt11Error Fields
once type f =
    if any (λ t. t == type) f.seen
    then err repeated_field
    else ok (record f { seen = type ∷ f.seen })

-- A field of 52 words that are 32 bytes, in hexadecimal.
unfoldable pub hash_field : Platform → List ℕ → Result Bolt11Error Text
hash_field p words = do
  require (length words == 52) wrong_length
  bytes ← field_bytes p words 32
  ok (p.hex bytes)

unfoldable pub utf8_field : Platform → List ℕ → Result Bolt11Error Text
utf8_field p words = from_option (p.from_words words) not_utf8 >>= λ bytes.
    from_option (p.utf8_decode bytes) not_utf8

unfoldable pub payee_field : Platform → List ℕ → Result Bolt11Error (List ℕ)
payee_field p words = do require (length words == 53) wrong_length; field_bytes p words 33

-- The `switch` over the type of a field, once it is known not to be repeated.
unfoldable pub store_field : Platform → ℕ → List ℕ → Fields → Result Bolt11Error Fields
store_field p type words f =
    if type == 1
    then (hash_field p words >>= λ h. ok (record f { payment_hash = some h }))
    else if type == 16
    then (hash_field p words >>= λ h. ok (record f { payment_secret = some h }))
    else if type == 23
    then (hash_field p words >>= λ h. ok (record f { description_hash = some h }))
    else if type == 13
    then (utf8_field p words >>= λ t. ok (record f { description = some t }))
    else if type == 19
    then (payee_field p words >>= λ b. ok (record f { payee = some b }))
    else if type == 6
    then ok (record f { expiry = some (words_to_int words) })
    else ok (record f { min_final_cltv_expiry = some (words_to_int words) })

-- The cases of the `switch`: p, s, h, d, n, x and c.
abbrev pub tags : List ℕ
tags = 1 ∷ 16 ∷ 23 ∷ 13 ∷ 19 ∷ 6 ∷ 24 ∷ []

unfoldable pub read_field : Platform → ℕ → List ℕ → Fields → Result Bolt11Error Fields
read_field p type words f =
    if any (λ t. t == type) tags then once type f >>= store_field p type words else ok f

-- The loop over the words from `i` on.
unfoldable pub read_fields : ℕ → Platform → List ℕ → Fields → Result Bolt11Error Fields
read_fields fuel p [] f = ok f
read_fields zero p (w ∷ ws) f = err no_fuel
read_fields (suc fuel) p (type ∷ high ∷ low ∷ rest) f =
    let len = high * 32 + low in
    if ltb (length rest) len
    then err field_past_end
    else read_field p type (take len rest) f >>= λ g. read_fields fuel p (drop len rest) g
read_fields (suc fuel) p short f = err field_past_end

-- `sig[64]`.
unfoldable pub recovery_of : List ℕ → ℕ
recovery_of sig = elim (drop 64 sig) [ [] ↦ 0 | r ∷ rest ↦ r ]

-- The key that the signature is of.
unfoldable pub signer : Platform → List ℕ → List ℕ → Option (List ℕ) → Result Bolt11Error Text
signer p sig digest (some key) = do
  require (p.is_signature (take 64 sig)) bad_signature
  require (p.verify (take 64 sig) digest key) bad_signature
  ok (p.hex key)
signer p sig digest none = do
  require (p.is_signature (take 64 sig)) bad_signature
  from_option (p.recover (take 64 sig) (recovery_of sig) digest) bad_signature

abbrev is_some {ℓ} : {A : Type ℓ} → Option A → Bool
is_some none = false
is_some (some a) = true

abbrev expiry_or_hour : Option ℕ → ℕ
expiry_or_hour none = 3600
expiry_or_hour (some n) = n

abbrev amount_text : Option ℕ → Option Text
amount_text none = none
amount_text (some n) = some (decimal n)

-- What is left once the fields are read: the payment hash and the signature.
unfoldable pub conclude :
    Platform
    → Text
    → Text
    → Currency × Option ℕ
    → List ℕ
    → List ℕ
    → Fields
    → Result Bolt11Error Bolt11
conclude p lower prefix hrp words sig_words f = do
  payment_hash ← from_option f.payment_hash no_payment_hash
  sig ← field_bytes p sig_words 65
  require (leb (recovery_of sig) 3) bad_recovery
  payee ← signer p sig (p.sha256 (p.utf8 prefix ++ words_to_bytes_padded words)) f.payee
  ok (record {
    invoice = lower;
    currency = hrp.0;
    amount_msat = amount_text hrp.1;
    timestamp = words_to_int (take 7 words);
    expiry = expiry_or_hour f.expiry;
    payment_hash = payment_hash;
    payment_secret = f.payment_secret;
    description_hash = f.description_hash;
    description = f.description;
    payee = payee;
    payee_stated = is_some f.payee;
    min_final_cltv_expiry = f.min_final_cltv_expiry;
  })

abbrev upper_code : ℕ → ℕ
upper_code c = if leb b'a' c && leb c b'z' then c - 32 else c

abbrev is_one_case : Text → Bool
is_one_case t = text_eq t (to_lower t) || text_eq t (map upper_code t)

-- The words before the signature, with the loop's fuel.
unfoldable pub decode_words :
    Platform → Text → Text → Currency × Option ℕ → List ℕ → Result Bolt11Error Bolt11
decode_words p lower prefix hrp words = do
  require (leb (7 + 104) (length words)) too_short
  let before = take (length words - 104) words
  f ← read_fields (length before) p (drop 7 before) no_fields
  conclude p lower prefix hrp before (drop (length words - 104) words) f

unfoldable pub decode_bolt11 : Platform → Text → Result Bolt11Error Bolt11
decode_bolt11 p input = do
  require (not (text_eq input [])) no_invoice
  require (is_one_case (trim input)) mixed_case
  let lower = to_lower (trim input)
  (prefix, words) ← from_option (p.bech32_decode lower) not_bech32
  hrp ← parse_hrp prefix
  decode_words p lower prefix hrp words
