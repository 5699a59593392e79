-- ===== src/Policy/Parse/Settings.antt =====
-- What a policy string can change.
use mathlib.Core.List.{map-append}
use arcagentx.Prelude.{
  filter-append, Result-cases, ℕ, ◌≡◌, ◌≢◌, inl, inr, refl, ap, sym, ◌∙◌, Option, none, some, List,
  [], ◌∷◌, ◌++◌, map, arith, ok, ◌>>=◌, >>=-eq-ok, from_option, from_option-eq-ok, All, ◌==◌,
  Bool-cases,
}
use arcagentx.Prelude.Text.{Text, text_eq_iff, trim, cut, split}
use arcagentx.Policy.{SpendPolicy}
use arcagentx.Policy.Parse.{
  no_key_value, unknown_key, Setting, daily, per_seller, per_payment, rate, allow, deny, networks,
  identity, bond, name, setting_of, apply, apply_part, apply_parts, nonempty, parts_of,
  parse_policy_string,
}

-- Two policies agree on a setting.
abbrev pub Agree : Setting → SpendPolicy → SpendPolicy → Type 0
Agree daily p q = p.daily_cap ≡ q.daily_cap
Agree per_seller p q = p.per_counterparty_daily_cap ≡ q.per_counterparty_daily_cap
Agree per_payment p q = p.per_payment_cap ≡ q.per_payment_cap
Agree rate p q = p.rate_limit ≡ q.rate_limit
Agree allow p q = p.allowlist ≡ q.allowlist
Agree deny p q = p.denylist ≡ q.denylist
Agree networks p q = p.allowed_networks ≡ q.allowed_networks
Agree identity p q = p.require_verified_identity ≡ q.require_verified_identity
Agree bond p q = p.required_seller_bond ≡ q.required_seller_bond

Agree-refl : (k : Setting) (p : SpendPolicy) → Agree k p p
Agree-refl daily p = refl
Agree-refl per_seller p = refl
Agree-refl per_payment p = refl
Agree-refl rate p = refl
Agree-refl allow p = refl
Agree-refl deny p = refl
Agree-refl networks p = refl
Agree-refl identity p = refl
Agree-refl bond p = refl

Agree-trans : (k : Setting) (p q r : SpendPolicy) → Agree k p q → Agree k q r → Agree k p r
Agree-trans daily p q r e f = e ∙ f
Agree-trans per_seller p q r e f = e ∙ f
Agree-trans per_payment p q r e f = e ∙ f
Agree-trans rate p q r e f = e ∙ f
Agree-trans allow p q r e f = e ∙ f
Agree-trans deny p q r e f = e ∙ f
Agree-trans networks p q r e f = e ∙ f
Agree-trans identity p q r e f = e ∙ f
Agree-trans bond p q r e f = e ∙ f

-- The body of a case writes its own setting alone.
apply-Agree :
    (s k : Setting) (v : Text) (p q : SpendPolicy) → apply s v p ≡ ok q → k ≢ s → Agree k p q
unfolding apply
apply-Agree daily daily v p q e ne = absurd (ne refl)
apply-Agree s k v p q e ne = ground arith

abbrev key_in : Option (Text × Text) → Option Text
key_in none = none
key_in (some (key, v)) = some (trim key)

-- The key of a part: none where the part has no `=`.
abbrev pub key_of : Text → Option Text
key_of part = key_in (cut b'=' part)

setting_of-name : (key : Text) (s : Setting) → setting_of key ≡ some s → key ≡ name s
unfolding setting_of
setting_of-name key daily e = (text_eq_iff key (name daily)).0 (ground arith)
setting_of-name key s e = (text_eq_iff key (name s)).0 (ground arith)

apply_part-setting :
    (part : Text) (p q : SpendPolicy)
    → apply_part part p ≡ ok q
    → (s : Setting) × (v : Text) × (key_of part ≡ some (name s)) × (apply s v p ≡ ok q)
unfolding apply_part
apply_part-setting part p q e =
    let (kv, found, e₁) = >>=-eq-ok (from_option (cut b'=' part) (no_key_value part)) _ e in
    let (s, known, e₂) =
      >>=-eq-ok (from_option (setting_of (trim kv.0)) (unknown_key (trim kv.0))) _ e₁ in
    (
      s,
      trim kv.1,
      ap key_in (from_option-eq-ok _ _ found)
          ∙ ap some (setting_of-name (trim kv.0) s (from_option-eq-ok _ _ known)),
      e₂,
    )

-- No part of the text writes the setting.
abbrev pub Silent : Setting → List Text → Type 0
Silent k parts = All (λ part. key_of part ≢ some (name k)) parts

apply_parts-Agree :
    (k : Setting) (parts : List Text) (p q : SpendPolicy)
    → apply_parts parts p ≡ ok q
    → Silent k parts
    → Agree k p q
unfolding apply_parts
apply_parts-Agree k [] p q e h = let same : p ≡ q = cc in rw same (Agree-refl k q)
apply_parts-Agree k (part ∷ parts) p q e (silent, h) =
    let (m, e₁, e₂) = >>=-eq-ok (apply_part part p) _ e in
    let (s, v, key, written) = apply_part-setting part p m e₁ in
    Agree-trans k p m q
      (apply-Agree s k v p m written (λ same. silent (key ∙ ap (λ t. some (name t)) (sym same))))
      (apply_parts-Agree k parts m q e₂ h)

-- A setting whose key no part of an accepted text names keeps its value: one key never changes
-- another limit.
pub parse_policy_string-Agree :
    (k : Setting) (text : Text) (base p : SpendPolicy)
    → parse_policy_string text base ≡ ok p
    → Silent k (parts_of text)
    → Agree k base p
unfolding parse_policy_string
parse_policy_string-Agree k text base p e h = apply_parts-Agree k (parts_of text) base p e h

abbrev pub IsKnown : Text → Type 0
IsKnown part = (s : Setting) × (key_of part ≡ some (name s))

apply_parts-IsKnown :
    (parts : List Text) (p q : SpendPolicy) → apply_parts parts p ≡ ok q → All IsKnown parts
unfolding apply_parts
apply_parts-IsKnown [] p q e = tt
apply_parts-IsKnown (part ∷ parts) p q e =
    let (m, e₁, e₂) = >>=-eq-ok (apply_part part p) _ e in
    let (s, v, key, written) = apply_part-setting part p m e₁ in
    ((s, key), apply_parts-IsKnown parts m q e₂)

-- A text that is accepted has a known key in each of its parts: a mistyped key is an error.
pub parse_policy_string-IsKnown :
    (text : Text) (base p : SpendPolicy)
    → parse_policy_string text base ≡ ok p
    → All IsKnown (parts_of text)
unfolding parse_policy_string
parse_policy_string-IsKnown text base p e = apply_parts-IsKnown (parts_of text) base p e

split-nonempty : (sep : ℕ) (s : Text) → (p : Text) × (ps : List Text) × (split sep s ≡ p ∷ ps)
split-nonempty sep [] = ([], [], refl)
split-nonempty sep (c ∷ s) = elim (Bool-cases (c == sep)) [
  | inl here ↦ ([], split sep s, rw (here, split))
  | inr other ↦ let (p, ps, e) = split-nonempty sep s in (c ∷ p, ps, rw (other, split) (rw e))
]

split-append : (sep : ℕ) (s t : Text) → split sep (s ++ sep ∷ t) ≡ split sep s ++ split sep t
split-append sep [] t = ground arith
split-append sep (c ∷ s) t =
    let (p, ps, e) = split-nonempty sep s in ground (arith, split-append sep s t, e)

parts_of-append : (s t : Text) → parts_of (s ++ b',' ∷ t) ≡ parts_of s ++ parts_of t
unfolding parts_of
parts_of-append s t =
    rw (split-append b',' s t)
      (rw map-append (filter-append nonempty (map trim (split b',' s)) (map trim (split b',' t))))

apply_parts-append :
    (xs ys : List Text) (p : SpendPolicy)
    → apply_parts (xs ++ ys) p ≡ (apply_parts xs p >>= apply_parts ys)
unfolding apply_parts
apply_parts-append [] ys p = refl
apply_parts-append (x ∷ xs) ys p = elim (Result-cases (apply_part x p)) [
  | inl (q, e) ↦ rw e (apply_parts-append xs ys q)
  | inr (x', e) ↦ rw e
]

-- Two texts joined by a comma are one policy after the other, and an error in the first is the
-- error of both.
pub parse_policy_string-append :
    (s t : Text) (base : SpendPolicy)
    → parse_policy_string (s ++ b',' ∷ t) base
      ≡ (parse_policy_string s base >>= parse_policy_string t)
unfolding parse_policy_string
parse_policy_string-append s t base =
    rw (parts_of-append s t) (apply_parts-append (parts_of s) (parts_of t) base)
