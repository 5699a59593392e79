-- ===== src/Facilitator/Guard.antt =====
-- packages/facilitator/src/guard.ts: the guard that every payment passes. The registered sellers
-- are asked through `registered`.
use arcagentx.Prelude.{
  ◌≡◌, ◌↔◌, ◌⊎◌, inl, inr, Bool, true, not, ◌&&◌, Option, none, some, List, [], ◌∷◌, ◌++◌, ◌==◌,
  arith, any, Any, if◌then◌else◌, Bool-cases,
}
use arcagentx.Prelude.Int.{pos, ◌≤ℤ◌}
use arcagentx.Prelude.Text.{Text, codes, text_eq, text_eq_iff, to_lower, is_base_units}
use arcagentx.Accounting.{Usdc6, compare_usdc6}
use arcagentx.Accounting.Decimal.{value, int_text}
use arcagentx.Policy.{is_less, is_more}

pub record GuardRules : Type 0 where
  pub pay_to : List Text
  pub assets : List (Text × Text)
  pub min_amount : Usdc6
  pub max_amount : Usdc6

pub record GuardedRequirements : Type 0 where
  pub scheme : Text
  pub network : Text
  pub asset : Text
  pub pay_to : Text
  pub amount : Text

-- `set.has(s)`.
abbrev pub has_text : Text → List Text → Bool
has_text s xs = any (text_eq s) xs

-- `SCHEMES`.
abbrev pub schemes : List Text
schemes = codes "exact" ∷ codes "upto" ∷ []

-- `map.get(key)`.
unfoldable pub get_text : Text → List (Text × Text) → Option Text
get_text key [] = none
get_text key ((k, v) ∷ kvs) = if text_eq k key then some v else get_text key kvs

-- `!asset`: neither missing nor empty.
abbrev pub truthy : Option Text → Option Text
truthy none = none
truthy (some []) = none
truthy (some (c ∷ s)) = some (c ∷ s)

-- The last checks, on the amount.
unfoldable pub refuse_amount : GuardedRequirements → GuardRules → Option Text
refuse_amount req rules =
    let amount = pos (value req.amount) in
    if not (is_base_units req.amount)
    then some (codes "amount is not a whole number of base units")
    else if text_eq req.scheme (codes "upto") && value req.amount == 0
    then none
    else if is_less (compare_usdc6 amount rules.min_amount)
    then some (
        codes "amount "
        ++ req.amount
        ++ codes " is below the minimum "
        ++ int_text rules.min_amount)
    else if is_more (compare_usdc6 amount rules.max_amount)
    then some (
        codes "amount "
        ++ req.amount
        ++ codes " is above the maximum "
        ++ int_text rules.max_amount)
    else none

-- The checks on the asset and on the seller, once the network is known.
unfoldable pub refuse_asset :
    (Text → Bool) → GuardedRequirements → GuardRules → Option Text → Option Text
refuse_asset registered req rules none =
    some (codes "network " ++ req.network ++ codes " is not settled here")
refuse_asset registered req rules (some asset) =
    let last = refuse_amount req rules in
    if not (text_eq (to_lower req.asset) asset)
    then some (codes "asset " ++ req.asset ++ codes " is not settled on " ++ req.network)
    else if not (has_text (to_lower req.pay_to) rules.pay_to) && not (registered req.pay_to)
    then some (
        codes "this facilitator does not settle for "
        ++ req.pay_to
        ++ codes ": register the wallet first")
    else last

-- `refuse`: none when the payment may go ahead, otherwise the reason it may not.
unfoldable pub refuse : (Text → Bool) → GuardedRequirements → GuardRules → Option Text
refuse registered req rules =
    let rest = refuse_asset registered req rules (truthy (get_text req.network rules.assets)) in
    if not (has_text req.scheme schemes)
    then some (codes "scheme " ++ req.scheme ++ codes " is not settled here")
    else rest

-- What the facilitator settles: one of its schemes, the network's asset, for a seller that it
-- knows, and an amount in its range or, for a ceiling, nothing at all.
pub record Settles (registered : Text → Bool) (req : GuardedRequirements) (rules : GuardRules)
    : Type 0 where
  pub scheme : (req.scheme ≡ codes "exact") ⊎ (req.scheme ≡ codes "upto")
  pub asset : truthy (get_text req.network rules.assets) ≡ some (to_lower req.asset)
  pub seller : Any (λ p. to_lower req.pay_to ≡ p) rules.pay_to ⊎ (registered req.pay_to ≡ true)
  pub units : is_base_units req.amount ≡ true
  pub amount :
      ((req.scheme ≡ codes "upto") × (value req.amount ≡ 0))
      ⊎ ((rules.min_amount ≤ℤ pos (value req.amount))
          × (pos (value req.amount) ≤ℤ rules.max_amount))

pub has_text_iff : (s : Text) (xs : List Text) → (has_text s xs ≡ true) ↔ Any (λ x. s ≡ x) xs
has_text_iff s [] = (λ e. cc, λ h. absurd h)
has_text_iff s (x ∷ xs) = ground (arith, has_text_iff s xs, text_eq_iff s x)

refuse_amount-none_iff :
    (req : GuardedRequirements) (rules : GuardRules)
    → (refuse_amount req rules ≡ none) ↔ (
        (is_base_units req.amount ≡ true)
        × (((req.scheme ≡ codes "upto") × (value req.amount ≡ 0))
            ⊎ ((rules.min_amount ≤ℤ pos (value req.amount))
                × (pos (value req.amount) ≤ℤ rules.max_amount))))
unfolding refuse_amount compare_usdc6
refuse_amount-none_iff req rules = ground (arith, text_eq_iff req.scheme (codes "upto"))

refuse_asset-none_iff :
    (registered : Text → Bool) (req : GuardedRequirements) (rules : GuardRules) (o : Option Text)
    → (refuse_asset registered req rules o ≡ none) ↔ (
        (o ≡ some (to_lower req.asset))
        × (Any (λ p. to_lower req.pay_to ≡ p) rules.pay_to ⊎ (registered req.pay_to ≡ true))
        × (refuse_amount req rules ≡ none))
unfolding refuse_asset
refuse_asset-none_iff registered req rules none = (λ e. cc, λ h. cc)
refuse_asset-none_iff registered req rules (some a) =
    ground
      (arith, text_eq_iff (to_lower req.asset) a, has_text_iff (to_lower req.pay_to) rules.pay_to)

schemes_iff : (s : Text) → (has_text s schemes ≡ true) ↔ ((s ≡ codes "exact") ⊎ (s ≡ codes "upto"))
schemes_iff s = ground (arith, text_eq_iff s (codes "exact"), text_eq_iff s (codes "upto"))

-- The guard lets a payment through exactly when the facilitator settles its scheme, its network's
-- asset, its seller and an amount of that size.
pub refuse-none_iff :
    (registered : Text → Bool) (req : GuardedRequirements) (rules : GuardRules)
    → (refuse registered req rules ≡ none) ↔ Settles registered req rules
unfolding refuse
refuse-none_iff registered req rules =
    let (sch, sch') = schemes_iff req.scheme in
    let (ass, ass') =
      refuse_asset-none_iff registered req rules (truthy (get_text req.network rules.assets)) in
    let (amt, amt') = refuse_amount-none_iff req rules in
    (
      λ e. elim (Bool-cases (has_text req.scheme schemes)) [
        | inl known ↦
            let (a, s, last) = ass (rw known at e) in
            let (u, m) = amt last in
            record { scheme = sch known; asset = a; seller = s; units = u; amount = m }
        | inr other ↦ let f = rw other at e in cc
      ],
      λ h. rw (sch' h.scheme) (ass' (h.asset, h.seller, amt' (h.units, h.amount))),
    )
