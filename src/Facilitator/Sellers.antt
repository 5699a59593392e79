-- ===== src/Facilitator/Sellers.antt =====
-- packages/facilitator/src/sellers.ts: the registered sellers and their allowance. A day is the
-- number of the UTC day; `since` is kept as the time that its text prints; the file is kept as the
-- entries that it holds.
pub mod Caps
pub mod Allowed
use arcagentx.Prelude.{
  ℕ, ◌+◌, ◌*◌, ◌/◌, Bool, true, false, not, ◌&&◌, ◌||◌, Option, none, some, List, [], ◌∷◌, ◌++◌,
  leb, ltb, ◌==◌, any, all, filter, length, if◌then◌else◌,
}
use arcagentx.Prelude.Text.{Text, codes, text_eq, to_lower, is_digit}
use arcagentx.Accounting.Decimal.{decimal}

abbrev pub day_ms : ℕ
day_ms = 24 * 3600 * 1000

-- `utcDay`.
abbrev pub utc_day : ℕ → ℕ
utc_day now = now / day_ms

abbrev is_hex : ℕ → Bool
is_hex c = is_digit c || (leb b'a' c && leb c b'f')

-- `/^0x[0-9a-f]{40}$/`.
abbrev pub is_address : Text → Bool
is_address [] = false
is_address (z ∷ []) = false
is_address (z ∷ x ∷ s) = z == b'0' && x == b'x' && length s == 40 && all is_hex s

pub record SellerRegistry : Type 0 where
  pub file : Option (List (Text × ℕ))
  pub daily_cap : ℕ
  pub shared_daily_cap : Option ℕ
  pub sellers : List (Text × ℕ)
  pub counts : List (Text × ℕ)
  pub registered_today : ℕ
  pub counts_day : ℕ

-- The constructor: the sellers that the file holds, and no counts.
unfoldable pub open_registry : Option (List (Text × ℕ)) → ℕ → Option ℕ → ℕ → SellerRegistry
open_registry file daily_cap shared now = record {
  file = file;
  daily_cap = daily_cap;
  shared_daily_cap = shared;
  sellers = elim file [ none ↦ [] | some kept ↦ filter (λ e. is_address e.0) kept ];
  counts = [];
  registered_today = 0;
  counts_day = utc_day now;
}

abbrev pub has_key : Text → List (Text × ℕ) → Bool
has_key a es = any (λ e. text_eq e.0 a) es

unfoldable pub has : Text → SellerRegistry → Bool
has address s = has_key (to_lower address) s.sellers

abbrev persist : SellerRegistry → SellerRegistry
persist s = record s { file = elim s.file [ none ↦ none | some _ ↦ some s.sellers ] }

unfoldable pub add : ℕ → Text → SellerRegistry → SellerRegistry × Bool
unfolding has
add now address s =
    let a = to_lower address in
    if not (is_address a)
    then (s, false)
    else if has_key a s.sellers
    then (s, true)
    else (persist (record s { sellers = s.sellers ++ (a, now) ∷ [] }), true)

-- `counts.get(a) ?? 0`.
unfoldable pub count_of : Text → List (Text × ℕ) → ℕ
count_of a [] = 0
count_of a ((k, n) ∷ es) = if text_eq k a then n else count_of a es

-- `counts.set(a, (counts.get(a) ?? 0) + 1)`: a new key goes last.
unfoldable pub bump : Text → List (Text × ℕ) → List (Text × ℕ)
bump a [] = (a, 0 + 1) ∷ []
bump a ((k, n) ∷ es) = if text_eq k a then (k, n + 1) ∷ es else (k, n) ∷ bump a es

unfoldable pub roll_day : ℕ → SellerRegistry → SellerRegistry
roll_day now s =
    if utc_day now == s.counts_day
    then s
    else record s { counts = []; registered_today = 0; counts_day = utc_day now }

unfoldable pub settled_today : ℕ → Text → SellerRegistry → SellerRegistry × ℕ
settled_today now address s = let s' = roll_day now s in (s', count_of (to_lower address) s'.counts)

unfoldable pub record_settlement : ℕ → Text → SellerRegistry → SellerRegistry
record_settlement now address s =
    let s' = roll_day now s in
    let a = to_lower address in
    record s' {
      counts = bump a s'.counts;
      registered_today =
          if has_key a s'.sellers then s'.registered_today + 1 else s'.registered_today;
    }

-- `registeredToday >= sharedDailyCap`; without a shared cap, never.
abbrev pub reached : Option ℕ → ℕ → Bool
reached none n = false
reached (some cap) n = leb cap n

abbrev cap_text : Option ℕ → Text
cap_text none = codes "Infinity"
cap_text (some cap) = decimal cap

-- Why a settlement for this seller may not go ahead today, or none.
unfoldable pub refuse_seller : ℕ → Text → SellerRegistry → SellerRegistry × Option Text
refuse_seller now address s =
    let today = settled_today now address s in
    let s' = today.0 in
    if not (has address s)
    then (s, none)
    else if leb s'.daily_cap today.1
    then (
      s',
      some (
          codes "daily allowance of "
          ++ decimal s'.daily_cap
          ++ codes " settlements reached for "
          ++ address
          ++ codes "; it opens again tomorrow (UTC)"),
    )
    else if reached s'.shared_daily_cap s'.registered_today
    then (
      s',
      some (
          codes "the allowance shared by all registered sellers ("
          ++ cap_text s'.shared_daily_cap
          ++ codes " settlements a day) is used up; it opens again tomorrow (UTC)"),
    )
    else (s', none)

pub record SellerStatus : Type 0 where
  pub registered : Bool
  pub settled_count : ℕ
  pub cap_today : ℕ
  pub since : Option ℕ

unfoldable pub since_of : Text → List (Text × ℕ) → Option ℕ
since_of a [] = none
since_of a ((k, t) ∷ es) = if text_eq k a then some t else since_of a es

unfoldable pub status : ℕ → Text → SellerRegistry → SellerRegistry × SellerStatus
status now address s =
    let a = to_lower address in
    let today = settled_today now a s in
    (
      today.0,
      record {
        registered = has_key a s.sellers;
        settled_count = today.1;
        cap_today = s.daily_cap;
        since = since_of a s.sellers;
      },
    )

-- `gasWei !== null && gasWei < reserveWei`.
abbrev pub is_low : Option ℕ → ℕ → Bool
is_low none reserve = false
is_low (some wei) reserve = ltb wei reserve

abbrev or_low : Option ℕ → ℕ → SellerRegistry × Option Text → SellerRegistry × Option Text
or_low gas reserve (s, some reason) = (s, some reason)
or_low gas reserve (s, none) =
    if is_low gas reserve
    then (
      s,
      some (
          codes
            "the facilitator is low on gas and keeps what is left for its own addresses; this seller is served again once it is topped up"),
    )
    else (s, none)

-- `allowanceRefusal`, for a facilitator that has a registry.
unfoldable pub allowance_refusal :
    ℕ → Text → List Text → SellerRegistry → Option ℕ → ℕ → SellerRegistry × Option Text
allowance_refusal now pay_to fixed s gas reserve =
    let a = to_lower pay_to in
    let asked = or_low gas reserve (refuse_seller now a s) in
    if any (text_eq a) fixed || not (has a s) then (s, none) else asked
