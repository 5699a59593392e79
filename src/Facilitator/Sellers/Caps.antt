-- ===== src/Facilitator/Sellers/Caps.antt =====
-- The allowances of the registry: what a refusal rules out, and what a settlement adds.
use arcagentx.Prelude.{
  ℕ, suc, ◌≤◌, ◌<◌, ◌≡◌, ◌⊎◌, inl, inr, refl, Bool, true, false, not, ◌||◌, Option, none, some,
  List, [], ◌∷◌, ◌++◌, arith, any, Bool-cases, ◌==◌, if◌then◌else◌,
}
use arcagentx.Prelude.Text.{Text, text_eq, text_eq_iff, to_lower, to_lower_idem}
use arcagentx.Facilitator.Sellers.{
  SellerRegistry, has, has_key, add, count_of, bump, roll_day, settled_today, record_settlement,
  reached, refuse_seller, or_low, is_low, allowance_refusal, utc_day, is_address,
}

-- A fixed address, one of the facilitator's own.
abbrev pub is_fixed : List Text → Text → Bool
is_fixed fixed a = any (text_eq a) fixed

-- Today no seller but the fixed ones has had more settlements than its allowance, and the registered
-- ones have together had no more than theirs.
pub record InAllowance (fixed : List Text) (s : SellerRegistry) : Type 0 where
  pub each : (a : Text) → is_fixed fixed a ≡ false → count_of a s.counts ≤ s.daily_cap
  pub shared : (c : ℕ) → s.shared_daily_cap ≡ some c → s.registered_today ≤ c

-- No fixed address is registered.
abbrev pub IsApart : List Text → SellerRegistry → Type 0
IsApart fixed s = (a : Text) → has_key a s.sellers ≡ true → is_fixed fixed a ≡ false

-- Each allowance is of one settlement at least.
abbrev pub HasAllowances : SellerRegistry → Type 0
HasAllowances s = (1 ≤ s.daily_cap) × ((c : ℕ) → s.shared_daily_cap ≡ some c → 1 ≤ c)

-- What every step keeps.
pub record Balanced (fixed : List Text) (s : SellerRegistry) : Type 0 where
  pub each : (a : Text) → is_fixed fixed a ≡ false → count_of a s.counts ≤ s.daily_cap
  pub shared : (c : ℕ) → s.shared_daily_cap ≡ some c → s.registered_today ≤ c
  pub apart : (a : Text) → has_key a s.sellers ≡ true → is_fixed fixed a ≡ false
  pub some_each : 1 ≤ s.daily_cap
  pub some_shared : (c : ℕ) → s.shared_daily_cap ≡ some c → 1 ≤ c

pub balance :
    (fixed : List Text) (s : SellerRegistry)
    → IsApart fixed s
    → HasAllowances s
    → InAllowance fixed s
    → Balanced fixed s
balance fixed s apart caps h = record {
  each = h.each;
  shared = h.shared;
  apart = apart;
  some_each = caps.0;
  some_shared = caps.1;
}

-- One more settlement fits.
pub record Room (a : Text) (s : SellerRegistry) : Type 0 where
  pub own : count_of a s.counts < s.daily_cap
  pub joint : (c : ℕ) → s.shared_daily_cap ≡ some c → s.registered_today < c

count_of-bump :
    (a b : Text) (es : List (Text × ℕ))
    → count_of b (bump a es) ≡ (if text_eq a b then suc (count_of b es) else count_of b es)
unfolding count_of bump
count_of-bump a b [] = ground arith
count_of-bump a b ((k, n) ∷ es) =
    ground (arith, count_of-bump a b es, text_eq_iff k a, text_eq_iff k b, text_eq_iff a b)

pub roll_day-Balanced :
    (fixed : List Text) (now : ℕ) (s : SellerRegistry)
    → Balanced fixed s
    → Balanced fixed (roll_day now s)
unfolding roll_day count_of
roll_day-Balanced fixed now s h = elim (Bool-cases (utc_day now == s.counts_day)) [
  | inl today ↦ rw today h
  | inr later ↦ rw later (record {
    each = λ a e. omega arith;
    shared = λ c e. omega arith;
    apart = h.apart;
    some_each = h.some_each;
    some_shared = h.some_shared;
  })
]

reached-room : (shared : Option ℕ) (n c : ℕ) → reached shared n ≡ false → shared ≡ some c → n < c
reached-room none n c e f = cc
reached-room (some d) n c e f = ground arith

-- What a registered seller that is not refused is left with.
refuse_seller-none :
    (now : ℕ) (a : Text) (s : SellerRegistry)
    → has a s ≡ true
    → (refuse_seller now a s).1 ≡ none
    → Room (to_lower a) (roll_day now s)
unfolding refuse_seller settled_today
refuse_seller-none now a s h e = record {
  own = ground arith;
  joint = λ c f.
      let s' = roll_day now s in
      let free : reached s'.shared_daily_cap s'.registered_today ≡ false = ground arith in
      reached-room s'.shared_daily_cap s'.registered_today c free f;
}

-- What a refusal leaves of the registry: the day is rolled over, or nothing is changed.
refuse_seller-same :
    (now : ℕ) (a : Text) (s : SellerRegistry)
    → ((refuse_seller now a s).0 ≡ s) ⊎ ((refuse_seller now a s).0 ≡ roll_day now s)
unfolding refuse_seller settled_today
refuse_seller-same now a s = ground arith

or_low-same :
    (gas : Option ℕ) (reserve : ℕ) (r : SellerRegistry × Option Text)
    → (or_low gas reserve r).0 ≡ r.0
or_low-same gas reserve (s, some x) = refl
or_low-same gas reserve (s, none) = ground arith

or_low-none :
    (gas : Option ℕ) (reserve : ℕ) (r : SellerRegistry × Option Text)
    → (or_low gas reserve r).1 ≡ none
    → (r.1 ≡ none) × (is_low gas reserve ≡ false)
or_low-none gas reserve (s, some x) e = cc
or_low-none gas reserve (s, none) e = (refl, ground arith)

pub allowance_refusal-Balanced :
    (now : ℕ) (pay_to : Text) (fixed : List Text) (s : SellerRegistry) (gas : Option ℕ)
    (reserve : ℕ)
    → Balanced fixed s
    → Balanced fixed (allowance_refusal now pay_to fixed s gas reserve).0
unfolding allowance_refusal
allowance_refusal-Balanced now pay_to fixed s gas reserve h =
    let a = to_lower pay_to in
    elim (Bool-cases (is_fixed fixed a || not (has a s))) [
      | inl through ↦ rw through h
      | inr asked ↦ rw asked (
          rw (or_low-same gas reserve (refuse_seller now a s)) (elim (refuse_seller-same now a s) [
            | inl same ↦ rw same h
            | inr rolled ↦ rw rolled (roll_day-Balanced fixed now s h)
          ]))
    ]

refuse_seller-rolls :
    (now : ℕ) (a : Text) (s : SellerRegistry)
    → has a s ≡ true
    → (refuse_seller now a s).0 ≡ roll_day now s
unfolding refuse_seller settled_today
refuse_seller-rolls now a s h = ground arith

allowance_refusal-asks :
    (now : ℕ) (pay_to : Text) (fixed : List Text) (s : SellerRegistry) (gas : Option ℕ)
    (reserve : ℕ)
    → is_fixed fixed (to_lower pay_to) ≡ false
    → has pay_to s ≡ true
    → allowance_refusal now pay_to fixed s gas reserve
      ≡ or_low gas reserve (refuse_seller now (to_lower pay_to) s)
unfolding allowance_refusal has
allowance_refusal-asks now pay_to fixed s gas reserve other known =
    rw other (rw (to_lower_idem pay_to) (rw known refl))

-- A registered seller that passes, and is not one of the facilitator's own, has room today and
-- the gas is not known to be low.
pub allowance_refusal-none :
    (now : ℕ) (pay_to : Text) (fixed : List Text) (s : SellerRegistry) (gas : Option ℕ)
    (reserve : ℕ)
    → is_fixed fixed (to_lower pay_to) ≡ false
    → has pay_to s ≡ true
    → (allowance_refusal now pay_to fixed s gas reserve).1 ≡ none
    → Room (to_lower pay_to) (allowance_refusal now pay_to fixed s gas reserve).0
      × (is_low gas reserve ≡ false)
allowance_refusal-none now pay_to fixed s gas reserve other known e =
    let a = to_lower pay_to in
    let again : to_lower a ≡ a = to_lower_idem pay_to in
    let h : has a s ≡ true = unfold has in rw again known in
    let asks = allowance_refusal-asks now pay_to fixed s gas reserve other known in
    let (r, low) = or_low-none gas reserve (refuse_seller now a s) (rw asks at e) in
    let room : Room a (roll_day now s) = rw again at (refuse_seller-none now a s h r) in
    (
      rw asks (
          rw (or_low-same gas reserve (refuse_seller now a s))
            (rw (refuse_seller-rolls now a s h) room)),
      low,
    )

joins :
    (a b : Text) (cap : ℕ) (es : List (Text × ℕ))
    → count_of b es ≤ cap
    → (a ≡ b → count_of b es < cap)
    → count_of b (bump a es) ≤ cap
joins a b cap es le lt = rw (count_of-bump a b es) (elim (Bool-cases (text_eq a b)) [
  | inl same ↦ rw same (lt ((text_eq_iff a b).0 same))
  | inr other ↦ rw other le
])

pub record_settlement-Balanced :
    (at : ℕ) (pay_to : Text) (fixed : List Text) (s : SellerRegistry)
    → (is_fixed fixed (to_lower pay_to) ≡ true) ⊎ Room (to_lower pay_to) s
    → Balanced fixed s
    → Balanced fixed (record_settlement at pay_to s)
unfolding record_settlement roll_day
record_settlement-Balanced at pay_to fixed s who h =
    let a = to_lower pay_to in
    elim (Bool-cases (utc_day at == s.counts_day)) [
      | inl today ↦ rw today (record {
        each = λ b e. joins a b s.daily_cap s.counts (h.each b e) (λ same. elim who [
          | inl own ↦ let f : is_fixed fixed b ≡ true = rw same at own in cc
          | inr room ↦ rw same at room.own
        ]);
        shared = λ c e. elim who [
          | inl own ↦
              let f : has_key a s.sellers ≡ false = ground (arith, h.apart a) in rw f (h.shared c e)
          | inr room ↦ let lt = room.joint c e in ground arith
        ];
        apart = h.apart;
        some_each = h.some_each;
        some_shared = h.some_shared;
      })
      | inr later ↦ rw later (record {
        each = λ b e.
            unfold count_of in
            joins a b s.daily_cap [] (omega arith) (λ same. omega (arith, h.some_each));
        shared = λ c e. let one = h.some_shared c e in ground arith;
        apart = h.apart;
        some_each = h.some_each;
        some_shared = h.some_shared;
      })
    ]

has_key-append :
    (b a : Text) (now : ℕ) (es : List (Text × ℕ))
    → has_key b (es ++ (a, now) ∷ []) ≡ true
    → (has_key b es ≡ true) ⊎ (a ≡ b)
has_key-append b a now [] e = inr ((text_eq_iff a b).0 (ground arith))
has_key-append b a now ((k, t) ∷ es) e = ground (arith, has_key-append b a now es)

pub add-Balanced :
    (now : ℕ) (address : Text) (fixed : List Text) (s : SellerRegistry)
    → is_fixed fixed (to_lower address) ≡ false
    → Balanced fixed s
    → Balanced fixed (add now address s).0
unfolding add
add-Balanced now address fixed s other h =
    let a = to_lower address in
    elim (Bool-cases (not (is_address a) || has_key a s.sellers)) [
      | inl kept ↦ ground arith
      | inr new ↦
          let fresh : has_key a s.sellers ≡ false = ground arith in
          let good : is_address a ≡ true = ground arith in
          rw good (
            rw fresh (record {
              each = h.each;
              shared = h.shared;
              apart = λ b e. elim (has_key-append b a now s.sellers e) [
                | inl known ↦ h.apart b known
                | inr same ↦ rw same at other
              ];
              some_each = h.some_each;
              some_shared = h.some_shared;
            }))
    ]
