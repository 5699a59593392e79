-- ===== src/Facilitator/Sellers/Allowed.antt =====
-- When the facilitator's gas may be spent for a seller.
use arcagentx.Prelude.{
  ℕ, ◌≤◌, ◌<◌, ◌≡◌, ◌⊎◌, ◌↔◌, inl, inr, refl, ◌∙◌, true, false, Option, none, some, List, arith,
  Bool-cases, ◌==◌, if◌then◌else◌,
}
use arcagentx.Prelude.Text.{Text, to_lower, to_lower_idem}
use arcagentx.Facilitator.Sellers.{
  SellerRegistry, has, count_of, roll_day, settled_today, reached, refuse_seller, or_low, is_low,
  allowance_refusal, utc_day,
}
use arcagentx.Facilitator.Sellers.Caps.{is_fixed}

-- What was counted today: nothing, if the counts are of another day.
abbrev pub of_today : ℕ → SellerRegistry → ℕ → ℕ
of_today now s n = if utc_day now == s.counts_day then n else 0

-- Today the seller has had fewer settlements than its allowance, and the registered sellers together
-- fewer than theirs, if they share one; and the gas, where it could be read, is not below the reserve.
pub record HasRoom (now : ℕ) (a : Text) (s : SellerRegistry) (gas : Option ℕ) (reserve : ℕ)
    : Type 0 where
  pub own : of_today now s (count_of a s.counts) < s.daily_cap
  pub joint : (c : ℕ) → s.shared_daily_cap ≡ some c → of_today now s s.registered_today < c
  pub gas_left : (wei : ℕ) → gas ≡ some wei → reserve ≤ wei

reached_iff :
    (shared : Option ℕ) (n : ℕ) → (reached shared n ≡ false) ↔ ((c : ℕ) → shared ≡ some c → n < c)
reached_iff none n = (λ e c f. cc, λ h. refl)
reached_iff (some d) n =
    (λ e c f. let same : d ≡ c = cc in ground arith, λ h. let lt = h d refl in ground arith)

is_low_iff :
    (gas : Option ℕ) (reserve : ℕ)
    → (is_low gas reserve ≡ false) ↔ ((wei : ℕ) → gas ≡ some wei → reserve ≤ wei)
is_low_iff none reserve = (λ e wei f. cc, λ h. refl)
is_low_iff (some d) reserve =
    (λ e wei f. let same : d ≡ wei = cc in ground arith, λ h. let le = h d refl in ground arith)

or_low-none_iff :
    (gas : Option ℕ) (reserve : ℕ) (r : SellerRegistry × Option Text)
    → ((or_low gas reserve r).1 ≡ none) ↔ ((r.1 ≡ none) × (is_low gas reserve ≡ false))
or_low-none_iff gas reserve (s, some x) = (λ e. cc, λ h. cc h.0)
or_low-none_iff gas reserve (s, none) = ground arith

rolled_count :
    (now : ℕ) (a : Text) (s : SellerRegistry)
    → count_of a (roll_day now s).counts ≡ of_today now s (count_of a s.counts)
unfolding roll_day count_of
rolled_count now a s = ground arith

rolled_together :
    (now : ℕ) (s : SellerRegistry)
    → (roll_day now s).registered_today ≡ of_today now s s.registered_today
unfolding roll_day
rolled_together now s = ground arith

rolled_caps :
    (now : ℕ) (s : SellerRegistry)
    → ((roll_day now s).daily_cap ≡ s.daily_cap)
      × ((roll_day now s).shared_daily_cap ≡ s.shared_daily_cap)
unfolding roll_day
rolled_caps now s = elim (Bool-cases (utc_day now == s.counts_day)) [
  | inl today ↦ rw today (refl, refl)
  | inr later ↦ rw later (refl, refl)
]

refuse_seller-none_iff :
    (now : ℕ) (a : Text) (s : SellerRegistry)
    → has a s ≡ true
    → ((refuse_seller now a s).1 ≡ none) ↔ (
        (of_today now s (count_of (to_lower a) s.counts) < s.daily_cap)
        × (reached s.shared_daily_cap (of_today now s s.registered_today) ≡ false))
unfolding refuse_seller settled_today
refuse_seller-none_iff now a s h =
    rw
      (
        rolled_count now (to_lower a) s,
        rolled_together now s,
        (rolled_caps now s).0,
        (rolled_caps now s).1,
      )
      (ground arith)

has_lower : (a : Text) (s : SellerRegistry) → has (to_lower a) s ≡ has a s
unfolding has
has_lower a s = rw (to_lower_idem a) refl

-- The tests of a registered seller, and what they mean.
asked-none_iff :
    (now : ℕ) (pay_to : Text) (s : SellerRegistry) (gas : Option ℕ) (reserve : ℕ)
    → has pay_to s ≡ true
    → ((or_low gas reserve (refuse_seller now (to_lower pay_to) s)).1 ≡ none)
      ↔ HasRoom now (to_lower pay_to) s gas reserve
asked-none_iff now pay_to s gas reserve known =
    let a = to_lower pay_to in
    let again : to_lower a ≡ a = to_lower_idem pay_to in
    let (passed, passes) = refuse_seller-none_iff now a s (has_lower pay_to s ∙ known) in
    let (through, lets) = or_low-none_iff gas reserve (refuse_seller now a s) in
    let (room, roomy) = reached_iff s.shared_daily_cap (of_today now s s.registered_today) in
    let (high, low) = is_low_iff gas reserve in
    (
      λ e.
          let (allowed, enough) = through e in
          let (own, joint) = passed allowed in
          record { own = rw again at own; joint = room joint; gas_left = high enough },
      λ h. lets (passes (rw again h.own, roomy h.joint), low h.gas_left),
    )

-- A payment to a seller may go ahead exactly when the seller is one of the facilitator's own or not
-- registered, or the seller and all registered ones have had fewer settlements today than they may,
-- and the gas, where it could be read, is not below the reserve.
pub allowance_refusal-none_iff :
    (now : ℕ) (pay_to : Text) (fixed : List Text) (s : SellerRegistry) (gas : Option ℕ)
    (reserve : ℕ)
    → ((allowance_refusal now pay_to fixed s gas reserve).1 ≡ none) ↔ (
        (is_fixed fixed (to_lower pay_to) ≡ true)
        ⊎ (has pay_to s ≡ false)
        ⊎ HasRoom now (to_lower pay_to) s gas reserve)
unfolding allowance_refusal
allowance_refusal-none_iff now pay_to fixed s gas reserve =
    let asked = asked-none_iff now pay_to s gas reserve in
    elim (Bool-cases (is_fixed fixed (to_lower pay_to))) [
      | inl own ↦ (λ e. inl own, λ h. rw own refl)
      | inr other ↦ elim (Bool-cases (has pay_to s)) [
        | inr unknown ↦ (λ e. inr (inl unknown), λ h. rw (other, has_lower pay_to s, unknown) refl)
        | inl known ↦
            rw (other, has_lower pay_to s, known)
              (
                λ e. inr (inr ((asked known).0 e)),
                λ h. elim h [
                  | inl own ↦ cc
                  | inr (inl unknown) ↦ cc
                  | inr (inr r) ↦ (asked known).1 r
                ],
              )
      ]
    ]
