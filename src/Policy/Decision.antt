-- ===== src/Policy/Decision.antt =====
-- What a decision means: each rule as a statement about the policy and the payment.
use arcagentx.Prelude.{
  ℕ, ◌<◌, ◌≤◌, ◌≡◌, ◌↔◌, ◌⊎◌, inl, inr, refl, Bool, true, false, not, Option, none, some, List, [],
  ◌∷◌, arith, Any, any, leb, Bool-cases,
}
use arcagentx.Prelude.Int.{pos, ◌≤ℤ◌}
use arcagentx.Prelude.Text.{Text, text_eq, text_eq_iff}
use arcagentx.Accounting.{Usdc6, add_usdc6, compare_usdc6}
use arcagentx.Policy.{
  SpendPolicy, PolicyContext, PolicyRule, network, denylist, allowlist, per_payment, rate, daily,
  per_counterparty, identity, bond, max_price, Reason, PolicyDecision, allow, deny, norm, names,
  shut_out, is_more, check_identity, check_bond, evaluate_policy,
}

-- The list names the host or the address, up to case and surrounding white space.
abbrev pub Names : List Text → PolicyContext → Type 0
Names list ctx = Any (λ d. (norm d ≡ norm ctx.host) ⊎ (norm d ≡ norm ctx.pay_to)) list

abbrev pub Permits : Option (List Text) → PolicyContext → Type 0
Permits none ctx = Unit
Permits (some list) ctx = Names list ctx

abbrev pub Bonded : Usdc6 → Option Usdc6 → Type 0
Bonded required none = required ≤ℤ pos 0
Bonded required (some posted) = (required ≤ℤ pos 0) ⊎ (required ≤ℤ posted)

-- What each rule asks of a payment.
abbrev pub Holds : SpendPolicy → PolicyContext → PolicyRule → Type 0
Holds p c network = Any (λ n. c.network ≡ n) p.allowed_networks
Holds p c denylist = ¬ Names p.denylist c
Holds p c allowlist = Permits p.allowlist c
Holds p c per_payment = c.amount ≤ℤ p.per_payment_cap
Holds p c rate = c.payments_in_rate_window < p.rate_limit.max_payments
Holds p c daily = add_usdc6 c.spent_in_window c.amount ≤ℤ p.daily_cap
Holds p c per_counterparty =
    add_usdc6 c.spent_in_window_with_counterparty c.amount ≤ℤ p.per_counterparty_daily_cap
Holds p c identity = (p.require_verified_identity ≡ false) ⊎ (c.identity_verified ≡ some true)
Holds p c bond = Bonded p.required_seller_bond c.seller_bond
Holds p c max_price = Unit

-- The order in which the rules are checked; `max_price` is the caller's, not the policy's.
abbrev pub rank : PolicyRule → ℕ
rank network = 0
rank denylist = 1
rank allowlist = 2
rank per_payment = 3
rank rate = 4
rank daily = 5
rank per_counterparty = 6
rank identity = 7
rank bond = 8
rank max_price = 9

any-eq_iff : (n : Text) (xs : List Text) → (any (text_eq n) xs ≡ true) ↔ Any (λ m. n ≡ m) xs
any-eq_iff n [] = (λ e. cc, λ h. absurd h)
any-eq_iff n (x ∷ xs) = ground (arith, any-eq_iff n xs, text_eq_iff n x)

names_iff :
    (c : PolicyContext) (xs : List Text)
    → (names xs (norm c.host) (norm c.pay_to) ≡ true) ↔ Names xs c
unfolding names
names_iff c [] = (λ e. cc, λ h. absurd h)
names_iff c (x ∷ xs) = ground (
  arith,
  names_iff c xs,
  text_eq_iff (norm x) (norm c.host),
  text_eq_iff (norm x) (norm c.pay_to),
)

shut_out_iff :
    (c : PolicyContext) (l : Option (List Text))
    → (shut_out l (norm c.host) (norm c.pay_to) ≡ false) ↔ Permits l c
unfolding shut_out
shut_out_iff c none = (λ e. tt, λ h. refl)
shut_out_iff c (some xs) = ground (arith, names_iff c xs)

is_more_iff : (a b : Usdc6) → (is_more (compare_usdc6 a b) ≡ false) ↔ (a ≤ℤ b)
unfolding compare_usdc6
is_more_iff a b = ground arith

check_identity_iff :
    (required : Bool) (v : Option Bool)
    → (check_identity required v ≡ allow) ↔ ((required ≡ false) ⊎ (v ≡ some true))
unfolding check_identity
check_identity_iff required v = ground arith

check_bond_iff : (r : Usdc6) (b : Option Usdc6) → (check_bond r b ≡ allow) ↔ Bonded r b
unfolding check_bond
check_bond_iff r none = ground arith
check_bond_iff r (some posted) = ground arith

abbrev is_deny : PolicyDecision → Bool
is_deny allow = false
is_deny (deny r x) = true

-- The test of each rule, as the code makes it.
abbrev fails : SpendPolicy → PolicyContext → PolicyRule → Bool
fails p c network = not (any (text_eq c.network) p.allowed_networks)
fails p c denylist = names p.denylist (norm c.host) (norm c.pay_to)
fails p c allowlist = shut_out p.allowlist (norm c.host) (norm c.pay_to)
fails p c per_payment = is_more (compare_usdc6 c.amount p.per_payment_cap)
fails p c rate = leb p.rate_limit.max_payments c.payments_in_rate_window
fails p c daily = is_more (compare_usdc6 (add_usdc6 c.spent_in_window c.amount) p.daily_cap)
fails p c per_counterparty = is_more (
    compare_usdc6 (add_usdc6 c.spent_in_window_with_counterparty c.amount)
      p.per_counterparty_daily_cap)
fails p c identity = is_deny (check_identity p.require_verified_identity c.identity_verified)
fails p c bond = is_deny (check_bond p.required_seller_bond c.seller_bond)
fails p c max_price = false

fails_iff :
    (p : SpendPolicy) (c : PolicyContext) (r : PolicyRule) → (fails p c r ≡ false) ↔ Holds p c r
fails_iff p c network = ground (arith, any-eq_iff c.network p.allowed_networks)
fails_iff p c denylist = (
  λ e h. cc (e, (names_iff c p.denylist).1 h),
  λ h. elim (Bool-cases (names p.denylist (norm c.host) (norm c.pay_to))) [
    | inl e ↦ absurd (h ((names_iff c p.denylist).0 e))
    | inr e ↦ e
  ],
)
fails_iff p c allowlist = shut_out_iff c p.allowlist
fails_iff p c per_payment = is_more_iff c.amount p.per_payment_cap
fails_iff p c rate = ground arith
fails_iff p c daily = is_more_iff (add_usdc6 c.spent_in_window c.amount) p.daily_cap
fails_iff p c per_counterparty =
    is_more_iff (add_usdc6 c.spent_in_window_with_counterparty c.amount)
      p.per_counterparty_daily_cap
fails_iff p c identity =
    ground (arith, check_identity_iff p.require_verified_identity c.identity_verified)
fails_iff p c bond = ground (arith, check_bond_iff p.required_seller_bond c.seller_bond)
fails_iff p c max_price = (λ e. tt, λ h. refl)

module _ (p : SpendPolicy) (c : PolicyContext) where
  allow_passes : evaluate_policy p c ≡ allow → (r : PolicyRule) → fails p c r ≡ false
  unfolding evaluate_policy
  allow_passes e network = ground arith
  allow_passes e denylist = ground arith
  allow_passes e allowlist = ground arith
  allow_passes e per_payment = ground arith
  allow_passes e rate = ground arith
  allow_passes e daily = ground arith
  allow_passes e per_counterparty = ground arith
  allow_passes e identity = ground arith
  allow_passes e bond = ground arith
  allow_passes e max_price = refl

  passes_allow : ((r : PolicyRule) → fails p c r ≡ false) → evaluate_policy p c ≡ allow
  unfolding evaluate_policy
  passes_allow h = ground (
    arith,
    h network,
    h denylist,
    h allowlist,
    h per_payment,
    h rate,
    h daily,
    h per_counterparty,
    h identity,
    h bond,
  )

  deny_fails : (r : PolicyRule) (x : Reason) → evaluate_policy p c ≡ deny r x → fails p c r ≡ true
  unfolding evaluate_policy check_identity check_bond
  deny_fails network x e = ground arith
  deny_fails denylist x e = ground arith
  deny_fails allowlist x e = ground arith
  deny_fails per_payment x e = ground arith
  deny_fails rate x e = ground arith
  deny_fails daily x e = ground arith
  deny_fails per_counterparty x e = ground arith
  deny_fails identity x e = ground arith
  deny_fails bond x e = ground arith
  deny_fails max_price x e = ground arith

  fails_early :
      (r s : PolicyRule) (x : Reason)
      → evaluate_policy p c ≡ deny r x
      → fails p c s ≡ true
      → rank r ≤ rank s
  unfolding evaluate_policy check_identity check_bond
  fails_early r network x e h = ground arith
  fails_early r denylist x e h = ground arith
  fails_early r allowlist x e h = ground arith
  fails_early r per_payment x e h = ground arith
  fails_early r rate x e h = ground arith
  fails_early r daily x e h = ground arith
  fails_early r per_counterparty x e h = ground arith
  fails_early r identity x e h = ground arith
  fails_early r bond x e h = ground arith
  fails_early r max_price x e h = cc

-- A payment is allowed exactly when every rule of the policy holds of it.
pub evaluate_policy-allow_iff :
    (p : SpendPolicy) (c : PolicyContext)
    → (evaluate_policy p c ≡ allow) ↔ ((r : PolicyRule) → Holds p c r)
evaluate_policy-allow_iff p c = (
  λ e r. (fails_iff p c r).0 (allow_passes p c e r),
  λ h. passes_allow p c (λ r. (fails_iff p c r).1 (h r)),
)

-- A refusal names a rule that does not hold, and every rule that is checked before it holds.
pub evaluate_policy-first_failure :
    (p : SpendPolicy) (c : PolicyContext) (r : PolicyRule) (x : Reason)
    → evaluate_policy p c ≡ deny r x
    → (¬ Holds p c r) × ((s : PolicyRule) → rank s < rank r → Holds p c s)
evaluate_policy-first_failure p c r x e = (
  λ h. cc (deny_fails p c r x e, (fails_iff p c r).1 h),
  λ s lt. (fails_iff p c s).0 (elim (Bool-cases (fails p c s)) [
    | inl failed ↦ absurd (omega (arith, fails_early p c r s x e failed))
    | inr passed ↦ passed
  ]),
)
