-- ===== src/Facilitator/Service/History.antt =====
-- A history of the facilitator: payments are verified and settled, and sellers register, one after
-- another.
use arcagentx.Prelude.{
  ℕ, ◌≡◌, ◌⊎◌, inl, inr, refl, Bool, true, false, Option, none, some, List, Bool-cases,
}
use arcagentx.Prelude.Text.{Text, to_lower}
use arcagentx.Facilitator.Guard.{GuardRules, GuardedRequirements, refuse-none_iff, has_text_iff}
use arcagentx.Facilitator.Sellers.{SellerRegistry, add, status, settled_today}
use arcagentx.Facilitator.Sellers.Caps.{
  Balanced, InAllowance, IsApart, HasAllowances, balance, Room, is_fixed, roll_day-Balanced,
  allowance_refusal-Balanced, allowance_refusal-none, record_settlement-Balanced, add-Balanced,
}
use arcagentx.Facilitator.Service.{
  Facilitator, is_registered, ask_allowance, after_guard, before_hooks, note, after_settle,
  verify_with, verify, settle_with, settle, register_reply, register_from, register,
}

-- The allowances hold, if there are any.
abbrev pub AllBalanced : List Text → Option SellerRegistry → Type 0
AllBalanced fixed none = Unit
AllBalanced fixed (some s) = Balanced fixed s

abbrev pub IsBalanced : Facilitator → Type 0
IsBalanced f = AllBalanced f.rules.pay_to f.sellers

-- Whoever passed the hooks may be settled for.
abbrev MaySettle : List Text → Text → Option SellerRegistry → Type 0
MaySettle fixed pay_to none = Unit
MaySettle fixed pay_to (some s) =
    (is_fixed fixed (to_lower pay_to) ≡ true) ⊎ Room (to_lower pay_to) s

record Passed (pay_to : Text) (rules : GuardRules) (r : Facilitator × Option Text) : Type 0 where
  rules_same : r.0.rules ≡ rules
  within : AllBalanced rules.pay_to r.0.sellers
  may : r.1 ≡ none → MaySettle rules.pay_to pay_to r.0.sellers

ask_allowance-Passed :
    (now : ℕ) (balance : Option ℕ) (pay_to : Text) (f : Facilitator) (o : Option SellerRegistry)
    → f.sellers ≡ o
    → (is_fixed f.rules.pay_to (to_lower pay_to) ≡ true) ⊎ (is_registered o pay_to ≡ true)
    → AllBalanced f.rules.pay_to o
    → Passed pay_to f.rules (ask_allowance now balance pay_to f o)
unfolding ask_allowance
ask_allowance-Passed now balance pay_to f none e who h = record {
  rules_same = refl;
  within = rw e tt;
  may = λ p. rw e tt;
}
ask_allowance-Passed now balance pay_to f (some s) e who h = record {
  rules_same = refl;
  within = allowance_refusal-Balanced now pay_to f.rules.pay_to s _ f.reserve h;
  may = λ p. elim (Bool-cases (is_fixed f.rules.pay_to (to_lower pay_to))) [
    | inl own ↦ inl own
    | inr other ↦ elim who [
      | inl own ↦ cc
      | inr known ↦
          inr (allowance_refusal-none now pay_to f.rules.pay_to s _ f.reserve other known p).0
    ]
  ];
}

after_guard-Passed :
    (now : ℕ) (balance : Option ℕ) (pay_to : Text) (f : Facilitator) (o : Option Text)
    → (o ≡ none
        → (is_fixed f.rules.pay_to (to_lower pay_to) ≡ true)
          ⊎ (is_registered f.sellers pay_to ≡ true))
    → IsBalanced f
    → Passed pay_to f.rules (after_guard now balance pay_to f o)
unfolding after_guard
after_guard-Passed now balance pay_to f none who h =
    ask_allowance-Passed now balance pay_to f f.sellers refl (who refl) h
after_guard-Passed now balance pay_to f (some reason) who h = record {
  rules_same = refl;
  within = h;
  may = λ e. cc;
}

before_hooks-Passed :
    (now : ℕ) (balance : Option ℕ) (req : GuardedRequirements) (f : Facilitator)
    → IsBalanced f
    → Passed req.pay_to f.rules (before_hooks now balance req f)
unfolding before_hooks
before_hooks-Passed now balance req f h =
    after_guard-Passed now balance req.pay_to f _
      (λ e. elim ((refuse-none_iff (is_registered f.sellers) req f.rules).0 e).seller [
        | inl own ↦ inl ((has_text_iff (to_lower req.pay_to) f.rules.pay_to).1 own)
        | inr known ↦ inr known
      ])
      h

note-AllBalanced :
    (at : ℕ) (pay_to : Text) (fixed : List Text) (o : Option SellerRegistry)
    → MaySettle fixed pay_to o
    → AllBalanced fixed o
    → AllBalanced fixed (note at pay_to o)
unfolding note
note-AllBalanced at pay_to fixed none may h = tt
note-AllBalanced at pay_to fixed (some s) may h = record_settlement-Balanced at pay_to fixed s may h

settle_with-IsBalanced :
    (at : ℕ) (pay_to : Text) (success : Bool) (rules : GuardRules) (r : Facilitator × Option Text)
    → Passed pay_to rules r
    → IsBalanced (settle_with at pay_to success r).0
unfolding settle_with after_settle
settle_with-IsBalanced at pay_to success rules (f, some reason) p = rw p.rules_same p.within
settle_with-IsBalanced at pay_to false rules (f, none) p = rw p.rules_same p.within
settle_with-IsBalanced at pay_to true rules (f, none) p =
    rw p.rules_same (note-AllBalanced at pay_to rules.pay_to f.sellers (p.may refl) p.within)

settle-IsBalanced :
    (now at : ℕ) (balance : Option ℕ) (success : Bool) (req : GuardedRequirements) (f : Facilitator)
    → IsBalanced f
    → IsBalanced (settle now at balance success req f).0
unfolding settle
settle-IsBalanced now at balance success req f h =
    settle_with-IsBalanced at req.pay_to success f.rules (before_hooks now balance req f)
      (before_hooks-Passed now balance req f h)

verify_with-same : (valid : Bool) (r : Facilitator × Option Text) → (verify_with valid r).0 ≡ r.0
unfolding verify_with
verify_with-same valid (f, some reason) = refl
verify_with-same valid (f, none) = refl

verify-IsBalanced :
    (now : ℕ) (balance : Option ℕ) (valid : Bool) (req : GuardedRequirements) (f : Facilitator)
    → IsBalanced f
    → IsBalanced (verify now balance valid req f).0
unfolding verify
verify-IsBalanced now balance valid req f h =
    let p = before_hooks-Passed now balance req f h in
    rw (verify_with-same valid (before_hooks now balance req f)) (rw p.rules_same p.within)

register_reply-Balanced :
    (now : ℕ) (pay_to : Text) (fixed : List Text) (r : SellerRegistry × Bool)
    → Balanced fixed r.0
    → Balanced fixed (register_reply now pay_to r).0
unfolding register_reply status settled_today
register_reply-Balanced now pay_to fixed (s, false) h = h
register_reply-Balanced now pay_to fixed (s, true) h = roll_day-Balanced fixed now s h

register_from-IsBalanced :
    (now : ℕ) (pay_to : Text) (f : Facilitator) (o : Option SellerRegistry)
    → is_fixed f.rules.pay_to (to_lower pay_to) ≡ false
    → f.sellers ≡ o
    → AllBalanced f.rules.pay_to o
    → IsBalanced (register_from now pay_to f o).0
unfolding register_from
register_from-IsBalanced now pay_to f none other e h = rw e tt
register_from-IsBalanced now pay_to f (some s) other e h =
    register_reply-Balanced now pay_to f.rules.pay_to (add now pay_to s)
      (add-Balanced now pay_to f.rules.pay_to s other h)

-- A registration is of a wallet that is not one of the facilitator's own.
pub data Step : Facilitator → Facilitator → Type 0 where
  verifying :
      (f : Facilitator) (now : ℕ) (balance : Option ℕ) (valid : Bool) (req : GuardedRequirements)
      → Step f (verify now balance valid req f).0
  settling :
      (f : Facilitator) (now at : ℕ) (balance : Option ℕ) (success : Bool)
      (req : GuardedRequirements)
      → Step f (settle now at balance success req f).0
  registering :
      (f : Facilitator) (now : ℕ) (pay_to : Text)
      → is_fixed f.rules.pay_to (to_lower pay_to) ≡ false
      → Step f (register now pay_to f).0

pub data Reach (f : Facilitator) : Facilitator → Type 0 where
  here : Reach f f
  next : {g h : Facilitator} → Reach f g → Step g h → Reach f h

Step-IsBalanced : {f g : Facilitator} → Step f g → IsBalanced f → IsBalanced g
unfolding register
Step-IsBalanced (verifying f now balance valid req) h = verify-IsBalanced now balance valid req f h
Step-IsBalanced (settling f now at balance success req) h =
    settle-IsBalanced now at balance success req f h
Step-IsBalanced (registering f now pay_to other) h =
    register_from-IsBalanced now pay_to f f.sellers other refl h

-- What holds of the registry, if there is one.
abbrev pub OfSellers : (SellerRegistry → Type 0) → Option SellerRegistry → Type 0
OfSellers P none = Unit
OfSellers P (some s) = P s

balanced :
    (fixed : List Text) (o : Option SellerRegistry)
    → OfSellers (IsApart fixed) o
    → OfSellers HasAllowances o
    → OfSellers (InAllowance fixed) o
    → AllBalanced fixed o
balanced fixed none apart caps h = tt
balanced fixed (some s) apart caps h = balance fixed s apart caps h

within :
    (fixed : List Text) (o : Option SellerRegistry)
    → AllBalanced fixed o
    → OfSellers (InAllowance fixed) o
within fixed none h = tt
within fixed (some s) h = record { each = h.each; shared = h.shared }

Reach-IsBalanced : (f g : Facilitator) → Reach f g → IsBalanced f → IsBalanced g
Reach-IsBalanced f _ here h = h
Reach-IsBalanced f _ (next r st) h = Step-IsBalanced st (Reach-IsBalanced f _ r h)

-- From a facilitator within its allowances, none of whose own wallets is registered and whose
-- allowances are of one settlement at least, every facilitator that verifications, settlements and
-- registrations of other wallets than its own lead to, one request at a time and whatever the SDK and
-- the chain answer, is within them: today no seller but the fixed ones has had more settlements than
-- its allowance, and the registered ones together no more than theirs.
pub Reach-WithinAllowances :
    (f g : Facilitator)
    → Reach f g
    → OfSellers (IsApart f.rules.pay_to) f.sellers
    → OfSellers HasAllowances f.sellers
    → OfSellers (InAllowance f.rules.pay_to) f.sellers
    → OfSellers (InAllowance g.rules.pay_to) g.sellers
Reach-WithinAllowances f g r apart caps h =
    within g.rules.pay_to g.sellers
      (Reach-IsBalanced f g r (balanced f.rules.pay_to f.sellers apart caps h))
