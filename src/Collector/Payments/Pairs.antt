-- ===== src/Collector/Payments/Pairs.antt =====
-- Which transfers the authorizations of a transaction take.
use arcagentx.Prelude.{
  ℕ, ◌<◌, ◌≡◌, ◌≢◌, refl, ap, sym, ◌∙◌, ◌⊎◌, inl, inr, Bool, true, false, Option, none, some, List,
  [], ◌∷◌, arith, Bool-cases, ◌==◌, any, All, Any,
}
use arcagentx.Prelude.Text.{text_eq_iff}
use arcagentx.Collector.Payments.{
  StoredLog, Pair, transfer_topic, is_topic, bytes_in, is_authorization, pays_for, find_first,
  transfer_for, taking, pairs_from, pairs_in,
}

-- The transfer is in the logs, behind the authorization, of the same token and from the authorizer.
pub record Settles (logs : List StoredLog) (p : Pair) : Type 0 where
  pub authorized : is_authorization p.0 ≡ true
  pub there : Any (λ (l : StoredLog). l ≡ p.1) logs
  pub behind : p.0.log_index < p.1.log_index
  pub moved : is_topic p.1.topic0 transfer_topic ≡ true
  pub token : p.1.address ≡ p.0.address
  pub payer : is_topic p.1.topic1 (bytes_in p.0.topic1) ≡ true

abbrev pub IsFree : List ℕ → Pair → Type 0
IsFree taken p = any (λ i. i == p.1.log_index) taken ≡ false

abbrev pub Differs : ℕ → Pair → Type 0
Differs index p = p.1.log_index ≢ index

-- No two pairs have one transfer.
abbrev pub OnceEach : List Pair → Type 0
OnceEach [] = Unit
OnceEach (p ∷ ps) = All (Differs p.1.log_index) ps × OnceEach ps

record Good (logs : List StoredLog) (taken : List ℕ) (ps : List Pair) : Type 0 where
  free : All (IsFree taken) ps
  once : OnceEach ps
  settles : All (Settles logs) ps

Option-cases : {A : Type 0} (o : Option A) → (o ≡ none) ⊎ ((a : A) × (o ≡ some a))
Option-cases none = inl refl
Option-cases (some a) = inr (a, refl)

some-eq : {A : Type 0} {a b : A} → some a ≡ some b → a ≡ b
some-eq h = cc

find_first-there :
    (p : StoredLog → Bool) (ls : List StoredLog) (t : StoredLog)
    → find_first p ls ≡ some t
    → Any (λ (l : StoredLog). l ≡ t) ls × (p t ≡ true)
unfolding find_first
find_first-there p [] t h = cc
find_first-there p (l ∷ ls) t h = elim (Bool-cases (p l)) [
  | inl holding ↦
      let same : l ≡ t = some-eq (let k = rw holding at h in k) in
      (inl same, ap p (sym same) ∙ holding)
  | inr fails ↦
      let (there, holds) = find_first-there p ls t (let k = rw fails at h in k) in
      (inr there, holds)
]

-- A transfer that was found is one that settles, and that no earlier one took.
transfer_for-Settles :
    (logs : List StoredLog) (taken : List ℕ) (auth t : StoredLog)
    → transfer_for logs taken auth ≡ some t
    → Settles logs (auth, t) × IsFree taken (auth, t)
unfolding transfer_for pays_for
transfer_for-Settles logs taken auth t h = elim (Bool-cases (is_authorization auth)) [
  | inl holding ↦
      let (there, holds) =
        find_first-there (pays_for taken auth) logs t (let k = rw holding at h in k) in
      (
        record {
          authorized = holding;
          there = there;
          behind = ground arith;
          moved = ground arith;
          token = (text_eq_iff t.address auth.address).0 (ground arith);
          payer = ground arith;
        },
        ground arith,
      )
  | inr fails ↦ let k = rw fails at h in cc
]

IsFree-cons :
    (index : ℕ) (taken : List ℕ) (ps : List Pair)
    → All (IsFree (index ∷ taken)) ps
    → All (Differs index) ps × All (IsFree taken) ps
IsFree-cons index taken [] free = (tt, tt)
IsFree-cons index taken (p ∷ ps) (now, free) =
    let (differs, rest) = IsFree-cons index taken ps free in
    ((ground arith, differs), (ground arith, rest))

pairs_from-Good :
    (logs : List StoredLog) (taken : List ℕ) (ls : List StoredLog)
    → Good logs taken (pairs_from logs taken ls)
unfolding pairs_from taking
pairs_from-Good logs taken [] = record { free = tt; once = tt; settles = tt }
pairs_from-Good logs taken (auth ∷ ls) = elim (Option-cases (transfer_for logs taken auth)) [
  | inl nothing ↦ rw (nothing, pairs_from) (pairs_from-Good logs taken ls)
  | inr (t, found) ↦
      let more = pairs_from-Good logs (t.log_index ∷ taken) ls in
      let (settles, free) = transfer_for-Settles logs taken auth t found in
      let (differs, rest) = IsFree-cons t.log_index taken _ more.free in
      rw (found, pairs_from)
        (record {
          free = (free, rest);
          once = (differs, more.once);
          settles = (settles, more.settles);
        })
]

-- In the logs of a transaction, each authorization that is paired took a transfer of the same token
-- from its authorizer, further on in the same logs, and no two of them took one transfer: no payment
-- is counted twice.
pub pairs_in-OnceEach :
    (logs : List StoredLog) → OnceEach (pairs_in logs) × All (Settles logs) (pairs_in logs)
unfolding pairs_in
pairs_in-OnceEach logs = let good = pairs_from-Good logs [] logs in (good.once, good.settles)
