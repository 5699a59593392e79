-- ===== src/Collector/Pool/Picks.antt =====
-- Which endpoint the pool picks: one that has not been tried, while there is one.
use mathlib.Core.Path.{subst}
use arcagentx.Prelude.{
  ℕ, suc, ◌≤◌, ◌<◌, ◌≡◌, refl, ap, sym, ◌∙◌, inl, inr, ◌⊎◌, Bool, true, false, not, ◌&&◌, ◌||◌,
  Option, none, some, List, [], ◌∷◌, map, Result, ok, err, arith, Bool-cases, length, filter, any,
}
use arcagentx.Prelude.Text.{Text, text_eq, text_eq_iff}
use arcagentx.Collector.Client.{RpcError, JsonRpcCall, RpcOutcome}
use arcagentx.Collector.Pool.{
  EndpointState, change, is_enabled, has_url, insert_by, sort_by, usable, on_failure,
}
use arcagentx.Collector.Pool.Batch.{World, RoutedOutcome, endpoint_problem, is_fresh, pick}

-- Sorting keeps what some endpoint satisfies.
any-insert_by :
    (p : EndpointState → Bool) (rank : EndpointState → ℕ) (e : EndpointState)
    (es : List EndpointState)
    → any p (insert_by rank e es) ≡ (p e || any p es)
unfolding insert_by
any-insert_by p rank e [] = refl
any-insert_by p rank e (x ∷ xs) = ground (arith, any-insert_by p rank e xs)

pub any-sort_by :
    (p : EndpointState → Bool) (rank : EndpointState → ℕ) (es : List EndpointState)
    → any p (sort_by rank es) ≡ any p es
unfolding sort_by
any-sort_by p rank [] = refl
any-sort_by p rank (e ∷ es) =
    any-insert_by p rank e (sort_by rank es) ∙ ap (λ b. p e || b) (any-sort_by p rank es)

abbrev pub urls : List EndpointState → List Text
urls es = map (λ e. e.url) es

-- What is said of urls.
pub any-urls : (q : Text → Bool) (es : List EndpointState) → any (λ e. q e.url) es ≡ any q (urls es)
any-urls q [] = refl
any-urls q (e ∷ es) = ap (λ b. q e.url || b) (any-urls q es)

abbrev pub fresh : List Text → List Text → List Text
fresh tried us = filter (λ u. not (has_url u tried)) us

has_url-cons :
    (u v : Text) (tried : List Text) → has_url u (v ∷ tried) ≡ (text_eq v u || has_url u tried)
has_url-cons u v tried = refl

-- A url that is tried is fresh no more.
fresh-le :
    (u : Text) (tried us : List Text) → length (fresh (u ∷ tried) us) ≤ length (fresh tried us)
fresh-le u tried [] = omega arith
fresh-le u tried (v ∷ us) = ground (arith, fresh-le u tried us)

fresh-lt_here :
    (u : Text) (tried us : List Text)
    → has_url u tried ≡ false
    → length (fresh (u ∷ tried) (u ∷ us)) < length (fresh tried (u ∷ us))
fresh-lt_here u tried us new =
    let itself : text_eq u u ≡ true = (text_eq_iff u u).1 refl in
    ground (arith, fresh-le u tried us)

pub fresh-lt :
    (u : Text) (tried us : List Text)
    → has_url u us ≡ true
    → has_url u tried ≡ false
    → length (fresh (u ∷ tried) us) < length (fresh tried us)
fresh-lt u tried [] there new = cc
fresh-lt u tried (v ∷ us) there new = elim (Bool-cases (text_eq v u)) [
  | inl here ↦
      let same : u ≡ v = sym ((text_eq_iff v u).0 here) in
      subst (λ w. length (fresh (u ∷ tried) (w ∷ us)) < length (fresh tried (w ∷ us))) same
        (fresh-lt_here u tried us new)
  | inr away ↦
      let later : has_url u us ≡ true = ground arith in
      ground (arith, fresh-lt u tried us later new)
]

pub fresh-length : (es : List EndpointState) → length (fresh [] (urls es)) ≡ length es
fresh-length [] = refl
fresh-length (e ∷ es) = ap suc (fresh-length es)

-- The first of the filtered ones.
filter-head :
    {A : Type 0} (q : A → Bool) (xs : List A) (f : A) (fs : List A)
    → filter q xs ≡ f ∷ fs
    → (q f ≡ true) × ((p : A → Bool) → p f ≡ true → any p xs ≡ true)
filter-head q [] f fs h = cc
filter-head q (x ∷ xs) f fs h = elim (Bool-cases (q x)) [
  | inl taken ↦
      let k = rw (taken, filter) at h in
      let same : f ≡ x = cc in
      (
        subst (λ y. q y ≡ true) (sym same) taken,
        λ p pf. let px = subst (λ y. p y ≡ true) same pf in rw px refl,
      )
  | inr left ↦
      let k = rw (left, filter) at h in
      let (good, among) = filter-head q xs f fs k in
      (good, λ p pf. let later = among p pf in ground arith)
]

filter-some :
    {A : Type 0} (q p : A → Bool) (xs : List A)
    → any (λ x. p x && q x) xs ≡ true
    → (f : A) × (fs : List A) × (filter q xs ≡ f ∷ fs)
filter-some q p [] h = cc
filter-some q p (x ∷ xs) h = elim (Bool-cases (q x)) [
  | inl taken ↦ (x, filter q xs, rw (taken, filter) refl)
  | inr left ↦
      let later : any (λ y. p y && q y) xs ≡ true = ground arith in
      let (f, fs, e) = filter-some q p xs later in (f, fs, rw (left, filter) e)
]

-- A change of an endpoint that keeps its url and whether it is disabled keeps who is usable.
pub usable-change :
    (url : Text) (f : EndpointState → EndpointState) (exclude : List Text) (es : List EndpointState)
    → ((e : EndpointState) → (f e).url ≡ e.url)
    → ((e : EndpointState) → (f e).disabled_reason ≡ e.disabled_reason)
    → urls (usable exclude (change url f es)) ≡ urls (usable exclude es)
unfolding usable change is_enabled
usable-change url f exclude [] keeps_url keeps_reason = refl
usable-change url f exclude (e ∷ es) keeps_url keeps_reason =
    ground
      (arith, usable-change url f exclude es keeps_url keeps_reason, keeps_url e, keeps_reason e)

pub on_failure-keeps :
    (now : ℕ) (e : EndpointState)
    → ((on_failure now e).url ≡ e.url) × ((on_failure now e).disabled_reason ≡ e.disabled_reason)
unfolding on_failure
on_failure-keeps now e = (refl, refl)

pub Option-cases : {A : Type 0} (o : Option A) → (o ≡ none) ⊎ ((a : A) × (o ≡ some a))
Option-cases none = inl refl
Option-cases (some a) = inr (a, refl)

-- Some endpoint of the name is not tried yet, so the pick is one that is not.
pub pick-fresh :
    (g : Text) (tried : List Text) (c : EndpointState) (cs : List EndpointState)
    → any (λ e. text_eq e.url g && is_fresh tried e) (c ∷ cs) ≡ true
    → (f : EndpointState) × (pick tried c cs ≡ (f, tried))
      × (is_fresh tried f ≡ true)
      × ((p : EndpointState → Bool) → p f ≡ true → any p (c ∷ cs) ≡ true)
unfolding pick
pick-fresh g tried c cs h =
    let (f, fs, e) = filter-some (is_fresh tried) (λ e. text_eq e.url g) (c ∷ cs) h in
    let (good, among) = filter-head (is_fresh tried) (c ∷ cs) f fs e in
    (f, rw (e, pick) refl, good, among)

-- An answer for one call.
abbrev pub Answers : World → JsonRpcCall → Text → Type 0
Answers w c g =
    (attempt : ℕ)
    → (os : List RpcOutcome) × (w.send attempt g (c ∷ []) ≡ ok os) × (endpoint_problem os ≡ none)

-- Throws for one call may be tried again.
abbrev pub ThrowsRetryable : World → JsonRpcCall → Type 0
ThrowsRetryable w c =
    (attempt : ℕ) (u : Text) (e : RpcError) → w.send attempt u (c ∷ []) ≡ err e → e.retryable ≡ true

abbrev pub Succeeds : List EndpointState × Result RpcError RoutedOutcome → Type 0
Succeeds out = (r : RoutedOutcome) × (out.1 ≡ ok r)
