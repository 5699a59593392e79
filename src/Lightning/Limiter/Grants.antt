-- ===== src/Lightning/Limiter/Grants.antt =====
-- How many calls one window grants, over a run of calls whose times do not go back.
use arcagentx.Prelude.{
  ℕ, ◌+◌, ◌≤◌, ◌<◌, ◌≡◌, refl, Bool, true, false, ◌&&◌, List, [], ◌∷◌, arith, ◌==◌, if◌then◌else◌,
}
use arcagentx.Prelude.Text.{Text, text_eq, text_eq_iff}
use arcagentx.Lightning.Limiter.{
  Limiter, new_limiter, granted_to, set_count, minute, roll, allow_client,
}

-- A call: its time and its client.
abbrev pub Call : Type 0
Call = ℕ × Text

-- The calls of `who`, or of anyone where `mine` holds of every client, granted in the window `w`.
abbrev pub grants : ℕ → ℕ → (Text → Bool) → ℕ → List Call → Limiter → ℕ
grants per_client total mine w [] s = 0
grants per_client total mine w ((now, c) ∷ calls) s =
    let r = allow_client per_client total now c s in
    let rest = grants per_client total mine w calls r.0 in
    if r.1 && minute now == w && mine c then 1 + rest else rest

-- Windows do not go back, from `since` on.
abbrev pub Forward : ℕ → List Call → Type 0
Forward since [] = Unit
Forward since ((now, c) ∷ calls) = (since ≤ minute now) × Forward (minute now) calls

granted_to-set_count :
    (c who : Text) (n : ℕ) (es : List (Text × ℕ))
    → granted_to who (set_count c n es) ≡ (if text_eq c who then n else granted_to who es)
unfolding granted_to set_count
granted_to-set_count c who n [] = ground arith
granted_to-set_count c who n ((k, m) ∷ es) =
    ground (
      arith,
      granted_to-set_count c who n es,
      text_eq_iff k c,
      text_eq_iff k who,
      text_eq_iff c who,
    )

-- What was counted before, if the call falls in the same window.
abbrev kept : ℕ → Limiter → ℕ → ℕ
kept w s n = if w == s.window then n else 0

module _ (per_client total : ℕ) where
  allow_client-window :
      (now : ℕ) (c : Text) (s : Limiter)
      → (allow_client per_client total now c s).0.window ≡ minute now
  unfolding allow_client roll
  allow_client-window now c s = ground arith

  -- What a call does to the count of all.
  allow_client-all :
      (now : ℕ) (c : Text) (s : Limiter)
      → s.all_count ≤ total
      → let r = allow_client per_client total now c s in
        (r.0.all_count ≤ total)
        × (r.0.all_count ≡ kept (minute now) s s.all_count + (if r.1 && true then 1 else 0))
  unfolding allow_client roll
  allow_client-all now c s h = (ground arith, ground arith)

  roll-who :
      (now : ℕ) (who : Text) (s : Limiter)
      → granted_to who (roll now s).counts ≡ kept (minute now) s (granted_to who s.counts)
  unfolding roll granted_to
  roll-who now who s = ground arith

  -- What a call does to the count of one client.
  allow_client-who :
      (now : ℕ) (c who : Text) (s : Limiter)
      → granted_to who s.counts ≤ per_client
      → let r = allow_client per_client total now c s in
        (granted_to who r.0.counts ≤ per_client)
        × (granted_to who r.0.counts
            ≡ kept (minute now) s (granted_to who s.counts)
              + (if r.1 && text_eq c who then 1 else 0))
  unfolding allow_client
  allow_client-who now c who s h =
      let s' = roll now s in
      let set = granted_to-set_count c who (granted_to c s'.counts + 1) s'.counts in
      let before = roll-who now who s in
      (
        ground (arith, set, before, text_eq_iff c who),
        ground (arith, set, before, text_eq_iff c who),
      )

  -- A window that has passed grants nothing more.
  grants-past :
      (mine : Text → Bool) (w : ℕ) (calls : List Call) (s : Limiter)
      → w < s.window
      → Forward s.window calls
      → grants per_client total mine w calls s ≡ 0
  grants-past mine w [] s h f = refl
  grants-past mine w ((now, c) ∷ calls) s h (p, f) =
      let r = allow_client per_client total now c s in
      let at = allow_client-window now c s in
      let none_left : grants per_client total mine w calls r.0 ≡ 0 =
        grants-past mine w calls r.0 (omega (arith, at)) (rw at f) in
      let other : (minute now == w) ≡ false = ground arith in ground arith

  -- What is left to grant in the window, with what was granted, stays under the cap.
  stays :
      (rest n after cap w m win : ℕ) (granted mine : Bool)
      → win ≤ m
      → n ≤ cap
      → after ≡ (if m == win then n else 0) + (if granted && mine then 1 else 0)
      → rest + (if w == m then after else 0) ≤ cap
      → (w < m → rest ≡ 0)
      → (if granted && m == w && mine then 1 + rest else rest) + (if w == win then n else 0) ≤ cap
  stays rest n after cap w m win granted mine p h e le past = ground arith

  grants-all :
      (w : ℕ) (calls : List Call) (s : Limiter)
      → s.all_count ≤ total
      → Forward s.window calls
      → grants per_client total (λ c. true) w calls s + kept w s s.all_count ≤ total
  grants-all w [] s h f = ground arith
  grants-all w ((now, c) ∷ calls) s h (p, f) =
      let r = allow_client per_client total now c s in
      let at = allow_client-window now c s in
      let (le, count) = allow_client-all now c s h in
      let f' : Forward r.0.window calls = rw at f in
      let rest = grants-all w calls r.0 le f' in
      stays _ s.all_count r.0.all_count total w (minute now) s.window r.1 true p h count
        (rw at at rest) (λ lt. grants-past (λ c. true) w calls r.0 (rw at lt) f')

  grants-who :
      (who : Text) (w : ℕ) (calls : List Call) (s : Limiter)
      → granted_to who s.counts ≤ per_client
      → Forward s.window calls
      → grants per_client total (λ c. text_eq c who) w calls s + kept w s (granted_to who s.counts)
        ≤ per_client
  grants-who who w [] s h f = ground arith
  grants-who who w ((now, c) ∷ calls) s h (p, f) =
      let r = allow_client per_client total now c s in
      let at = allow_client-window now c s in
      let (le, count) = allow_client-who now c who s h in
      let f' : Forward r.0.window calls = rw at f in
      let rest = grants-who who w calls r.0 le f' in
      stays _ (granted_to who s.counts) (granted_to who r.0.counts) per_client w (minute now)
        s.window r.1 (text_eq c who) p h count (rw at at rest)
        (λ lt. grants-past (λ c. text_eq c who) w calls r.0 (rw at lt) f')

-- Over any calls whose windows do not go back, a window grants no more invoices than the total, and
-- no more to any one client than the limit for a client.
pub grants-limits :
    (per_client total w : ℕ) (who : Text) (calls : List Call)
    → Forward 0 calls
    → (grants per_client total (λ c. true) w calls new_limiter ≤ total)
      × (grants per_client total (λ c. text_eq c who) w calls new_limiter ≤ per_client)
unfolding granted_to
grants-limits per_client total w who calls f =
    let all = grants-all per_client total w calls new_limiter (omega arith) f in
    let one = grants-who per_client total who w calls new_limiter (omega arith) f in
    (omega (arith, all), omega (arith, one))
