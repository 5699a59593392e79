-- ===== src/Lightning/Limiter.antt =====
-- packages/lightning/src/paywall.ts, `limiter`: new invoices per client and for everyone, in fixed
-- windows of a minute.
pub mod Grants
use arcagentx.Prelude.{
  ℕ, ◌+◌, ◌/◌, Bool, true, false, ◌||◌, List, [], ◌∷◌, leb, ◌==◌, if◌then◌else◌,
}
use arcagentx.Prelude.Text.{Text, text_eq}

pub record Limiter : Type 0 where
  pub window : ℕ
  pub all_count : ℕ
  pub counts : List (Text × ℕ)

abbrev pub new_limiter : Limiter
new_limiter = record { window = 0; all_count = 0; counts = [] }

-- `counts.get(client) ?? 0`.
unfoldable pub granted_to : Text → List (Text × ℕ) → ℕ
granted_to client [] = 0
granted_to client ((k, n) ∷ es) = if text_eq k client then n else granted_to client es

-- `counts.set(client, n)`.
unfoldable pub set_count : Text → ℕ → List (Text × ℕ) → List (Text × ℕ)
set_count client n [] = (client, n) ∷ []
set_count client n ((k, m) ∷ es) =
    if text_eq k client then (k, n) ∷ es else (k, m) ∷ set_count client n es

-- `Math.floor(now() / 60_000)`.
abbrev pub minute : ℕ → ℕ
minute now = now / 60_000

unfoldable pub roll : ℕ → Limiter → Limiter
roll now s =
    if minute now == s.window then s else record { window = minute now; all_count = 0; counts = [] }

unfoldable pub allow_client : ℕ → ℕ → ℕ → Text → Limiter → Limiter × Bool
allow_client per_client total now client s =
    let s' = roll now s in
    let n = granted_to client s'.counts in
    let raised : Limiter = record {
      window = s'.window;
      all_count = s'.all_count + 1;
      counts = set_count client (n + 1) s'.counts;
    } in
    if leb per_client n || leb total s'.all_count then (s', false) else (raised, true)
