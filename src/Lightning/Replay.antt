-- ===== src/Lightning/Replay.antt =====
-- packages/lightning/src/file-replay.ts: the proofs that a seller has accepted, in memory and in a
-- file of lines. A line of the file is the entry that it parses to, or none where it does not.
pub mod Once
use arcagentx.Prelude.{
  ℕ, ◌+◌, max, Bool, true, false, Option, none, some, List, [], ◌∷◌, ◌++◌, map, any, leb, filter,
  if◌then◌else◌,
}
use arcagentx.Prelude.Text.{Text, text_eq}

-- A key and the time until which it is kept, in seconds.
abbrev pub Entry : Type 0
Entry = Text × ℕ

pub record FileReplayStore : Type 0 where
  pub keys : List Entry
  pub file : List (Option Entry)
  pub since_compaction : ℕ

-- `keys.has(key)`.
unfoldable pub knows : Text → List Entry → Bool
knows key es = any (λ e. text_eq e.0 key) es

-- `keys.set(key, Math.max(keepUntil, keys.get(key) ?? 0))`.
unfoldable pub keep : Text → ℕ → List Entry → List Entry
keep key until [] = (key, max until 0) ∷ []
keep key until (e ∷ es) =
    if text_eq e.0 key then (key, max until e.1) ∷ es else e ∷ keep key until es

-- The lines of the file, read in turn.
unfoldable pub load : List Entry → List (Option Entry) → List Entry
load es [] = es
load es (none ∷ lines) = load es lines
load es (some e ∷ lines) = load (keep e.0 e.1 es) lines

-- What is left once the keys whose time has passed are dropped.
unfoldable pub unexpired : ℕ → List Entry → List Entry
unexpired now es = filter (λ e. leb now e.1) es

unfoldable pub compact : ℕ → FileReplayStore → FileReplayStore
compact now s =
    let kept = unexpired now s.keys in
    record { keys = kept; file = map some kept; since_compaction = 0 }

-- The constructor: a missing file is an empty one.
unfoldable pub open_store : ℕ → List (Option Entry) → FileReplayStore
open_store now file =
    compact now (record { keys = load [] file; file = file; since_compaction = 0 })

unfoldable pub claim : ℕ → Text → ℕ → FileReplayStore → FileReplayStore × Bool
claim now key keep_until s =
    let n = s.since_compaction + 1 in
    let written : FileReplayStore = record {
      keys = s.keys ++ (key, keep_until) ∷ [];
      file = s.file ++ some (key, keep_until) ∷ [];
      since_compaction = n;
    } in
    if knows key s.keys
    then (s, false)
    else ((if leb 1000 n then compact now written else written), true)
