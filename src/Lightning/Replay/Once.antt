-- ===== src/Lightning/Replay/Once.antt =====
-- A proof that was accepted is not accepted again before its time has passed, however many others
-- are claimed and however often the process starts again.
use arcagentx.Prelude.{
  ℕ, ◌+◌, ◌≤◌, ◌≡◌, inl, inr, refl, true, false, Option, none, some, List, [], ◌∷◌, ◌++◌, map,
  arith, Any, Bool-cases, leb, if◌then◌else◌,
}
use arcagentx.Prelude.Text.{Text, text_eq_iff}
use arcagentx.Lightning.Replay.{
  Entry, FileReplayStore, knows, keep, load, unexpired, compact, open_store, claim,
}

-- The entry keeps the key at least until the time.
abbrev pub Keeps : Text → ℕ → Entry → Type 0
Keeps key until e = (e.0 ≡ key) × (until ≤ e.1)

abbrev KeepsLine : Text → ℕ → Option Entry → Type 0
KeepsLine key until none = ⊥
KeepsLine key until (some e) = Keeps key until e

-- The key is remembered until the time, in memory and in the file.
pub record Remembers (key : Text) (until : ℕ) (s : FileReplayStore) : Type 0 where
  pub in_memory : Any (Keeps key until) s.keys
  pub in_file : Any (KeepsLine key until) s.file

module _ (key : Text) (until : ℕ) where
  knows-Any : (es : List Entry) → Any (Keeps key until) es → knows key es ≡ true
  unfolding knows
  knows-Any [] h = absurd h
  knows-Any (e ∷ es) h = ground (arith, text_eq_iff e.0 key, knows-Any es)

  Any-append : {A : Type 0} (P : A → Type 0) (xs ys : List A) → Any P xs → Any P (xs ++ ys)
  Any-append P [] ys h = absurd h
  Any-append P (x ∷ xs) ys (inl p) = inl p
  Any-append P (x ∷ xs) ys (inr h) = inr (Any-append P xs ys h)

  Any-append_right : {A : Type 0} (P : A → Type 0) (xs ys : List A) → Any P ys → Any P (xs ++ ys)
  Any-append_right P [] ys h = h
  Any-append_right P (x ∷ xs) ys h = inr (Any-append_right P xs ys h)

  unexpired-Keeps :
      (now : ℕ) (es : List Entry)
      → now ≤ until
      → Any (Keeps key until) es
      → Any (Keeps key until) (unexpired now es)
  unfolding unexpired
  unexpired-Keeps now [] le h = absurd h
  unexpired-Keeps now (e ∷ es) le h = ground (arith, unexpired-Keeps now es le)

  map-Keeps : (es : List Entry) → Any (Keeps key until) es → Any (KeepsLine key until) (map some es)
  map-Keeps [] h = absurd h
  map-Keeps (e ∷ es) (inl p) = inl p
  map-Keeps (e ∷ es) (inr h) = inr (map-Keeps es h)

  compact-Remembers :
      (now : ℕ) (s : FileReplayStore)
      → now ≤ until
      → Any (Keeps key until) s.keys
      → Remembers key until (compact now s)
  unfolding compact
  compact-Remembers now s le h = record {
    in_memory = unexpired-Keeps now s.keys le h;
    in_file = map-Keeps _ (unexpired-Keeps now s.keys le h);
  }

  keep-Keeps :
      (k : Text) (t : ℕ) (es : List Entry)
      → Any (Keeps key until) es
      → Any (Keeps key until) (keep k t es)
  unfolding keep
  keep-Keeps k t [] h = absurd h
  keep-Keeps k t (e ∷ es) h = ground (arith, text_eq_iff e.0 k, keep-Keeps k t es)

  keep-new :
      (k : Text) (t : ℕ) (es : List Entry)
      → Keeps key until (k, t)
      → Any (Keeps key until) (keep k t es)
  unfolding keep
  keep-new k t [] h = ground arith
  keep-new k t (e ∷ es) h = ground (arith, text_eq_iff e.0 k, keep-new k t es)

  load-kept :
      (lines : List (Option Entry)) (es : List Entry)
      → Any (Keeps key until) es
      → Any (Keeps key until) (load es lines)
  unfolding load
  load-kept [] es h = h
  load-kept (none ∷ lines) es h = load-kept lines es h
  load-kept (some e ∷ lines) es h = load-kept lines (keep e.0 e.1 es) (keep-Keeps e.0 e.1 es h)

  load-Keeps :
      (lines : List (Option Entry)) (es : List Entry)
      → Any (KeepsLine key until) lines
      → Any (Keeps key until) (load es lines)
  unfolding load
  load-Keeps [] es h = absurd h
  load-Keeps (none ∷ lines) es (inl h) = absurd h
  load-Keeps (none ∷ lines) es (inr h) = load-Keeps lines es h
  load-Keeps (some e ∷ lines) es (inl h) = load-kept lines (keep e.0 e.1 es) (keep-new e.0 e.1 es h)
  load-Keeps (some e ∷ lines) es (inr h) = load-Keeps lines (keep e.0 e.1 es) h

  settled_store :
      (now n : ℕ) (s : FileReplayStore)
      → now ≤ until
      → Remembers key until s
      → Remembers key until (if leb 1000 n then compact now s else s)
  settled_store now n s le h = elim (Bool-cases (leb 1000 n)) [
    | inl full ↦ rw full (compact-Remembers now s le h.in_memory)
    | inr room ↦ rw room h
  ]

  claim-Remembers :
      (now : ℕ) (k : Text) (t : ℕ) (s : FileReplayStore)
      → now ≤ until
      → Remembers key until s
      → Remembers key until (claim now k t s).0
  unfolding claim
  claim-Remembers now k t s le h = elim (Bool-cases (knows k s.keys)) [
    | inl known ↦ rw known h
    | inr new ↦ rw new (
        settled_store now (s.since_compaction + 1) _ le (record {
          in_memory = Any-append (Keeps key until) s.keys _ h.in_memory;
          in_file = Any-append (KeepsLine key until) s.file _ h.in_file;
        }))
  ]

  -- An accepted claim is remembered.
  accepted-Remembers :
      (now : ℕ) (s : FileReplayStore)
      → now ≤ until
      → (claim now key until s).1 ≡ true
      → Remembers key until (claim now key until s).0
  unfolding claim
  accepted-Remembers now s le e = elim (Bool-cases (knows key s.keys)) [
    | inl known ↦ let f = rw known at e in cc
    | inr new ↦ rw new (
        settled_store now (s.since_compaction + 1) _ le (record {
          in_memory = Any-append_right (Keeps key until) s.keys _ (inl (refl, omega arith));
          in_file = Any-append_right (KeepsLine key until) s.file _ (inl (refl, omega arith));
        }))
  ]

-- Until the time: others are claimed, and the process starts again from its file.
pub data Step (until : ℕ) : FileReplayStore → FileReplayStore → Type 0 where
  claiming :
      (s : FileReplayStore) (now : ℕ) (k : Text) (t : ℕ)
      → now ≤ until
      → Step until s (claim now k t s).0
  restarting : (s : FileReplayStore) (now : ℕ) → now ≤ until → Step until s (open_store now s.file)

pub data Reach (until : ℕ) (s : FileReplayStore) : FileReplayStore → Type 0 where
  here : Reach until s s
  next : {t u : FileReplayStore} → Reach until s t → Step until t u → Reach until s u

Step-Remembers :
    {key : Text} {until : ℕ} {s t : FileReplayStore}
    → Step until s t
    → Remembers key until s
    → Remembers key until t
unfolding open_store
Step-Remembers (claiming s now k t le) h = claim-Remembers _ _ now k t s le h
Step-Remembers (restarting s now le) h =
    compact-Remembers _ _ now _ le (load-Keeps _ _ s.file [] h.in_file)

Reach-Remembers :
    (key : Text) (until : ℕ) (s t : FileReplayStore)
    → Reach until s t
    → Remembers key until s
    → Remembers key until t
Reach-Remembers key until s _ here h = h
Reach-Remembers key until s _ (next r st) h = Step-Remembers st (Reach-Remembers key until s _ r h)

-- A key that was accepted, to be kept until a time that has not passed, is refused by every later
-- claim up to that time, whatever was claimed and however often the process started again between.
pub claim-once :
    (key : Text) (until now later keep_until : ℕ) (s t : FileReplayStore)
    → now ≤ until
    → (claim now key until s).1 ≡ true
    → Reach until (claim now key until s).0 t
    → claim later key keep_until t ≡ (t, false)
unfolding claim
claim-once key until now later keep_until s t le e r =
    let h =
      Reach-Remembers key until _ t r (unfold claim in accepted-Remembers key until now s le e) in
    rw (knows-Any key until t.keys h.in_memory) refl
