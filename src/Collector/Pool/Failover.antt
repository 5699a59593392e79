-- ===== src/Collector/Pool/Failover.antt =====
-- A call fails over: one endpoint that answers is enough.
use mathlib.Core.Path.{subst}
use arcagentx.Prelude.{
  ℕ, zero, suc, ◌≤◌, ◌≡◌, refl, ap, sym, ◌∙◌, inl, inr, Bool, true, false, ◌&&◌, Option, none, List,
  [], ◌∷◌, Result, ok, arith, Bool-cases, Result-cases, length, any,
}
use arcagentx.Prelude.Text.{Text, text_eq, text_eq_iff}
use arcagentx.Collector.Client.{RpcError, JsonRpcCall, RpcOutcome}
use arcagentx.Collector.Pool.{
  EndpointState, change, has_url, usable, score, best_known_head, candidates, on_failure,
}
use arcagentx.Collector.Pool.Batch.{
  World, PoolOptions, RequestOptions, RoutedOutcome, execute, endpoint_problem, learned_limit,
  after_answer, is_fresh, candidates_among, candidates_for, try_one, attempts, attempts_of, batch,
  call,
}
use arcagentx.Collector.Pool.Picks.{
  any-sort_by, urls, any-urls, fresh, fresh-lt, fresh-length, usable-change, on_failure-keeps,
  Option-cases, pick-fresh, Answers, ThrowsRetryable, Succeeds,
}

module _ (w : World) (opts : PoolOptions) (ro : RequestOptions) (c : JsonRpcCall) (g : Text) where
  -- What the loop keeps: who is usable, that `g` is among them and not tried yet, and that there are
  -- attempts for all that are not tried.
  record Hopeful (left : ℕ) (tried us : List Text) (es : List EndpointState) : Type 0 where
    same : urls (usable ro.exclude es) ≡ us
    usable_g : has_url g us ≡ true
    untried : has_url g tried ≡ false
    enough : length (fresh tried us) ≤ left

  after_answer-good :
      (attempt : ℕ) (tried : List Text) (last : Option RpcError) (es : List EndpointState)
      (e : EndpointState)
      (rest : List Text
        → Option RpcError
        → List EndpointState
        → List EndpointState × Result RpcError RoutedOutcome)
      (os : List RpcOutcome)
      → endpoint_problem os ≡ none
      → Succeeds (after_answer w attempt (c ∷ []) tried last es e rest (ok os))
  unfolding after_answer
  after_answer-good attempt tried last es e rest os h = (
    record { endpoint = e.url; outcomes = os; duration_ms = w.took attempt },
    rw (h, after_answer) refl,
  )

  failed-Hopeful :
      (left attempt : ℕ) (tried us : List Text) (es : List EndpointState) (e : EndpointState)
      → Hopeful (suc left) tried us es
      → has_url e.url us ≡ true
      → has_url e.url tried ≡ false
      → text_eq e.url g ≡ false
      → Hopeful left (e.url ∷ tried) us (change e.url (on_failure (w.answered_at attempt)) es)
  failed-Hopeful left attempt tried us es e h there new other = record {
    same =
        usable-change e.url (on_failure (w.answered_at attempt)) ro.exclude es
          (λ x. (on_failure-keeps (w.answered_at attempt) x).0)
          (λ x. (on_failure-keeps (w.answered_at attempt) x).1)
        ∙ h.same;
    usable_g = h.usable_g;
    untried = rw other h.untried;
    enough = omega (arith, fresh-lt e.url tried us there new, h.enough);
  }

  after_answer-Succeeds :
      (left attempt : ℕ) (tried us : List Text) (last : Option RpcError) (es : List EndpointState)
      (e : EndpointState)
      (rest : List Text
        → Option RpcError
        → List EndpointState
        → List EndpointState × Result RpcError RoutedOutcome)
      → Answers w c g
      → ThrowsRetryable w c
      → Hopeful (suc left) tried us es
      → has_url e.url us ≡ true
      → has_url e.url tried ≡ false
      → ((tried' : List Text) (last' : Option RpcError) (es' : List EndpointState)
          → Hopeful left tried' us es'
          → Succeeds (rest tried' last' es'))
      → Succeeds
          (after_answer w attempt (c ∷ []) tried last es e rest (w.send attempt e.url (c ∷ [])))
  unfolding after_answer learned_limit
  after_answer-Succeeds left attempt tried us last es e rest good graceful h there new next =
      elim (Bool-cases (text_eq e.url g)) [
        | inl itself ↦
            let (os, sent, fine) = good attempt in
            let same = (text_eq_iff e.url g).0 itself in
            let sent_e = ap (λ u. w.send attempt u (c ∷ [])) same ∙ sent in
            rw sent_e (after_answer-good attempt tried last es e rest os fine)
        | inr other ↦
            let hope = failed-Hopeful left attempt tried us es e h there new other in
            elim (Result-cases (w.send attempt e.url (c ∷ []))) [
              | inl (os, sent) ↦ elim (Option-cases (endpoint_problem os)) [
                | inl fine ↦ rw sent (after_answer-good attempt tried last es e rest os fine)
                | inr (first, bad) ↦ rw sent (rw (bad, after_answer) (next _ _ _ hope))
              ]
              | inr (re, thrown) ↦ rw (thrown, graceful attempt e.url re thrown) (next _ _ _ hope)
            ]
      ]

  any-fresh :
      (tried : List Text) (es : List EndpointState)
      → has_url g (urls es) ≡ true
      → has_url g tried ≡ false
      → any (λ e. text_eq e.url g && is_fresh tried e) es ≡ true
  any-fresh tried [] there new = cc
  any-fresh tried (e ∷ es) there new = elim (Bool-cases (text_eq e.url g)) [
    | inl itself ↦
        let same : g ≡ e.url = sym ((text_eq_iff e.url g).0 itself) in
        let untried : has_url e.url tried ≡ false = subst (λ u. has_url u tried ≡ false) same new in
        ground arith
    | inr other ↦
        let later : has_url g (urls es) ≡ true = ground arith in
        ground (arith, any-fresh tried es later new)
  ]

  try_one-Succeeds :
      (left attempt : ℕ) (tried us : List Text) (last : Option RpcError) (es : List EndpointState)
      (rest : List Text
        → Option RpcError
        → List EndpointState
        → List EndpointState × Result RpcError RoutedOutcome)
      (cs : List EndpointState)
      → Answers w c g
      → ThrowsRetryable w c
      → Hopeful (suc left) tried us es
      → ((p : EndpointState → Bool) → any p cs ≡ any p (usable ro.exclude es))
      → ((tried' : List Text) (last' : Option RpcError) (es' : List EndpointState)
          → Hopeful left tried' us es'
          → Succeeds (rest tried' last' es'))
      → any (λ e. text_eq e.url g && is_fresh tried e) cs ≡ true
      → Succeeds (try_one w attempt (c ∷ []) tried last es rest cs)
  unfolding try_one execute
  try_one-Succeeds left attempt tried us last es rest [] good graceful h sorted next some_fresh = cc
  try_one-Succeeds left attempt tried us last es rest (d ∷ ds) good graceful h sorted next
        some_fresh =
      let (f, picked, fresh_f, among) = pick-fresh g tried d ds some_fresh in
      let itself : text_eq f.url f.url ≡ true = (text_eq_iff f.url f.url).1 refl in
      let here = among (λ e. text_eq e.url f.url) itself in
      let listed = sym (sorted (λ e. text_eq e.url f.url)) ∙ here in
      let there =
        subst (λ us. has_url f.url us ≡ true) h.same
          (sym (any-urls (λ u. text_eq u f.url) (usable ro.exclude es)) ∙ listed) in
      let new : has_url f.url tried ≡ false = ground arith in
      rw (picked, try_one)
        (after_answer-Succeeds left attempt tried us last es f rest good graceful h there new next)

  candidates_for-whole :
      (attempt : ℕ) (es : List EndpointState)
      → ro.only ≡ none
      → candidates_for w opts ro attempt 1 es
        ≡ candidates (w.picked_at attempt) opts.lag_tolerance 1 ro.exclude es
  unfolding candidates_for candidates_among
  candidates_for-whole attempt es whole = ap (candidates_among w opts ro attempt 1 es) whole

  attempts-Succeeds :
      (left attempt : ℕ) (tried us : List Text) (last : Option RpcError) (es : List EndpointState)
      → ro.only ≡ none
      → Answers w c g
      → ThrowsRetryable w c
      → Hopeful left tried us es
      → Succeeds (attempts left attempt w opts ro (c ∷ []) tried last es)
  unfolding attempts candidates
  attempts-Succeeds zero attempt tried us last es whole good graceful h =
      absurd (omega (arith, fresh-lt g tried us h.usable_g h.untried, h.enough))
  attempts-Succeeds (suc left) attempt tried us last es whole good graceful h =
      let sorted = λ (p : EndpointState → Bool).
        any-sort_by p (score (w.picked_at attempt) (best_known_head es) opts.lag_tolerance 1)
          (usable ro.exclude es) in
      let fresh_one =
        sorted _
        ∙ any-fresh tried (usable ro.exclude es)
            (subst (λ us. has_url g us ≡ true) (sym h.same) h.usable_g) h.untried in
      subst
        (λ cs. Succeeds (
          try_one w attempt (c ∷ []) tried last es (attempts left (suc attempt) w opts ro (c ∷ []))
            cs))
        (sym (candidates_for-whole attempt es whole))
        (try_one-Succeeds left attempt tried us last es
          (attempts left (suc attempt) w opts ro (c ∷ [])) _ good graceful h sorted
          (λ tried' last' es' h'.
            attempts-Succeeds left (suc attempt) tried' us last' es' whole good graceful h')
          fresh_one)

  -- One good endpoint is enough: a call succeeds if one endpoint that is not disabled and not excluded
  -- answers it, whatever the state of the pool, if every throw of the others is one that may be tried
  -- again, the request is not pinned to an endpoint, and it has as many attempts as there are
  -- endpoints that are not disabled and not excluded.
  pub call-succeeds :
      (es : List EndpointState)
      → ro.only ≡ none
      → Answers w c g
      → ThrowsRetryable w c
      → any (λ e. text_eq e.url g) (usable ro.exclude es) ≡ true
      → length (usable ro.exclude es) ≤ attempts_of ro.max_attempts opts.max_attempts
      → (r : RoutedOutcome) × ((call w opts ro c es).1 ≡ ok r)
  unfolding call batch
  call-succeeds es whole good graceful there enough =
      attempts-Succeeds _ 0 [] (urls (usable ro.exclude es)) none es whole good graceful (record {
        same = refl;
        usable_g = sym (any-urls (λ u. text_eq u g) (usable ro.exclude es)) ∙ there;
        untried = refl;
        enough = omega (arith, fresh-length (usable ro.exclude es));
      })
