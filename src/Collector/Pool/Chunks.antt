-- ===== src/Collector/Pool/Chunks.antt =====
-- Splitting a batch changes no answer.
use arcagentx.Prelude.{
  ℕ, zero, suc, ◌≤◌, ◌<◌, ◌≡◌, refl, ap, inl, inr, ◌||◌, List, [], ◌∷◌, ◌++◌, map, Result, ok,
  arith, Bool-cases, leb, ◌==◌, length, take, drop, length-drop,
}
use arcagentx.Collector.Client.{RpcError, JsonRpcCall, RpcOutcome}
use arcagentx.Collector.Pool.{EndpointState}
use arcagentx.Collector.Pool.Batch.{World, run_chunks, execute}

map-take-drop :
    {A B : Type 0} (f : A → B) (n : ℕ) (xs : List A)
    → map f (take n xs) ++ map f (drop n xs) ≡ map f xs
map-take-drop f zero xs = refl
map-take-drop f (suc n) [] = refl
map-take-drop f (suc n) (x ∷ xs) = ap (λ ys. f x ∷ ys) (map-take-drop f n xs)

run_chunks-map :
    (fuel size : ℕ) (go : List JsonRpcCall → Result RpcError (List RpcOutcome))
    (f : JsonRpcCall → RpcOutcome) (calls : List JsonRpcCall)
    → ((cs : List JsonRpcCall) → go cs ≡ ok (map f cs))
    → 0 < size
    → length calls ≤ fuel
    → run_chunks fuel size go calls ≡ ok (map f calls)
unfolding run_chunks
run_chunks-map fuel size go f [] answers some_room enough = refl
run_chunks-map zero size go f (c ∷ cs) answers some_room enough = absurd (omega arith)
run_chunks-map (suc fuel) size go f (c ∷ cs) answers some_room enough =
    let rest =
      run_chunks-map fuel size go f (drop size (c ∷ cs)) answers some_room
        (omega (arith, length-drop size (c ∷ cs))) in
    rw (answers (take size (c ∷ cs)), rest) (ap ok (map-take-drop f size (c ∷ cs)))

-- If an endpoint answers each call by itself, whatever batch the call comes in, then its answer to a
-- batch is the answers to the calls, in order, whatever positive limit it has on its batches.
pub execute-map :
    (w : World) (attempt : ℕ) (e : EndpointState) (calls : List JsonRpcCall)
    (f : JsonRpcCall → RpcOutcome)
    → ((cs : List JsonRpcCall) → w.send attempt e.url cs ≡ ok (map f cs))
    → 0 < e.max_batch
    → execute w attempt e calls ≡ ok (map f calls)
unfolding execute
execute-map w attempt e calls f answers some_room =
    elim (Bool-cases (length calls == 1 || leb (length calls) e.max_batch)) [
      | inl whole ↦ rw whole (answers calls)
      | inr split ↦ rw split (
          run_chunks-map (length calls) e.max_batch (w.send attempt e.url) f calls answers some_room
            (omega arith))
    ]
