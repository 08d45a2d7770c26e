-- ===== src/Examples/Seastar/Collected.antt =====
-- The totals of the Seastar client over its shards.
use distributed_logger.Base.{
  ℕ, zero, suc, ◌+◌, ◌%◌, ◌≤◌, ◌<◌, ◌≡◌, refl, ap, ◌∙◌, ◌≢◌, inl, inr, List, [], ◌∷◌, arith, ◌==◌,
  ==_iff, Bool-cases, mod64, add64,
}
use distributed_logger.Examples.Seastar.{Result, collect, totals_from}

abbrev pub sum_of : (Result → ℕ) → List Result → ℕ
sum_of f [] = 0
sum_of f (r ∷ results) = f r + sum_of f results

-- The sum over `count` shards from `shard` on.
abbrev pub sum_shards : (ℕ → ℕ) → ℕ → ℕ → ℕ
sum_shards f shard zero = 0
sum_shards f shard (suc count) = f shard + sum_shards f (shard + 1) count

module _ (run : ℕ → Result) (current : ℕ) (f : Result → ℕ) where
  sum-collect_above :
      (shard count : ℕ)
      → current < shard
      → sum_of f (collect run current shard count) ≡ sum_shards (λ s. f (run s)) shard count
  unfolding collect
  sum-collect_above shard zero h = refl
  sum-collect_above shard (suc count) h =
      ground (arith, sum-collect_above (shard + 1) count (omega (arith, h)))

  sum-collect :
      (shard count : ℕ)
      → shard ≤ current
      → current < shard + count
      → sum_of f (collect run current shard count) + f (run current)
        ≡ sum_shards (λ s. f (run s)) shard count
  unfolding collect
  sum-collect shard zero h k = absurd (omega arith)
  sum-collect shard (suc count) h k = elim (Bool-cases (shard == current)) [
    | inl here ↦
        let same : shard ≡ current = (==_iff shard current).0 here in
        rw here (
          omega (
            arith,
            sum-collect_above (shard + 1) count (omega (arith, same)),
            ap (λ s. f (run s)) same,
          ))
    | inr later ↦
        let different : shard ≢ current = λ e. cc ((==_iff shard current).1 e, later) in
        rw later (
          omega
            (arith, sum-collect (shard + 1) count (omega (arith, different, h)) (omega (arith, k))))
  ]

totals_from_lem :
    (results : List Result) (posted dropped sent : ℕ)
    → posted < mod64
    → dropped < mod64
    → sent < mod64
    → totals_from results (posted, dropped, sent) ≡ (
      (posted + sum_of (λ r. r.posted) results) % mod64,
      (dropped + sum_of (λ r. r.dropped) results) % mod64,
      (sent + sum_of (λ r. r.sent) results) % mod64,
    )
unfolding totals_from
totals_from_lem [] posted dropped sent h0 h1 h2 = ground arith
totals_from_lem (r ∷ results) posted dropped sent h0 h1 h2 =
    let e =
      totals_from_lem results (add64 posted r.posted) (add64 dropped r.dropped) (add64 sent r.sent)
        (omega arith) (omega arith) (omega arith) in
    e ∙ ground arith

-- The totals that `main` prints are the sums over all shards but the current one, each once: with the
-- results that the current shard would have, they are the sums over all shards.
totals_collect :
    (run : ℕ → Result) (current count : ℕ)
    → current < count
    → let t = totals_from (collect run current 0 count) (0, 0, 0) in
      ((t.0 + (run current).posted) % mod64 ≡ sum_shards (λ s. (run s).posted) 0 count % mod64)
      × ((t.1 + (run current).dropped) % mod64 ≡ sum_shards (λ s. (run s).dropped) 0 count % mod64)
      × ((t.2 + (run current).sent) % mod64 ≡ sum_shards (λ s. (run s).sent) 0 count % mod64)
totals_collect run current count h =
    let e =
      totals_from_lem (collect run current 0 count) 0 0 0 (omega arith) (omega arith)
        (omega arith) in
    let at =
      λ (f : Result → ℕ). sum-collect run current f 0 count (omega arith) (omega (arith, h)) in
    (
      omega (arith, ap (λ (t : ℕ × ℕ × ℕ). t.0) e, at (λ r. r.posted)),
      omega (arith, ap (λ (t : ℕ × ℕ × ℕ). t.1) e, at (λ r. r.dropped)),
      omega (arith, ap (λ (t : ℕ × ℕ × ℕ). t.2) e, at (λ r. r.sent)),
    )
