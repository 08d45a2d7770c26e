-- ===== src/Examples/Limits.antt =====
-- The queue limit and the number of threads that the options ask for.
use distributed_logger.Base.{
  ℕ, zero, suc, ◌+◌, ◌-◌, ◌%◌, ◌^◌, ◌≤◌, ◌<◌, ◌≡◌, refl, ◌∙◌, ◌↔◌, ◌⊎◌, inl, inr, false, some,
  arith, ltb, Bool-cases, length, mod32, mod64, pos,
}
use distributed_logger.Client.Logger.{to_size_t}
use distributed_logger.Examples.Params.{
  LoopParams, Options, clone, clones, get_common_options, queue_limit,
}
use distributed_logger.Examples.Simple
use distributed_logger.Examples.Async

-- `--size` goes through an `int` on its way to the transport: the limit that a thread sets is the one
-- asked for exactly if that is below 2 GB, or among the last 2 ^ 31 values of 64 bits; and a multiple of
-- 4 GB sets no limit at all.
pub size_option :
    (o : Options) (p : LoopParams) (n : ℕ)
    → o.help ≡ false
    → o.size ≡ some n
    → n < mod64
    → let p' = (get_common_options (some o) p).1 in
      ((queue_limit (clone p') ≡ n) ↔ ((n < 2 ^ 31) ⊎ (mod64 ≤ n + 2 ^ 31)))
      × ((queue_limit (clone p') ≡ 0) ↔ (n % 2 ^ 32 ≡ 0))
unfolding get_common_options clone
size_option o p n no_help e h = elim (Bool-cases (ltb (n % mod32) (2 ^ 31))) [
  | inl low ↦
      let is : limit ≡ n % mod32 = ground (arith, value) in
      let below : n % mod32 < 2 ^ 31 = ground arith in
      (
        ((λ k. exact_low is below k), λ k. omega (arith, is, below, k)),
        ((λ k. omega (arith, is, k)), λ k. omega (arith, is, k)),
      )
  | inr high ↦
      let is : limit ≡ n % mod32 + (mod64 - mod32) = ground (arith, value) in
      let above : 2 ^ 31 ≤ n % mod32 = ground arith in
      (
        ((λ k. inr (omega (arith, is, above, k))), λ k. omega (arith, is, above, k)),
        ((λ k. absurd (omega (arith, is, above, k))), λ k. absurd (omega (arith, above, k))),
      )
]
  where
    limit : ℕ
    limit = queue_limit (clone (get_common_options (some o) p).1)

    value : limit ≡ to_size_t (n % mod32)
    value = ground (arith, no_help, e)

    exact_low :
        limit ≡ n % mod32 → n % mod32 < 2 ^ 31 → limit ≡ n → (n < 2 ^ 31) ⊎ (mod64 ≤ n + 2 ^ 31)
    exact_low is below k = inl (omega (arith, is, below, k))

length-clones : (n first : ℕ) (p : LoopParams) → length (clones n first p) ≡ n
unfolding clones
length-clones zero first p = refl
length-clones (suc n) first p = omega (arith, length-clones n (first + 1) p)

-- With `--cores` set, the epoll client runs that many threads; the blocking client passes the option
-- over, and runs one thread fewer than there are processors, so none on a machine with one.
thread_counts :
    (cores online : ℕ) (p : LoopParams)
    → p.cores ≡ pos cores
    → 0 < cores
    → (length (Async.threads (pos online) p) ≡ cores)
      × (length (Simple.threads (pos online) p) ≡ online - 1)
unfolding Async.threads Simple.threads
thread_counts cores online p e h =
    (length-clones _ 1 p ∙ ground (arith, e), length-clones (online - 1) 1 p)
