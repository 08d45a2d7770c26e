-- ===== src/Server/Ingester/Pool.antt =====
-- `Init` and `Enqueue` of server/ingester/ingester.go: the channel, and the workers that take from it.
-- Each goroutine's turn is a step; a step that the channel would block is not taken.
pub mod Conserved
pub mod Stopped
use distributed_logger.Base.{
  ℕ, ◌≡◌, Bool, true, Option, none, some, List, [], ◌∷◌, ◌++◌, ltb, if◌then◌else◌, length,
  replicate, ℤ, is_positive, size_of,
}
use distributed_logger.Server.Ingester.{Worker, start, step, packet, tick}

-- The channel, its capacity, which is `workersBufferSize` too, and the workers.
pub record Pool : Type 0 where
  pub channel : List (List ℕ)
  pub buffer_size : ℕ
  pub workers : List Worker

-- `Init`. `num_cpu` is what `runtime.NumCPU` answers; 1024 is the first value of `workersBufferSize`.
unfoldable pub init : ℕ → ℤ → ℤ → Pool
unfolding start
init num_cpu workers buffer_size = record {
  channel = [];
  buffer_size = if is_positive buffer_size then size_of buffer_size else 1024;
  workers = replicate (if is_positive workers then size_of workers else num_cpu) start;
}

-- `Enqueue`: `none` where the channel is full and the sender has to wait.
unfoldable pub enqueue : List ℕ → Pool → Option Pool
enqueue msg p =
    if ltb (length p.channel) p.buffer_size
    then some (record p { channel = p.channel ++ (msg ∷ []) })
    else none

-- A worker of the pool, between those before it and those behind it.
abbrev pub with_worker : List Worker → Worker → List Worker → Pool → Pool
with_worker before w behind p = record p { workers = before ++ (w ∷ behind) }

-- What the goroutines do, with the packets that `Enqueue` took. `fails` tells whether a flush made in
-- this round returns an error.
pub data Reach (p0 : Pool) : List (List ℕ) → Pool → Type 0 where
  here : Reach p0 [] p0
  enqueues :
      {taken : List (List ℕ)} {p p' : Pool} (msg : List ℕ)
      → enqueue msg p ≡ some p'
      → Reach p0 taken p
      → Reach p0 (taken ++ (msg ∷ [])) p'
  receives :
      {taken : List (List ℕ)} {p : Pool} (before behind : List Worker) (w : Worker) (msg : List ℕ)
      (rest : List (List ℕ)) (fails : Bool)
      → p.workers ≡ before ++ (w ∷ behind)
      → w.running ≡ true
      → p.channel ≡ msg ∷ rest
      → Reach p0 taken p
      → Reach p0 taken (
          with_worker before
            (step p.buffer_size (packet msg fails) w)
            behind
            (record p { channel = rest }))
  ticks :
      {taken : List (List ℕ)} {p : Pool} (before behind : List Worker) (w : Worker) (fails : Bool)
      → p.workers ≡ before ++ (w ∷ behind)
      → w.running ≡ true
      → Reach p0 taken p
      → Reach p0 taken (with_worker before (step p.buffer_size (tick fails) w) behind p)
