-- ===== src/Server/System/Running.antt =====
-- Histories of a server in which no flush returns an error.
use distributed_logger.Base.{
  ℕ, zero, suc, ◌≡◌, refl, subst, Bool, true, false, some, List, arith, replicate, All, All-replace,
  ℤ, sym,
}
use distributed_logger.Server.Ingester.{Worker, start, step, packet, tick}
use distributed_logger.Server.Ingester.Pool.{Pool, init, enqueue}
use distributed_logger.Server.System.{Link, Reach, starts, accepts, hears, hands, receives, ticks}

abbrev pub NoneFails :
    {c : ℕ} {w b : ℤ} {links : List Link} {p : Pool} → Reach c w b links p → Type 0
NoneFails starts = Unit {0}
NoneFails (accepts past) = NoneFails past
NoneFails (hears before behind l r e on idle past) = NoneFails past
NoneFails (hands before behind l msg rest e first taken past) = NoneFails past
NoneFails (receives before behind w msg rest fails e on first past) =
    (fails ≡ false) × NoneFails past
NoneFails (ticks before behind w fails e on past) = (fails ≡ false) × NoneFails past

-- A worker that still takes packets.
abbrev pub Runs : Worker → Type 0
Runs w = w.running ≡ true

start-Runs : (n : ℕ) → All Runs (replicate n start)
unfolding start
start-Runs zero = tt
start-Runs (suc n) = (refl, start-Runs n)

enqueue-workers : (msg : List ℕ) (p p' : Pool) → enqueue msg p ≡ some p' → p'.workers ≡ p.workers
unfolding enqueue
enqueue-workers msg p p' e = ground (arith, e)

packet-Runs :
    (n : ℕ) (msg : List ℕ) (fails : Bool) (w : Worker) → Runs w → Runs (step n (packet msg fails) w)
unfolding step
packet-Runs n msg fails w h = ground (arith, h)

tick-Runs :
    (n : ℕ) (fails : Bool) (w : Worker) → fails ≡ false → Runs w → Runs (step n (tick fails) w)
unfolding step
tick-Runs n fails w e h = ground (arith, e, h)

-- Such a history leaves all workers running.
pub all-Runs :
    {c : ℕ} {w b : ℤ} {links : List Link} {p : Pool} (past : Reach c w b links p)
    → NoneFails past
    → All Runs p.workers
unfolding init
all-Runs starts h = start-Runs _
all-Runs (accepts past) h = all-Runs past h
all-Runs (hears before behind l r e on idle past) h = all-Runs past h
all-Runs (hands {p} {p'} before behind l msg rest e first taken past) h =
    subst (All Runs) (sym (enqueue-workers msg p p' taken)) (all-Runs past h)
all-Runs (receives {p} before behind w msg rest fails e on first past) h =
    All-replace Runs before behind w (step p.buffer_size (packet msg fails) w)
      (packet-Runs p.buffer_size msg fails w) (subst (All Runs) e (all-Runs past h.1))
all-Runs (ticks {p} before behind w fails e on past) h =
    All-replace Runs before behind w (step p.buffer_size (tick fails) w)
      (tick-Runs p.buffer_size fails w h.0) (subst (All Runs) e (all-Runs past h.1))
