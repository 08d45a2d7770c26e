-- ===== src/Examples/Simple.antt =====
-- examples/simple_logging/simple_logging.cc: threads that log for a time over blocking transports.
pub mod Accounts
pub mod Stats
pub mod Main
use distributed_logger.Base.{
  ℕ, zero, suc, ◌+◌, ◌-◌, ◌*◌, Bool, true, false, Option, none, some, List, [], ◌∷◌, map, ltb,
  sub64, ℤ, size_of,
}
use mathlib.Core.Option
use distributed_logger.Client.Logger.{to_size_t}
use distributed_logger.Client.PosixIo.State.{
  PosixIo, Reply, ConnectReply, Run, done, ◌>>=◌, set_queue_max_size,
}
use distributed_logger.Client.PosixIo.Connection.{make}
use distributed_logger.Examples.Params.{LoopParams, Options, Totals, queue_limit, clones}
use distributed_logger.Examples.Posix.Threads.{main_with}
use distributed_logger.Examples.Posix.{log_both, record_stats}

-- The text simple_logging.
abbrev pub host : List ℕ
host =
    b's' ∷ b'i' ∷ b'm' ∷ b'p' ∷ b'l' ∷ b'e' ∷ b'_' ∷ b'l' ∷ b'o' ∷ b'g' ∷ b'g' ∷ b'i' ∷ b'n' ∷ b'g'
    ∷ []

-- The test of the loop, at the `k`-th round: `clock 0` is the start, and each round before it asked for
-- the time twice.
abbrev pub goes_on : (ℕ → ℕ) → ℕ → ℕ → Bool
goes_on clock time_to_run k = ltb (sub64 (clock (1 + 2 * k)) (clock 0)) time_to_run

-- The loop from its `k`-th round on, with fuel; `none` where the fuel runs out.
unfoldable pub loop : ℕ → (ℕ → ℕ) → (ℕ → Reply) → LoopParams → ℕ → PosixIo → Run (Option PosixIo)
loop zero clock replies p k io = done none
loop (suc fuel) clock replies p k io = elim (goes_on clock p.time_to_run_sec k) [
  | true ↦
      log_both (replies (2 * k)) (replies (1 + 2 * k)) p.shard host (clock (2 + 2 * k)) io
      >>= loop fuel clock replies p (suc k)
  | false ↦ done (some io)
]

-- `run_loop`, with the answers of the system: the parameters with the statistics set.
unfoldable pub run_loop :
    ℕ → (ℕ → ℕ) → (ℕ → Reply) → ConnectReply → LoopParams → Run (Option LoopParams)
unfolding loop
run_loop fuel clock replies r p = do
  io ← make p.logserverhost p.logserverport p.certificate p.key p.trusted r
  ended ← loop fuel clock replies p 0 (set_queue_max_size (queue_limit p) io)
  done (Option.map (record_stats p) ended)

-- The parameters of the threads that `main` creates, on a machine with `online` processors.
unfoldable pub threads : ℤ → LoopParams → List LoopParams
threads online p = clones (size_of online - 1) 1 p

-- What the system answers to a thread: its clock, the writes of its logs and its attempt to connect. The
-- loop has `fuel`.
pub record Machine : Type 0 where
  pub fuel : ℕ
  pub clock : ℕ → ℕ
  pub replies : ℕ → Reply
  pub connection : ConnectReply

unfoldable pub run_on : (ℕ → Machine) → LoopParams → Run (Option LoopParams)
run_on env p = let m = env p.shard in run_loop m.fuel m.clock m.replies m.connection p

-- `main`, with what the system answers to the thread of each shard.
unfoldable pub main : ℤ → (ℕ → Machine) → Option Options → Run (Option (ℕ × Option Totals))
main online env o = main_with (threads online) (run_on env) o
