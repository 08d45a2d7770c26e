-- ===== src/Examples/Async.antt =====
-- examples/async_logging/async_logging.cc: threads that log whenever epoll reports their socket.
pub mod Served
pub mod Stats
pub mod Main
use distributed_logger.Base.{
  ℕ, Bool, true, false, Option, none, some, List, [], ◌∷◌, map, ltb, ◌==◌, if◌then◌else◌, sub64, ℤ,
  size_of, is_zero,
}
use mathlib.Core.Option
use distributed_logger.Client.PosixIo.State.{
  PosixIo, Reply, ConnectReply, Run, done, ◌>>=◌, set_queue_max_size, get_fd,
}
use distributed_logger.Client.PosixIo.Connection.{
  make, set_async_mode, connection_graceful_shutdown,
}
use distributed_logger.Client.PosixIo.Drain.{on_write_opportunity}
use distributed_logger.Examples.Params.{LoopParams, Options, Totals, queue_limit, clones}
use distributed_logger.Examples.Posix.Threads.{main_with}
use distributed_logger.Examples.Posix.{log_both, record_stats}

-- The text async_logging.
abbrev pub host : List ℕ
host = b'a' ∷ b's' ∷ b'y' ∷ b'n' ∷ b'c' ∷ b'_' ∷ b'l' ∷ b'o' ∷ b'g' ∷ b'g' ∷ b'i' ∷ b'n' ∷ b'g' ∷ []

-- One event that `epoll_wait` reports: the time that the code asks for, and what the system answers to
-- the calls of `send` and to the writes of `onWriteOpportunity`.
pub record Event : Type 0 where
  pub now : ℕ
  pub first : Reply
  pub second : Reply
  pub writes : ℕ → Reply

-- One round of the loop: the time at its test, and the events.
pub record Round : Type 0 where
  pub time : ℕ
  pub events : List Event

-- `events[n].data.fd == eventPosix->getFd()`; -1 is `none`.
abbrev pub same_fd : Option ℕ → Option ℕ → Bool
same_fd none none = true
same_fd none (some m) = false
same_fd (some n) none = false
same_fd (some n) (some m) = n == m

-- The body of the loop over the events. `registered` is the descriptor given to `epoll_ctl`.
unfoldable pub on_event : LoopParams → Option ℕ → Event → PosixIo → Run PosixIo
on_event p registered e io =
    if same_fd registered (get_fd io)
    then log_both e.first e.second p.shard host e.now io >>= on_write_opportunity e.writes
    else done io

unfoldable pub on_events : LoopParams → Option ℕ → List Event → PosixIo → Run PosixIo
on_events p registered [] io = done io
on_events p registered (e ∷ events) io = do
  io' ← on_event p registered e io
  on_events p registered events io'

-- The loop over the rounds; `none` where there are no more of them.
unfoldable pub loop : LoopParams → ℕ → Option ℕ → List Round → PosixIo → Run (Option PosixIo)
loop p start registered [] io = done none
loop p start registered (r ∷ rounds) io = elim (ltb (sub64 r.time start) p.time_to_run_sec) [
  | true ↦ on_events p registered r.events io >>= loop p start registered rounds
  | false ↦ done (some io)
]

-- `run_loop`. `added` tells whether `epoll_ctl` succeeds; where it fails, the thread returns at once.
unfoldable pub run_loop :
    ℕ → List Round → ConnectReply → ConnectReply → Bool → LoopParams → Run (Option LoopParams)
run_loop start rounds r flags added p = do
  io ← make p.logserverhost p.logserverport p.certificate p.key p.trusted r
  let io' = set_async_mode true flags (set_queue_max_size (queue_limit p) io)
  if added
      then (do
        ended ← loop p start (get_fd io') rounds io'
        done (Option.map (λ last. record_stats p (connection_graceful_shutdown last)) ended))
      else done (some p)

-- The number of threads of `main`, and their parameters.
abbrev pub thread_count : ℤ → LoopParams → ℕ
thread_count online p = size_of (if is_zero p.cores then online else p.cores)

unfoldable pub threads : ℤ → LoopParams → List LoopParams
threads online p = clones (thread_count online p) 1 p

-- What the system answers to a thread: the start of its clock, what each `epoll_wait` reports, its
-- attempts to connect and to change the mode, and whether `epoll_ctl` succeeds.
pub record Machine : Type 0 where
  pub start : ℕ
  pub rounds : List Round
  pub connection : ConnectReply
  pub flags : ConnectReply
  pub added : Bool

unfoldable pub run_on : (ℕ → Machine) → LoopParams → Run (Option LoopParams)
run_on env p = let m = env p.shard in run_loop m.start m.rounds m.connection m.flags m.added p

-- `main`, with what the system answers to the thread of each shard.
unfoldable pub main : ℤ → (ℕ → Machine) → Option Options → Run (Option (ℕ × Option Totals))
main online env o = main_with (threads online) (run_on env) o
