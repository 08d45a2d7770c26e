-- ===== src/Examples/Posix.antt =====
-- What the POSIX examples share: the functions that are generated of examples/example_header.hh, over
-- PosixBuffer and PosixIO.
pub mod Logs
pub mod Ran
pub mod Socket
pub mod Readable
pub mod Threads
pub mod Unused
pub mod Balance
use distributed_logger.Base.{ℕ, List, [], ◌∷◌}
use distributed_logger.Client.PosixBuffer.{PosixBuffer}
use distributed_logger.Client.PosixBuffer.Contract.{posix_buffer}
use distributed_logger.Client.Logger.{Arg, uint64, string, log_event, to_size_t}
use distributed_logger.Client.PosixIo.State.{PosixIo, Reply, Run, done, ◌>>=◌, or_fault}
use distributed_logger.Client.PosixIo.Send.{send}
use distributed_logger.Examples.Params.{LoopParams, set_stats}

-- A generated function, with the `send` at its end. What `send` returns is dropped.
unfoldable pub post_event : Reply → ℕ → List Arg → PosixIo → Run PosixIo
post_event r event args io = do
  buffer ← or_fault (log_event posix_buffer event args)
  (back, io') ← send r buffer io
  done io'

-- The arguments of `LogEvent_event0` and `LogEvent_event1`; the shard is converted from an `int`.
abbrev pub event0_args : ℕ → List ℕ → List Arg
event0_args shard host = uint64 (to_size_t shard) ∷ string host ∷ []

abbrev pub event1_args : ℕ → List ℕ → ℕ → List Arg
event1_args shard host now = uint64 (to_size_t shard) ∷ string host ∷ uint64 now ∷ []

-- The two calls that each round of an example makes.
unfoldable pub log_both : Reply → Reply → ℕ → List ℕ → ℕ → PosixIo → Run PosixIo
log_both r0 r1 shard host now io = do
  io' ← post_event r0 0 (event0_args shard host) io
  post_event r1 1 (event1_args shard host now) io'

-- The end of a thread: its statistics.
abbrev pub record_stats : LoopParams → PosixIo → LoopParams
record_stats p io = set_stats io.log_posted_cnt io.log_dropped_cnt io.log_sent_cnt p
