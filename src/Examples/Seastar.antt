-- ===== src/Examples/Seastar.antt =====
-- examples/seastar_app_logging/seastar_app_logging.cc: a client on each shard but the first. Other
-- tasks of a shard run only where its loop yields.
pub mod Spin
pub mod Tasks
pub mod Logged
pub mod Accounts
pub mod Collected
use distributed_logger.Base.{
  ℕ, zero, suc, ◌+◌, ◌%◌, ◌≡◌, Bool, true, false, ◌&&◌, not, Option, none, some, List, [], ◌∷◌, map,
  ltb, ◌==◌, if◌then◌else◌, ◌>>=◌, length, mod16, mod32, add64, sub64,
}
use mathlib.Core.Option
use distributed_logger.Client.Logger.{Arg, log_event, uint64, string}
use distributed_logger.Client.SeastarBuffer.{SeastarBuffer, get_buffer}
use distributed_logger.Client.SeastarBuffer.Contract.{seastar_buffer}
use distributed_logger.Client.PosixIo.State.{is_empty}
use distributed_logger.Client.SeastarIo
use distributed_logger.Client.SeastarIo.{SeastarIo}
use distributed_logger.Client.SeastarTlsIo
use distributed_logger.Client.SeastarTlsIo.{SeastarTlsIo}
use distributed_logger.Examples.Params.{LoopParams, or_keep, queue_limit}

-- The text MySeastarClientHost.
abbrev pub host : List ℕ
host =
    b'M' ∷ b'y' ∷ b'S' ∷ b'e' ∷ b'a' ∷ b's' ∷ b't' ∷ b'a' ∷ b'r' ∷ b'C' ∷ b'l' ∷ b'i' ∷ b'e' ∷ b'n'
    ∷ b't' ∷ b'H' ∷ b'o' ∷ b's' ∷ b't' ∷ []

-- The transport that a client makes: with credentials, or without.
pub data Transport : Type 0 where
  plain : SeastarIo → Transport
  tls : SeastarTlsIo → Transport

-- The head of `run_loop`: the transport with its limit set, and `connect` called.
unfoldable pub open_transport : LoopParams → Transport
open_transport p =
    if not (is_empty p.certificate) && not (is_empty p.key)
    then (let t = SeastarTlsIo.make p.certificate p.key p.trusted in
        tls (
          SeastarTlsIo.reconnect
            (record t { io = SeastarIo.set_queue_max_size (queue_limit p) t.io })))
    else plain (SeastarIo.reconnect (SeastarIo.set_queue_max_size (queue_limit p) SeastarIo.make))

-- One round of the loop: the times that it asks for, and what the other tasks of the shard make of the
-- transport where it yields.
pub record Round : Type 0 where
  pub time : ℕ
  pub now : ℕ
  pub others : SeastarIo → SeastarIo

-- What a shard's client returns.
pub record Result : Type 0 where
  pub shard : ℕ
  pub posted : ℕ
  pub dropped : ℕ
  pub sent : ℕ

unfoldable pub result_of : ℕ → SeastarIo → Result
result_of shard io = record {
  shard = shard;
  posted = io.log_posted_cnt;
  dropped = io.log_dropped_cnt;
  sent = io.log_sent_cnt;
}

-- The part that both transports have.
unfoldable pub io_of : Transport → SeastarIo
io_of (plain io) = io
io_of (tls t) = t.io

-- The loop that waits for a connection, with what the other tasks of the shard do in each sleep; `none`
-- where it still waits behind these.
unfoldable pub wait_connected : List (SeastarIo → SeastarIo) → SeastarIo → Option SeastarIo
wait_connected [] io = if io.connected then some io else none
wait_connected (sleep ∷ sleeps) io =
    let later = wait_connected sleeps (sleep io) in if io.connected then some io else later

-- What a shard's client meets: the sleeps, the start of its clock, the rounds, and what the other tasks
-- do until `_tx_finished` is ready and while the streams are closed.
pub record Machine : Type 0 where
  pub sleeps : List (SeastarIo → SeastarIo)
  pub start : ℕ
  pub rounds : List Round
  pub until_finished : SeastarIo → SeastarIo
  pub closing : SeastarIo → SeastarIo

-- The wait for `disconnect`, which is over at once where there is no connection.
unfoldable pub finish : Machine → SeastarIo → SeastarIo
finish m io =
    let io' = SeastarIo.disconnect m.until_finished io in
    if io.connected then m.closing io' else io'

module _ (temporary_buffer : ℕ → List ℕ) (allocated : (n : ℕ) → length (temporary_buffer n) ≡ n)
    (moved_from : List ℕ) where
  -- A generated function, over SeastarBuffer and SeastarIO.
  unfoldable pub post_event : ℕ → List Arg → SeastarIo → Option SeastarIo
  post_event event args io = do
    buffer ← log_event (seastar_buffer temporary_buffer allocated) event args
    SeastarIo.send (get_buffer moved_from buffer).0 io

  -- The two calls of a round.
  unfoldable pub log_both : ℕ → ℕ → SeastarIo → Option SeastarIo
  unfolding post_event
  log_both shard now io = do
    io' ← post_event 0 (uint64 shard ∷ string host ∷ []) io
    post_event 1 (uint64 shard ∷ string host ∷ uint64 now ∷ []) io'

  -- The loop over the rounds, to its end by its test or to the end of the rounds, with the state that
  -- it leaves and whether it ended. A round without a connection does not yield.
  unfoldable pub loop : LoopParams → ℕ → ℕ → List Round → SeastarIo → Option (Bool × SeastarIo)
  loop p shard start [] io = some (false, io)
  loop p shard start (r ∷ rounds) io = elim (ltb (sub64 r.time start) p.time_to_run_sec) [
    | false ↦ some (true, io)
    | true ↦ elim io.connected [
      | false ↦ loop p shard start rounds io
      | true ↦ log_both shard r.now io >>= λ io'. loop p shard start rounds (r.others io')
    ]
  ]

  -- `run_loop`; the inner `none` where it waits for a connection, or loops, behind what the machine has.
  unfoldable pub run_loop : LoopParams → ℕ → Machine → Option (Option Result)
  run_loop p shard m = elim (wait_connected m.sleeps (io_of (open_transport p))) [
    | none ↦ some none
    | some io ↦ loop p shard m.start m.rounds io >>= λ r.
        some (if r.0 then some (result_of shard (finish m r.1)) else none)
  ]

-- `collect_results`: the results of the shards from `shard` on, without the current one, in order.
unfoldable pub collect : (ℕ → Result) → ℕ → ℕ → ℕ → List Result
collect run current shard zero = []
collect run current shard (suc count) =
    let rest = collect run current (shard + 1) count in
    if shard == current then rest else run shard ∷ rest

-- The loop over the results in `main`, from the totals so far.
unfoldable pub totals_from : List Result → ℕ × ℕ × ℕ → ℕ × ℕ × ℕ
totals_from [] t = t
totals_from (r ∷ results) (posted, dropped, sent) =
    totals_from results (add64 posted r.posted, add64 dropped r.dropped, add64 sent r.sent)

-- The options of `main`, with the library's default values filled in.
pub record Options : Type 0 where
  pub time : Option ℕ
  pub host_name : Option (List ℕ)
  pub port : Option ℕ
  pub certificate : Option (List ℕ)
  pub key : Option (List ℕ)
  pub trusted : Option (List ℕ)
  pub size : Option ℕ

-- The assignments of `main`: the port is an `int` put into 16 bits, the size a `size_t` put into an `int`.
unfoldable pub set_options : Options → LoopParams → LoopParams
set_options o p = record p {
  time_to_run_sec = or_keep o.time p.time_to_run_sec;
  logserverhost = or_keep o.host_name p.logserverhost;
  logserverport = or_keep (Option.map (λ n. n % mod16) o.port) p.logserverport;
  certificate = or_keep o.certificate p.certificate;
  key = or_keep o.key p.key;
  trusted = or_keep o.trusted p.trusted;
  queuesize = or_keep (Option.map (λ n. n % mod32) o.size) p.queuesize;
}
