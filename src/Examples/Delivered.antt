-- ===== src/Examples/Delivered.antt =====
-- From the loops of the POSIX examples to the documents in the server's storage.
use distributed_logger.Base.{
  ℕ, zero, suc, ◌+◌, ◌*◌, ◌%◌, ◌≤◌, ◌<◌, ◌≡◌, sym, subst, true, false, Option, some, List, [], map,
  arith, length, All, mod32, mod64,
}
use mathlib.Core.List.{Sublistᴰ}
use distributed_logger.Client.PosixIo.State.{PosixIo, Reply, done, is_plain}
use distributed_logger.Client.PosixIo.Pending.{Ends}
use distributed_logger.Server.Decoder.{ok}
use distributed_logger.Server.Listener
use distributed_logger.Server.Listener.{Read}
use distributed_logger.Server.Listener.Refine.{AllFit, bytes_of}
use distributed_logger.Server.Storage.{decode_batch}
use distributed_logger.Server.Storage.Batch.{Log, payload_of, event_of}
use distributed_logger.EndToEnd.{wire_delivered}
use distributed_logger.Examples.Params.{LoopParams}
use distributed_logger.Examples.Posix.Logs.{logs_at}
use distributed_logger.Examples.Posix.Ran.{Ran, length-built}
use distributed_logger.Examples.Posix.Readable.{
  functions, IsRead, logs_at-IsRead, frames_hold, schemas_hold,
}
use distributed_logger.Examples.Posix.Unused.{IsUnused, unused-IsGood, unused-IsWithin}
use distributed_logger.Examples.Async
use distributed_logger.Examples.Async.{Round}
use distributed_logger.Examples.Async.Served.{RoundsServed, event_count, all_times}
use distributed_logger.Examples.Async.Stats
use distributed_logger.Examples.Async.Stats.{PassesTime}
use distributed_logger.Examples.Simple
use distributed_logger.Examples.Simple.{goes_on}
use distributed_logger.Examples.Simple.Accounts.{
  AllReplies, Ended, times_from, logs_from, loop-Ended,
}

-- From the bytes that these reads give, the server stores some of the logs that a client made, in their
-- order, and as many as the transport did not drop.
pub record Delivers (made : List Log) (rs : List Read) (io : PosixIo) : Type 0 where
  pub logs : List Log
  pub in_order : Sublistᴰ logs made
  pub counted : (length logs + io.log_dropped_cnt) % mod64 ≡ length made % mod64
  pub enqueued : (Listener.run rs Listener.initial).enqueued ≡ map payload_of logs
  pub goes_on : (Listener.run rs Listener.initial).goes_on ≡ true
  pub decoded :
      decode_batch functions (Listener.run rs Listener.initial).enqueued ≡ ok (map event_of logs)

sublist-All : {A : Type 0} (P : A → Type 0) {xs ys : List A} → Sublistᴰ xs ys → All P ys → All P xs
sublist-All P Sublistᴰ.slnil a = tt
sublist-All P (Sublistᴰ.cons h) a = sublist-All P h a.1
sublist-All P (Sublistᴰ.cons-cons e h) a = (subst P (sym e) a.0, sublist-All P h a.1)

-- Behind an unused transport that ends with an empty queue.
Ran-Delivers :
    (made : List Log) (rs : List Read) (io io' : PosixIo)
    → IsUnused io
    → Ran io made io'
    → All IsRead made
    → io'.queue ≡ []
    → AllFit rs Listener.initial
    → bytes_of rs ≡ io'.wire
    → Delivers made rs io'
Ran-Delivers made rs io io' u ran read q fit e =
    let read' = sublist-All IsRead ran.in_order read in
    let (got, on, stored) =
      wire_delivered functions ran.accepted ran.sent io io' rs (unused-IsGood io u)
        (unused-IsWithin io u) u.queue u.wire ran.past q ran.built (frames_hold ran.accepted read')
        (schemas_hold ran.accepted read') fit e in
    record {
      logs = ran.accepted;
      in_order = ran.in_order;
      counted = omega (arith, ran.counted, u.dropped, length-built ran.accepted ran.sent ran.built);
      enqueued = got;
      goes_on = on;
      decoded = stored;
    }

times_from-All :
    (clock : ℕ → ℕ) (k rounds : ℕ)
    → ((i : ℕ) → clock i < mod64)
    → All (λ t. t < mod64) (times_from clock k rounds)
times_from-All clock k zero h = tt
times_from-All clock k (suc rounds) h = (h (2 + 2 * k), times_from-All clock (suc k) rounds h)

-- Let the loop of a thread of the plain blocking client start with a transport that has sent nothing
-- and run as in `run_loop`, with the time to run over at its `n`-th round, fuel for it, a clock of 64
-- bits, and `write` accepting no more than it is offered, and let it end with an empty queue. However
-- the network cuts the bytes on the wire into reads without an error: the thread made at most `n` rounds
-- of logs, and the server hands those that the transport did not drop to the ingester, in their order,
-- with the connection still open, and decodes from a batch of them exactly the logs of these calls.
pub blocking_client-Delivers :
    (fuel n : ℕ) (clock : ℕ → ℕ) (replies : ℕ → Reply) (p : LoopParams) (rs : List Read)
    (io io' : PosixIo)
    → IsUnused io
    → n < fuel
    → goes_on clock p.time_to_run_sec n ≡ false
    → AllReplies replies
    → 128 * n < mod64
    → p.shard < mod32
    → ((i : ℕ) → clock i < mod64)
    → Simple.loop fuel clock replies p 0 io ≡ done (some io')
    → io'.queue ≡ []
    → AllFit rs Listener.initial
    → bytes_of rs ≡ io'.wire
    → (rounds : ℕ) × (rounds ≤ n) × Delivers (logs_from clock p 0 rounds) rs io'
blocking_client-Delivers fuel n clock replies p rs io io' u enough late a room shard times e q fit
      w =
    let run =
      loop-Ended fuel n clock replies p 0 io enough
        (subst (λ i. goes_on clock p.time_to_run_sec i ≡ false) zero_add late) a
        (unused-IsGood io u) (unused-IsWithin io u) (omega (arith, u.queue_size, room)) in
    let (rounds, few, turns, ran) = subst (Ends (is_plain io) (Ended clock p 0 n io)) e run in
    (
      rounds,
      few,
      Ran-Delivers (logs_from clock p 0 rounds) rs io io' u ran
          (logs_at-IsRead p.shard Simple.host (times_from clock 0 rounds) shard (omega arith)
            (times_from-All clock 0 rounds times))
          q fit w,
    )
  where
    zero_add : n ≡ 0 + n
    zero_add = omega arith

-- Let the loop of a thread of the plain epoll client start with a transport that has sent nothing, at
-- rounds of which some is behind the time to run, with times of 64 bits, and let `write` accept no more
-- than it is offered and not fail, and let it end with an empty queue. However the network cuts the
-- bytes on the wire into reads without an error: of the logs of some of the events, two of each, the
-- server hands those that the transport did not drop to the ingester, in their order, with the
-- connection still open, and decodes from a batch of them exactly the logs of these calls.
pub epoll_client-Delivers :
    (start : ℕ) (registered : Option ℕ) (rounds : List Round) (p : LoopParams) (rs : List Read)
    (io io' : PosixIo)
    → IsUnused io
    → PassesTime p start rounds
    → 128 * event_count rounds < mod64
    → RoundsServed p registered rounds io
    → p.shard < mod32
    → All (λ t. t < mod64) (all_times rounds)
    → Async.loop p start registered rounds io ≡ done (some io')
    → io'.queue ≡ []
    → AllFit rs Listener.initial
    → bytes_of rs ≡ io'.wire
    → (handled : List ℕ) × Sublistᴰ handled (all_times rounds)
      × Delivers (logs_at p.shard Async.host handled) rs io'
epoll_client-Delivers start registered rounds p rs io io' u t room served shard small e q fit w =
    let run =
      Stats.loop-Ended p start registered rounds io t (unused-IsGood io u) (unused-IsWithin io u)
        (omega (arith, u.queue_size, room)) served in
    let (handled, some_of, ran, exact) =
      subst
        (Ends (is_plain io)
          (Stats.Ended p registered (all_times rounds) (Stats.events_in_time p start rounds) io))
        e run in
    (
      handled,
      some_of,
      Ran-Delivers (logs_at p.shard Async.host handled) rs io io' u ran
          (logs_at-IsRead p.shard Async.host handled shard (omega arith)
            (sublist-All (λ t. t < mod64) some_of small))
          q fit w,
    )
