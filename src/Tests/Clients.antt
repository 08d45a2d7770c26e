-- ===== src/Tests/Clients.antt =====
-- A round of each POSIX example, from its loop to the server's storage.
use distributed_logger.Base.{
  ℕ, ◌≤◌, ◌<◌, ◌≡◌, refl, inl, inr, true, false, some, List, [], ◌∷◌, ◌++◌, subst, arith, take,
  drop, mod64, if◌then◌else◌, ◌==◌, be_bytes, from_be_acc,
}
use mathlib.Core.List.{Sublistᴰ}
use distributed_logger.Client.PosixBuffer.{
  PosixBuffer, write_data, set_write_offset, make, store_front, set_read_offset, get_read_offset,
  get_write_offset, get_data, get_capacity,
}
use distributed_logger.Client.Logger.{log_event, total_length, encode_all, encode_uint64}
use distributed_logger.Client.PosixIo.State.{PosixIo, Reply, done, get_fd}
use distributed_logger.Client.PosixIo.Send.{send, write_now, os_write}
use distributed_logger.Client.PosixIo.Drain.{on_write_opportunity, drain, write_front, check_front}
use distributed_logger.Client.PosixIo.Flush.{AllTaken}
use distributed_logger.Server.Listener
use distributed_logger.Server.Listener.{Read, step}
use distributed_logger.Server.Listener.Refine.{AllFit}
use distributed_logger.Server.Listener.Frames.{frame_of}
use distributed_logger.Server.Storage.Batch.{payload_of}
use distributed_logger.Examples.Params
use distributed_logger.Examples.Params.{LoopParams}
use distributed_logger.Examples.Posix.{post_event, log_both}
use distributed_logger.Examples.Posix.Logs.{event0_log, event1_log, logs_at}
use distributed_logger.Examples.Posix.Unused.{IsUnused}
use distributed_logger.Examples.Async
use distributed_logger.Examples.Async.Served.{IsServed}
use distributed_logger.Examples.Simple
use distributed_logger.Examples.Simple.Accounts.{AllReplies, logs_from}
use distributed_logger.Examples.Delivered.{
  Delivers, blocking_client-Delivers, epoll_client-Delivers,
}
use distributed_logger.Tests.Data.{idle, answers}

abbrev params : LoopParams
unfolding Params.make
params = record Params.make { time_to_run_sec = 2 }

-- A clock that passes the two seconds in the first round.
abbrev ticks : ℕ → ℕ
ticks i = if i == 1 then 1 else if i == 0 then 0 else 9

abbrev replies : ℕ → Reply
replies i = answers (if i == 1 then 44 else 36)

replies-AllReplies : AllReplies replies
replies-AllReplies k = (inl (ground arith), inl (ground arith))

ticks-bounded : (i : ℕ) → ticks i < mod64
ticks-bounded i = ground arith

idle-IsUnused : IsUnused idle
idle-IsUnused = record {
  queue = refl;
  queue_size = refl;
  wire = refl;
  posted = refl;
  dropped = refl;
  sent = refl;
  plain = refl;
}

abbrev body0 : List ℕ
unfolding Params.make
body0 = payload_of (event0_log 0 Simple.host)

abbrev body1 : List ℕ
body1 = payload_of (event1_log 0 Simple.host 9)

abbrev ended : PosixIo
ended = record idle {
  wire = (0 ∷ 0 ∷ 0 ∷ 32 ∷ []) ++ (body0 ++ ((0 ∷ 0 ∷ 0 ∷ 40 ∷ []) ++ body1));
  log_posted_cnt = 2;
  log_sent_cnt = 2;
}

one_round : Simple.loop 2 ticks replies params 0 idle ≡ done (some ended)
unfolding Params.make Simple.loop log_both post_event log_event encode_uint64 write_data
    set_write_offset make total_length be_bytes encode_all send store_front write_now
    set_read_offset
one_round = refl

-- A packet in two reads, behind its length.
abbrev packet_reads : ℕ → List ℕ → List Read
packet_reads size body =
    record { bytes = 0 ∷ 0 ∷ 0 ∷ size ∷ []; failed = false }
    ∷ record { bytes = take 20 body; failed = false }
    ∷ record { bytes = drop 20 body; failed = false }
    ∷ []

abbrev reads : List Read
reads = packet_reads 32 body0 ++ packet_reads 40 body1

reads-AllFit : AllFit reads Listener.initial
unfolding Params.make Listener.initial step be_bytes from_be_acc
reads-AllFit = (
  refl,
  omega arith,
  (
    refl,
    omega arith,
    (refl, omega arith, (refl, omega arith, (refl, omega arith, (refl, omega arith, tt)))),
  ),
)

blocking_client-Delivers_example :
    (rounds : ℕ) × (rounds ≤ 1) × Delivers (logs_from ticks params 0 rounds) reads ended
unfolding Params.make be_bytes
blocking_client-Delivers_example =
    blocking_client-Delivers 2 1 ticks replies params reads idle ended idle-IsUnused (omega arith)
      refl replies-AllReplies (omega arith) (omega arith) ticks-bounded one_round refl reads-AllFit
      refl

-- A transport of the epoll client, and one event whose writes take both logs.
abbrev asynchronous : PosixIo
asynchronous = record idle { async_mode = true; nonblocking = true }

asynchronous-IsUnused : IsUnused asynchronous
asynchronous-IsUnused = record {
  queue = refl;
  queue_size = refl;
  wire = refl;
  posted = refl;
  dropped = refl;
  sent = refl;
  plain = refl;
}

abbrev event : Async.Event
event = record {
  now = 1;
  first = answers 0;
  second = answers 0;
  writes = λ i. answers (if i == 0 then 35 else 43);
}

abbrev rounds : List Async.Round
rounds = record { time = 1; events = event ∷ [] } ∷ record { time = 9; events = [] } ∷ []

abbrev packet0 : List ℕ
packet0 = payload_of (event0_log 0 Async.host)

abbrev packet1 : List ℕ
packet1 = payload_of (event1_log 0 Async.host 1)

abbrev queued : List ℕ → ℕ → PosixBuffer
queued packet size = record {
  buffer = frame_of packet;
  size = size;
  read_offset = 0;
  write_offset = size;
}

abbrev logged : PosixIo
logged = record asynchronous {
  queue = queued packet0 35 ∷ queued packet1 43 ∷ [];
  queue_size = 78;
  log_posted_cnt = 2;
}

logs_event : log_both (answers 0) (answers 0) 0 Async.host 1 asynchronous ≡ done logged
unfolding log_both post_event log_event encode_uint64 write_data set_write_offset make total_length
    be_bytes encode_all send store_front
logs_event = refl

abbrev served : PosixIo
served = record asynchronous {
  wire = frame_of packet0 ++ frame_of packet1;
  log_posted_cnt = 2;
  log_sent_cnt = 2;
}

epoll_round : Async.loop params 0 (some 5) rounds asynchronous ≡ done (some served)
unfolding Params.make Async.loop Async.on_events Async.on_event log_both post_event log_event
    encode_uint64 write_data set_write_offset make total_length be_bytes encode_all send store_front
    get_fd on_write_opportunity drain write_front check_front os_write set_read_offset
    get_read_offset get_write_offset get_data get_capacity
epoll_round = refl

event-IsServed : IsServed params event asynchronous
unfolding Params.make
event-IsServed = record {
  first = inl (omega arith);
  second = inl (omega arith);
  writes = λ io' e. taken io' (cc (e, logs_event));
}
  where
    taken : (io' : PosixIo) → logged ≡ io' → AllTaken io'.queue 0 event.writes
    taken io' same =
        subst (λ (io : PosixIo). AllTaken io.queue 0 event.writes) same
          (omega arith, (omega arith, tt))

abbrev epoll_reads : List Read
epoll_reads = packet_reads 31 packet0 ++ packet_reads 39 packet1

epoll_reads-AllFit : AllFit epoll_reads Listener.initial
unfolding Listener.initial step be_bytes from_be_acc
epoll_reads-AllFit = (
  refl,
  omega arith,
  (
    refl,
    omega arith,
    (refl, omega arith, (refl, omega arith, (refl, omega arith, (refl, omega arith, tt)))),
  ),
)

epoll_client-Delivers_example :
    (handled : List ℕ) × Sublistᴰ handled (1 ∷ [])
    × Delivers (logs_at 0 Async.host handled) epoll_reads served
unfolding Params.make be_bytes
epoll_client-Delivers_example =
    epoll_client-Delivers 0 (some 5) rounds params epoll_reads asynchronous served
      asynchronous-IsUnused (inr (inl refl)) (omega arith)
      ((event-IsServed, λ io' e. tt), λ io' e. (tt, λ io'' e'. tt)) (omega arith) (omega arith, tt)
      epoll_round refl epoll_reads-AllFit refl
