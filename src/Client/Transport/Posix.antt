-- ===== src/Client/Transport/Posix.antt =====
-- PosixIO as a transport.
use distributed_logger.Base.{
  ℕ, ◌+◌, ◌≤◌, ◌<◌, ◌≡◌, refl, ap, ◌⊎◌, inl, inr, true, Option, some, arith, mod64,
}
use distributed_logger.Client.PosixBuffer.{PosixBuffer, IsValid, get_capacity, get_read_offset}
use distributed_logger.Client.PosixBuffer.Contract.{posix_buffer}
use distributed_logger.Client.PosixIo.State.{
  PosixIo, Reply, Run, done, exits, fault, is_plain, minus_one, set_queue_max_size,
}
use distributed_logger.Client.PosixIo.Connection.{connection_graceful_shutdown}
use distributed_logger.Client.PosixIo.Send.{send}
use distributed_logger.Client.PosixIo.Pending.{IsGood, Ends}
use distributed_logger.Client.PosixIo.Accept
use distributed_logger.Client.PosixIo.Accept.{IsFresh, frame}
use distributed_logger.Client.PosixIo.History.{length-frame}
use distributed_logger.Client.Transport.{Counters, Iio, Sends}

abbrev pub counters : PosixIo → Counters
counters io = record {
  limit = io.queue_max_size;
  queue_size = io.queue_size;
  posted = io.log_posted_cnt;
  dropped = io.log_dropped_cnt;
  sent = io.log_sent_cnt;
}

-- What `write` may answer to a buffer of `size` bytes.
abbrev pub IsAllowed : ℕ → Reply → Type 0
IsAllowed size r = (r.ret ≤ size) ⊎ (r.ret ≡ minus_one)

pub limit_set :
    (n : ℕ) (io : PosixIo)
    → IsGood io
    → IsGood (set_queue_max_size n io) × ((counters (set_queue_max_size n io)).limit ≡ n)
unfolding set_queue_max_size
limit_set n io g =
    (record { pending = g.pending; counted = g.counted; in_range = g.in_range }, refl)

module _ (b : PosixBuffer) (io : PosixIo) (g : IsGood io) (f : IsFresh b) where
  ended :
      (o : Run (Option PosixBuffer × PosixIo))
      → Ends (is_plain io) (Accept.Sends b io) o
      → Ends
          (is_plain io)
          (λ r.
            IsGood r.1
            × (is_plain r.1 ≡ is_plain io)
            × (true ≡ true)
            × Sends true b.size (counters io) (counters r.1))
          o
  ended (done (back, io')) (inl (n0, over, same, eq)) = (
    rw eq (record { pending = g.pending; counted = g.counted; in_range = g.in_range }),
    ap is_plain eq,
    refl,
    (
      ap (λ (x : PosixIo). x.queue_max_size) eq,
      inl (
        n0,
        over,
        ap (λ (x : PosixIo). x.log_dropped_cnt) eq,
        ap (λ (x : PosixIo). x.log_posted_cnt) eq,
        ap (λ (x : PosixIo). x.queue_size) eq,
      ),
    ),
  )
  ended (done (back, io')) (inr (fits, same, t)) = (
    t.good,
    simp (t.cert, t.key),
    refl,
    (
      t.max_size,
      inr (inl (fits, t.posted, t.dropped, omega (arith, t.size_le, g.counted, length-frame b f))),
    ),
  )
  ended (exits n) h = h
  ended fault h = h

pub posix_send :
    (r : Reply) (b : PosixBuffer) (io : PosixIo)
    → IsGood io
    → IsValid b
    → get_read_offset b ≡ 0
    → 4 ≤ get_capacity b
    → get_capacity b < 2147483648
    → io.queue_size + get_capacity b < mod64
    → IsAllowed (get_capacity b) r
    → Ends
        (is_plain io)
        (λ x.
          IsGood x.1
          × (is_plain x.1 ≡ is_plain io)
          × (true ≡ true)
          × Sends true (get_capacity b) (counters io) (counters x.1))
        (send r b io)
unfolding get_capacity get_read_offset
posix_send r b io g v unread room small fits a =
    let f : IsFresh b = record {
      valid = v;
      unread = unread;
      room = room;
      below_2gb = omega (arith, small);
    } in
    ended b io g f (send r b io) (Accept.send_lem r b io g f fits (omega (arith, a, unread)))

abbrev pub posix_io : Iio posix_buffer
posix_io = record {
  State = PosixIo;
  Answer = Reply;
  send = send;
  set_queue_max_size = set_queue_max_size;
  counters = counters;
  connection_graceful_shutdown = λ io. some (connection_graceful_shutdown io);
  IsGood = IsGood;
  plain = is_plain;
  ready = λ io. true;
  IsAllowed = IsAllowed;
  limit_set = limit_set;
  send_lem = posix_send;
}
