-- ===== src/Client/Transport/Seastar.antt =====
-- SeastarIO as a transport.
use distributed_logger.Base.{
  ℕ, ◌+◌, ◌≤◌, ◌<◌, ◌≡◌, refl, ap, inl, inr, Bool, true, false, ◌||◌, not, Option, none, some, List,
  [], ◌∷◌, ◌++◌, arith, Bool-cases, length, mod64, add64,
}
use distributed_logger.Client.SeastarBuffer.{
  SeastarBuffer, IsValid, get_capacity, get_read_offset, get_buffer,
}
use distributed_logger.Client.SeastarBuffer.Contract.{seastar_buffer}
use distributed_logger.Client.PosixIo.State.{Run, done, ◌>>=◌, or_fault}
use distributed_logger.Client.PosixIo.Pending.{Ends}
use distributed_logger.Client.SeastarIo.{
  SeastarIo, set_queue_max_size, send, transmit, is_full, with_length, connection_graceful_shutdown,
}
use distributed_logger.Client.SeastarIo.Connected.{transmit-SameStand}
use distributed_logger.Client.Transport.{Counters, Iio, Sends}

abbrev pub counters : SeastarIo → Counters
counters io = record {
  limit = io.queue_max_size;
  queue_size = io.queue_size;
  posted = io.log_posted_cnt;
  dropped = io.log_dropped_cnt;
  sent = io.log_sent_cnt;
}

pub limit_set :
    (n : ℕ) (io : SeastarIo) → Unit {0} × ((counters (set_queue_max_size n io)).limit ≡ n)
unfolding set_queue_max_size
limit_set n io = (tt, refl)

-- `send` always returns the null pointer.
abbrev pub send_buffer : List ℕ → SeastarBuffer → SeastarIo → Run (Option SeastarBuffer × SeastarIo)
send_buffer moved_from b io =
    or_fault (send (get_buffer moved_from b).0 io) >>= λ io'. done (none, io')

transmit-counters : (q : List (List ℕ)) (io : SeastarIo) → counters (transmit q io) ≡ counters io
unfolding transmit
transmit-counters [] io = refl
transmit-counters (b ∷ q) io = ground arith

-- It has a connection and is not shut down.
abbrev pub is_ready : SeastarIo → Bool
is_ready io = not (io.shutting_down || not io.connected)

module _ (buf : List ℕ) (io : SeastarIo) (h : 4 ≤ length buf)
    (small : io.queue_size + length buf < mod64) where
  -- The state behind the log.
  abbrev Sent : SeastarIo → Type 0
  Sent io' =
      (send buf io ≡ some io')
      × (is_ready io' ≡ is_ready io)
      × Sends (is_ready io) (length buf) (counters io) (counters io')

  abbrev pushed : SeastarIo
  pushed = record io {
    log_posted_cnt = add64 io.log_posted_cnt 1;
    queue_size = add64 io.queue_size (length buf);
    wqueue = io.wqueue ++ (with_length buf ∷ []);
  }

  posted :
      (io' : SeastarIo)
      → is_full buf io ≡ false
      → send buf io ≡ some io'
      → counters io' ≡ counters pushed
      → is_ready io' ≡ is_ready io
      → Sent io'
  posted io' room e same still = (
    e,
    still,
    (
      ap (λ (c : Counters). c.limit) same,
      inr (
          inl (
            ground (arith, room),
            ap (λ (c : Counters). c.posted) same,
            ap (λ (c : Counters). c.dropped) same,
            omega (arith, ap (λ (c : Counters). c.queue_size) same, small),
          )),
    ),
  )

  block_sent : (io' : SeastarIo) × Sent io'
  unfolding send
  block_sent = elim (Bool-cases (is_full buf io)) [
    | inl full ↦ (
      record io { log_dropped_cnt = add64 io.log_dropped_cnt 1 },
      (
        rw full refl,
        refl,
        (refl, inl (ground (arith, full), ground (arith, full, small), refl, refl, refl)),
      ),
    )
    | inr room ↦ elim (Bool-cases (io.shutting_down || not io.connected)) [
      | inl down ↦
          (io, (rw (room, down) refl, refl, (refl, inr (inr (ap not down, refl, refl, refl)))))
      | inr up ↦ elim (Bool-cases io.transmitting) [
        | inl busy ↦ (pushed, posted pushed room (ground (arith, room, up, busy, h)) refl refl)
        | inr idle ↦ (
          transmit pushed.wqueue pushed,
          posted (transmit pushed.wqueue pushed) room (ground (arith, room, up, idle, h))
              (transmit-counters pushed.wqueue pushed)
              (simp
                (
                  (transmit-SameStand pushed.wqueue pushed).connected,
                  (transmit-SameStand pushed.wqueue pushed).shutting_down,
                )
                refl),
        )
      ]
    ]
  ]

module _ (temporary_buffer : ℕ → List ℕ) (allocated : (n : ℕ) → length (temporary_buffer n) ≡ n)
    (moved_from : List ℕ) where
  pub seastar_send :
      (a : Unit {0}) (b : SeastarBuffer) (io : SeastarIo)
      → Unit {0}
      → IsValid b
      → get_read_offset b ≡ 0
      → 4 ≤ get_capacity b
      → get_capacity b < 2147483648
      → io.queue_size + get_capacity b < mod64
      → Unit {0}
      → Ends true
          (λ r.
            Unit {0}
            × (true ≡ true)
            × (is_ready r.1 ≡ is_ready io)
            × Sends (is_ready io) (get_capacity b) (counters io) (counters r.1))
          (send_buffer moved_from b io)
  unfolding get_capacity get_buffer
  seastar_send a b io g v unread room small fits ok =
      let (io', (e, y, s)) = block_sent b.buffer io room fits in rw e (tt, refl, y, s)

  abbrev pub seastar_io : Iio (seastar_buffer temporary_buffer allocated)
  seastar_io = record {
    State = SeastarIo;
    Answer = Unit {0};
    send = λ a. send_buffer moved_from;
    set_queue_max_size = set_queue_max_size;
    counters = counters;
    connection_graceful_shutdown = connection_graceful_shutdown;
    IsGood = λ io. Unit {0};
    plain = λ io. true;
    ready = is_ready;
    IsAllowed = λ n a. Unit {0};
    limit_set = λ n io g. limit_set n io;
    send_lem = seastar_send;
  }
