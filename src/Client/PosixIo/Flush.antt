-- ===== src/Client/PosixIo/Flush.antt =====
-- `onWriteOpportunity` with answers that accept some, all or none of the bytes offered.
use distributed_logger.Base.{
  ℕ, suc, ◌+◌, ◌-◌, ◌%◌, ◌≤◌, ◌<◌, ◌≡◌, refl, sym, ap, ◌∙◌, subst, inl, inr, true, false, List, [],
  ◌∷◌, ◌++◌, append-nil, append_assoc, arith, ◌==◌, if◌then◌else◌, ==_iff, Bool-cases, length, take,
  All, length-drop, take_all, mod64, add64,
}
use distributed_logger.Client.PosixBuffer.{PosixBuffer, set_read_offset}
use distributed_logger.Client.PosixIo.State.{PosixIo, Reply, done}
use distributed_logger.Client.PosixIo.Drain.{write_front, drain, on_write_opportunity}
use distributed_logger.Client.PosixIo.Pending.{
  IsPending, IsGood, IsTaken, stream, rest_of, unsent_bytes, unsent_size, os_write_lem, advance,
  rest_of-advance, advance-IsPending,
}

-- What a step makes of a state that only moves bytes from the queue to the wire.
pub record Moved (io io' : PosixIo) : Type 0 where
  pub good : IsGood io'
  pub same_stream : stream io' ≡ stream io
  pub same_logs :
      add64 io'.log_sent_cnt (length io'.queue) ≡ add64 io.log_sent_cnt (length io.queue)
  pub fewer : length io'.queue ≤ length io.queue
  pub size_le : io'.queue_size ≤ io.queue_size
  pub posted : io'.log_posted_cnt ≡ io.log_posted_cnt
  pub dropped : io'.log_dropped_cnt ≡ io.log_dropped_cnt
  pub mode : io'.async_mode ≡ io.async_mode
  pub fd : io'.fd ≡ io.fd
  pub max_size : io'.queue_max_size ≡ io.queue_max_size
  pub cert : io'.cert ≡ io.cert
  pub key : io'.key ≡ io.key

Moved-refl : (io : PosixIo) → IsGood io → Moved io io
Moved-refl io g = record {
  good = g;
  same_stream = refl;
  same_logs = refl;
  fewer = omega arith;
  size_le = omega arith;
  posted = refl;
  dropped = refl;
  mode = refl;
  fd = refl;
  max_size = refl;
  cert = refl;
  key = refl;
}

Moved-trans : {io io' io'' : PosixIo} → Moved io io' → Moved io' io'' → Moved io io''
Moved-trans {io} {io'} {io''} m n = record {
  good = n.good;
  same_stream = n.same_stream ∙ m.same_stream;
  same_logs = n.same_logs ∙ m.same_logs;
  fewer = omega (arith, m.fewer, n.fewer);
  size_le = omega (arith, m.size_le, n.size_le);
  posted = n.posted ∙ m.posted;
  dropped = n.dropped ∙ m.dropped;
  mode = n.mode ∙ m.mode;
  fd = n.fd ∙ m.fd;
  max_size = n.max_size ∙ m.max_size;
  cert = n.cert ∙ m.cert;
  key = n.key ∙ m.key;
}

-- The state after `n` more bytes of the front buffer were accepted, and the front is then `q`.
abbrev took : ℕ → PosixBuffer → List PosixBuffer → PosixIo → PosixIo
took n b q io = record io {
  queue = q;
  queue_size = io.queue_size - n;
  wire = io.wire ++ take n (rest_of b);
}

abbrev count_sent : PosixIo → PosixIo
count_sent io = record io { log_sent_cnt = add64 io.log_sent_cnt 1 }

-- One round, with an answer that is no failure.
write_front_lem :
    (r : Reply) (b : PosixBuffer) (rest : List PosixBuffer) (io : PosixIo)
    → IsPending b
    → IsTaken r b
    → write_front r b rest io
      ≡ done (
          if b.read_offset + r.ret == b.size
          then (true, count_sent (took r.ret b rest io))
          else (false, took r.ret b (advance r.ret b ∷ rest) io))
unfolding write_front set_read_offset
write_front_lem r b rest io p h = ground (arith, os_write_lem r b p, p.valid.small, p.below_2gb)

-- The front buffer is sent whole.
popped-Moved :
    (n : ℕ) (b : PosixBuffer) (rest : List PosixBuffer) (io : PosixIo)
    → io.queue ≡ b ∷ rest
    → IsGood io
    → b.read_offset + n ≡ b.size
    → Moved io (count_sent (took n b rest io))
popped-Moved n b rest io q g e = record {
  good = record {
    pending = ps.1;
    counted = omega (arith, g.counted, ap unsent_size q);
    in_range = omega (arith, g.in_range);
  };
  same_stream =
      rw (q, take_all n (rest_of b) all) (append_assoc io.wire (rest_of b) (unsent_bytes rest));
  same_logs = rw q (omega arith);
  fewer = rw q (omega arith);
  size_le = omega arith;
  posted = refl;
  dropped = refl;
  mode = refl;
  fd = refl;
  max_size = refl;
  cert = refl;
  key = refl;
}
  where
    ps : All IsPending (b ∷ rest)
    ps = subst (All IsPending) q g.pending

    all : length (rest_of b) ≤ n
    all = omega (arith, length-drop b.read_offset b.buffer, ps.0.valid.block)

-- A part of the front buffer is sent.
partial-Moved :
    (n : ℕ) (b : PosixBuffer) (rest : List PosixBuffer) (io : PosixIo)
    → io.queue ≡ b ∷ rest
    → IsGood io
    → b.read_offset + n < b.size
    → Moved io (took n b (advance n b ∷ rest) io)
partial-Moved n b rest io q g h = record {
  good = record {
    pending = (advance-IsPending n b h ps.0, ps.1);
    counted = omega (arith, g.counted, ap unsent_size q);
    in_range = omega (arith, g.in_range);
  };
  same_stream =
      rw (q, append_assoc io.wire (take n (rest_of b)) (rest_of (advance n b) ++ unsent_bytes rest))
        (ap (◌++◌ io.wire) (
          sym (append_assoc (take n (rest_of b)) (rest_of (advance n b)) (unsent_bytes rest))
          ∙ ap (λ bytes. bytes ++ unsent_bytes rest) (rest_of-advance n b)));
  same_logs = rw q refl;
  fewer = rw q (omega arith);
  size_le = omega arith;
  posted = refl;
  dropped = refl;
  mode = refl;
  fd = refl;
  max_size = refl;
  cert = refl;
  key = refl;
}
  where
    ps : All IsPending (b ∷ rest)
    ps = subst (All IsPending) q g.pending

-- The answers of the rounds over a queue accept at most what they are offered.
abbrev pub AllTaken : List PosixBuffer → ℕ → (ℕ → Reply) → Type 0
AllTaken [] i replies = Unit {0}
AllTaken (b ∷ bs) i replies = IsTaken (replies i) b × AllTaken bs (suc i) replies

drain_lem :
    (q : List PosixBuffer) (i : ℕ) (replies : ℕ → Reply) (io : PosixIo)
    → io.queue ≡ q
    → IsGood io
    → AllTaken q i replies
    → (io' : PosixIo) × (drain q i replies io ≡ done io') × Moved io io'
unfolding drain
drain_lem [] i replies io e g a = (io, refl, Moved-refl io g)
drain_lem (b ∷ rest) i replies io e g a =
    elim (Bool-cases (b.read_offset + (replies i).ret == b.size)) [
      | inl whole ↦
          let io1 = count_sent (took (replies i).ret b rest io) in
          let m = popped-Moved (replies i).ret b rest io e g ((==_iff _ _).0 whole) in
          let (io', eq, m') = drain_lem rest (suc i) replies io1 refl m.good a.1 in
          (io', rw (front, whole) eq, Moved-trans m m')
      | inr part ↦ (
        took (replies i).ret b (advance (replies i).ret b ∷ rest) io,
        rw (front, part),
        partial-Moved (replies i).ret b rest io e g (ground arith),
      )
    ]
  where
    pending : IsPending b
    pending = (subst (All IsPending) e g.pending).0

    front :
        write_front (replies i) b rest io
        ≡ done (
            if b.read_offset + (replies i).ret == b.size
            then (true, count_sent (took (replies i).ret b rest io))
            else (false, took (replies i).ret b (advance (replies i).ret b ∷ rest) io))
    front = write_front_lem (replies i) b rest io pending a.0

-- A write opportunity in a good state, where no answer fails or accepts more than it is offered,
-- returns: it never exits or leaves a block. No byte is lost, repeated or reordered between the
-- queue and the wire, each log is sent or still queued as before, the queue is counted, and no log
-- is posted or dropped.
pub on_write_opportunity_lem :
    (replies : ℕ → Reply) (io : PosixIo)
    → IsGood io
    → AllTaken io.queue 0 replies
    → (io' : PosixIo) × (on_write_opportunity replies io ≡ done io') × Moved io io'
unfolding on_write_opportunity
on_write_opportunity_lem replies io g a = drain_lem io.queue 0 replies io refl g a

-- The answers accept everything.
abbrev pub AllWhole : List PosixBuffer → ℕ → (ℕ → Reply) → Type 0
AllWhole [] i replies = Unit {0}
AllWhole (b ∷ bs) i replies =
    ((replies i).ret ≡ b.size - b.read_offset) × AllWhole bs (suc i) replies

drain_whole :
    (q : List PosixBuffer) (i : ℕ) (replies : ℕ → Reply) (io : PosixIo)
    → io.queue ≡ q
    → IsGood io
    → AllWhole q i replies
    → (io' : PosixIo) × (drain q i replies io ≡ done io') × Moved io io' × (io'.queue ≡ [])
unfolding drain
drain_whole [] i replies io e g a = (io, refl, Moved-refl io g, e)
drain_whole (b ∷ rest) i replies io e g a =
    let p : IsPending b = (subst (All IsPending) e g.pending).0 in
    let whole : b.read_offset + (replies i).ret ≡ b.size = omega (arith, a.0, p.left) in
    let io1 = count_sent (took (replies i).ret b rest io) in
    let m = popped-Moved (replies i).ret b rest io e g whole in
    let (io', eq, m', empty) = drain_whole rest (suc i) replies io1 refl m.good a.1 in
    (
      io',
      rw
          (
            write_front_lem (replies i) b rest io p (omega (arith, a.0)),
            (==_iff (b.read_offset + (replies i).ret) b.size).1 whole,
          )
          eq,
      Moved-trans m m',
      empty,
    )

-- A write opportunity in a good state, whose answers accept all that they are offered, empties the
-- queue: all the queued bytes are on the wire in order, every queued log is counted as sent, and
-- `_queuesize` is 0.
on_write_opportunity-empties :
    (replies : ℕ → Reply) (io : PosixIo)
    → IsGood io
    → AllWhole io.queue 0 replies
    → (io' : PosixIo) × (on_write_opportunity replies io ≡ done io')
      × (io'.queue ≡ [])
      × (io'.queue_size ≡ 0)
      × (io'.wire ≡ io.wire ++ unsent_bytes io.queue)
      × (io'.log_sent_cnt % mod64 ≡ add64 io.log_sent_cnt (length io.queue))
unfolding on_write_opportunity
on_write_opportunity-empties replies io g a =
    let (io', eq, m, empty) = drain_whole io.queue 0 replies io refl g a in
    (
      io',
      eq,
      empty,
      omega (arith, m.good.counted, ap unsent_size empty),
      sym (append-nil io'.wire)
          ∙ (ap (λ q. io'.wire ++ unsent_bytes q) (sym empty) ∙ m.same_stream),
      omega (arith, m.same_logs, ap (length {A = PosixBuffer}) empty),
    )
