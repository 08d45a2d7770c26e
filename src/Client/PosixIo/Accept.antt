-- ===== src/Client/PosixIo/Accept.antt =====
-- What `send` makes of a buffer: dropped, sent or queued.
use distributed_logger.Base.{
  ℕ, ◌+◌, ◌-◌, ◌%◌, ◌^◌, ◌≤◌, ◌<◌, ◌≡◌, refl, ap, subst, ◌≢◌, ◌⊎◌, inl, inr, false, ◌||◌, not,
  Option, none, some, List, [], ◌∷◌, ◌++◌, arith, le→leb, Bool-cases, length, drop, length-append,
  length-drop, mod32, mod64, add64, sub64, be_bytes, length-be_bytes,
}
use distributed_logger.Client.PosixBuffer.{PosixBuffer, IsValid, store_front}
use distributed_logger.Client.PosixIo.State.{PosixIo, Reply, done, ◌>>=◌, is_plain, is_empty}
use distributed_logger.Client.PosixIo.Send.{write_now, send, push_back, length_word, is_full}
use distributed_logger.Client.PosixIo.Pending.{
  IsPending, IsGood, IsAnswer, Ends, rest_of, unsent_size,
}
use distributed_logger.Client.PosixIo.Write.{
  Took, push_back-Took, SameWork-refl, write_now-Took, Ends->>=,
}

-- A buffer as the logger hands it over: nothing of it is sent, and it has room for the length word.
pub record IsFresh (b : PosixBuffer) : Type 0 where
  pub valid : IsValid b
  pub unread : b.read_offset ≡ 0
  pub room : 4 ≤ b.size
  pub below_2gb : b.size < 2 ^ 31

-- The frame of a buffer: the size of the payload as four bytes, and the payload.
abbrev pub frame : PosixBuffer → List ℕ
frame b = be_bytes 4 (b.size - 4) ++ drop 4 b.buffer

-- The buffer with its length word.
abbrev pub framed : PosixBuffer → PosixBuffer
framed b = record b { buffer = frame b }

store_front_lem : (b : PosixBuffer) → IsFresh b → store_front (length_word b) b ≡ some (framed b)
unfolding store_front
store_front_lem b f =
    let e : sub64 b.size 4 % mod32 ≡ b.size - 4 = omega (arith, f.room, f.below_2gb) in
    rw (
      e,
      length-be_bytes 4 (b.size - 4),
      le→leb 4 (length b.buffer) (omega (arith, f.valid.block, f.room)),
    )

framed-IsPending : (b : PosixBuffer) → IsFresh b → IsPending (framed b)
framed-IsPending b f = record {
  valid = record {
    block = omega (
      arith,
      length-append (be_bytes 4 (b.size - 4)) (drop 4 b.buffer),
      length-be_bytes 4 (b.size - 4),
      length-drop 4 b.buffer,
      f.valid.block,
      f.room,
    );
    small = f.valid.small;
    read_in = f.valid.read_in;
    write_in = f.valid.write_in;
  };
  left = omega (arith, f.room);
  below_2gb = f.below_2gb;
}

-- The state with one more log posted.
abbrev pub post : PosixIo → PosixIo
post io = record io { log_posted_cnt = add64 io.log_posted_cnt 1 }

-- What `send` makes of a buffer and a state.
abbrev pub Sends : PosixBuffer → PosixIo → Option PosixBuffer × PosixIo → Type 0
Sends b io (back, io') =
    ((io.queue_max_size ≢ 0)
      × (io.queue_max_size < io.queue_size + b.size)
      × (back ≡ some b)
      × (io' ≡ record io { log_dropped_cnt = add64 io.log_dropped_cnt 1 }))
    ⊎ (((io.queue_max_size ≡ 0) ⊎ (io.queue_size + b.size ≤ io.queue_max_size))
        × (back ≡ none)
        × Took (post io) (frame b) io')

rest_of-framed : (b : PosixBuffer) → IsFresh b → rest_of (framed b) ≡ frame b
rest_of-framed b f = rw f.unread

-- What a step takes does not turn on the count of the queue before it.
Took-resize :
    (n : ℕ) (bytes : List ℕ) (io io' : PosixIo)
    → Took io bytes io'
    → Took (record io { queue_size = n }) bytes io'
Took-resize n bytes io io' t = record {
  good = t.good;
  longer = t.longer;
  one_more = t.one_more;
  queue_le = t.queue_le;
  size_le = t.size_le;
  posted = t.posted;
  dropped = t.dropped;
  mode = t.mode;
  max_size = t.max_size;
  cert = t.cert;
  key = t.key;
}

is_empty-eq : (q : List PosixBuffer) → not (is_empty q) ≡ false → q ≡ []
is_empty-eq [] h = refl
is_empty-eq (b ∷ q) h = cc

queued-Took :
    (b : PosixBuffer) (io : PosixIo)
    → IsGood io
    → IsFresh b
    → io.queue_size + b.size < mod64
    → Took
        (post io)
        (frame b)
        (push_back (framed b) (record (post io) { queue_size = io.queue_size + b.size }))
queued-Took b io g f h =
    subst (λ bytes. Took (post io) bytes (push_back (framed b) io')) (rest_of-framed b f)
      (Took-resize io.queue_size (rest_of (framed b)) io' _ (
        push_back-Took (framed b) io' io' (SameWork-refl io') (framed-IsPending b f) g.pending
          (omega (arith, g.counted, f.unread)) h))
  where
    io' : PosixIo
    io' = record (post io) { queue_size = io.queue_size + b.size }

written-Sends :
    (r : Reply) (b : PosixBuffer) (io : PosixIo)
    → IsGood io
    → IsFresh b
    → io.queue_size + b.size < mod64
    → IsAnswer r b
    → (io.queue_max_size ≡ 0) ⊎ (io.queue_size + b.size ≤ io.queue_max_size)
    → not (is_empty io.queue) ≡ false
    → Ends (is_plain io) (Sends b io) (
        write_now r (framed b) (record (post io) { queue_size = io.queue_size + b.size }) >>= λ io'.
        done (none, io'))
written-Sends r b io g f h a fits e =
    Ends->>= (is_plain io) (Sends b io) (write_now r (framed b) io') (λ io''. (none, io''))
      (write_now-Took r (framed b) io' (framed-IsPending b f) (is_empty-eq io.queue e)
        (omega (arith, size, ap unsent_size (is_empty-eq io.queue e))) a)
      (λ io'' t. inr (
        fits,
        refl,
        subst (λ bytes. Took (post io) bytes io'') (rest_of-framed b f)
            (Took-resize io.queue_size (rest_of (framed b)) io' io'' t),
      ))
  where
    io' : PosixIo
    io' = record (post io) { queue_size = io.queue_size + b.size }

    size : io.queue_size + b.size ≡ unsent_size io.queue + (b.size - b.read_offset)
    size = omega (arith, g.counted, f.unread)

-- In a good state, with any answer of the system that accepts no more than it is offered or is -1,
-- and with fewer than 2 ^ 64 bytes queued and offered: `send` of a fresh buffer, in blocking mode as
-- without blocking, returns, or exits where TLS is configured; it does not read or write outside the
-- buffer's block. It drops the buffer and counts it as dropped exactly where a limit is set and would
-- be passed. Any other buffer it counts as posted; its frame then stands at the end of the stream, on
-- the wire or queued, one more log is sent or queued, and the state is good.
pub send_lem :
    (r : Reply) (b : PosixBuffer) (io : PosixIo)
    → IsGood io
    → IsFresh b
    → io.queue_size + b.size < mod64
    → IsAnswer r b
    → Ends (is_plain io) (Sends b io) (send r b io)
unfolding send
send_lem r b io g f h a = elim (Bool-cases (is_full b io)) [
  | inl full ↦ rw full (inl (ground arith, ground arith, refl, refl))
  | inr fits ↦
      rw (fits, store_front_lem b f, sum)
        (elim (Bool-cases (io.async_mode || not (is_empty io.queue))) [
          | inl later ↦ rw later (inr (ground arith, refl, queued-Took b io g f h))
          | inr now ↦ rw now (written-Sends r b io g f h a (ground arith) (ground arith))
        ])
]
  where
    sum : add64 io.queue_size b.size ≡ io.queue_size + b.size
    sum = omega arith
