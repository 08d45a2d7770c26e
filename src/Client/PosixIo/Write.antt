-- ===== src/Client/PosixIo/Write.antt =====
-- The call of `write` in `send`, and where it leaves the frame.
use distributed_logger.Base.{
  All-append, ℕ, ◌+◌, ◌-◌, ◌≤◌, ◌<◌, ◌≡◌, refl, sym, ap, ◌∙◌, ◌⊎◌, inl, inr, Bool, List, [], ◌∷◌,
  ◌++◌, append-nil, append_assoc, arith, ltb, ◌==◌, if◌then◌else◌, ==_iff, Bool-cases, length, take,
  All, length-append, length-drop, take_all, mod64, add64,
}
use distributed_logger.Client.PosixBuffer.{PosixBuffer, set_read_offset}
use distributed_logger.Client.PosixIo.State.{
  PosixIo, Reply, Run, done, exits, fault, ◌>>=◌, is_plain, minus_one,
}
use distributed_logger.Client.PosixIo.Connection.{initialize_connection}
use distributed_logger.Client.PosixIo.Send.{write_now, push_back}
use distributed_logger.Client.PosixIo.Pending.{
  IsPending, IsGood, IsAnswer, Ends, stream, rest_of, unsent_bytes, unsent_size,
  unsent_bytes-append, unsent_size-append, os_write_lem, advance, rest_of-advance,
  advance-IsPending,
}
use distributed_logger.Client.PosixIo.Keeps.{SameWork, initialize_connection-SameWork}

-- What a step that accepts `bytes` makes of a state: they stand at the end of the stream, one more log
-- is sent or queued, and the queue is counted.
pub record Took (io : PosixIo) (bytes : List ℕ) (io' : PosixIo) : Type 0 where
  pub good : IsGood io'
  pub longer : stream io' ≡ stream io ++ bytes
  pub one_more :
      add64 io'.log_sent_cnt (length io'.queue) ≡ add64 io.log_sent_cnt (length io.queue + 1)
  pub queue_le : length io'.queue ≤ length io.queue + 1
  pub size_le : io'.queue_size ≤ unsent_size io.queue + length bytes
  pub posted : io'.log_posted_cnt ≡ io.log_posted_cnt
  pub dropped : io'.log_dropped_cnt ≡ io.log_dropped_cnt
  pub mode : io'.async_mode ≡ io.async_mode
  pub max_size : io'.queue_max_size ≡ io.queue_max_size
  pub cert : io'.cert ≡ io.cert
  pub key : io'.key ≡ io.key

-- A pending buffer at the back of the queue, with its bytes counted, maybe after a connection.
pub push_back-Took :
    (b : PosixBuffer) (io io' : PosixIo)
    → SameWork io io'
    → IsPending b
    → All IsPending io.queue
    → io.queue_size ≡ unsent_size io.queue + (b.size - b.read_offset)
    → io.queue_size < mod64
    → Took io (rest_of b) (push_back b io')
push_back-Took b io io' same p ps e small = record {
  good = record {
    pending = rw same.queue (All-append IsPending io.queue (b ∷ []) ps (p, tt));
    counted =
        rw (same.queue, same.queue_size) (omega (arith, unsent_size-append io.queue (b ∷ [])));
    in_range = rw same.queue_size small;
  };
  longer =
      rw (same.queue, same.wire, unsent_bytes-append io.queue (b ∷ []), append-nil (rest_of b))
        (sym (append_assoc io.wire (unsent_bytes io.queue) (rest_of b)));
  one_more = rw (same.queue, same.sent, length-append io.queue (b ∷ [])) refl;
  queue_le = rw same.queue (omega (arith, length-append io.queue (b ∷ [])));
  size_le = rw same.queue_size (omega (arith, length-drop b.read_offset b.buffer, p.valid.block));
  posted = same.posted;
  dropped = same.dropped;
  mode = same.mode;
  max_size = same.max_size;
  cert = same.cert;
  key = same.key;
}

pub SameWork-refl : (io : PosixIo) → SameWork io io
SameWork-refl io = ground arith

-- A write that accepts nothing leaves the buffer to the queue.
write_now-refused :
    (r : Reply) (b : PosixBuffer) (io : PosixIo)
    → IsPending b
    → (r.ret ≡ 0) ⊎ (r.ret ≡ minus_one)
    → write_now r b io ≡ (
        if r.errno == 0
        then done (push_back b io)
        else (initialize_connection r.connection io >>= λ io'. done (push_back b io')))
unfolding write_now
write_now-refused r b io p (inl e) = ground (arith, os_write_lem r b p, append-nil io.wire, p.left)
write_now-refused r b io p (inr e) = ground (arith, os_write_lem r b p, append-nil io.wire, p.left)

-- The state after the first `n` bytes of the only buffer were accepted.
abbrev after_write : ℕ → PosixBuffer → PosixIo → PosixIo
after_write n b io = record io {
  wire = io.wire ++ take n (rest_of b);
  queue_size = b.size - b.read_offset - n;
  log_sent_cnt = add64 io.log_sent_cnt (if b.read_offset + n == b.size then 1 else 0);
}

-- A write that accepts bytes leaves the others to the queue, if there are others.
write_now-accepted :
    (r : Reply) (b : PosixBuffer) (io : PosixIo)
    → IsPending b
    → 0 < r.ret
    → r.ret ≤ b.size - b.read_offset
    → io.queue_size ≡ b.size - b.read_offset
    → write_now r b io
      ≡ done (
          if ltb (b.read_offset + r.ret) b.size
          then push_back (advance r.ret b) (after_write r.ret b io)
          else after_write r.ret b io)
unfolding write_now set_read_offset
write_now-accepted r b io p h0 h e = ground (arith, os_write_lem r b p, p.valid.small, p.below_2gb)

pub Ends->>= :
    {A B : Type 0} (plain : Bool) {P : A → Type 0} (Q : B → Type 0) (m : Run A) (f : A → B)
    → Ends plain P m
    → ((a : A) → P a → Q (f a))
    → Ends plain Q (m >>= λ a. done (f a))
Ends->>= plain Q (done a) f h k = k a h
Ends->>= plain Q (exits n) f h k = h
Ends->>= plain Q fault f h k = h

refused-Took :
    (r : Reply) (b : PosixBuffer) (io : PosixIo)
    → IsPending b
    → io.queue ≡ []
    → io.queue_size ≡ b.size - b.read_offset
    → (r.ret ≡ 0) ⊎ (r.ret ≡ minus_one)
    → Ends (is_plain io) (Took io (rest_of b)) (write_now r b io)
refused-Took r b io p q e h = rw (write_now-refused r b io p h) (elim (Bool-cases (r.errno == 0)) [
  | inl z ↦ rw z (took io (SameWork-refl io))
  | inr z ↦ rw z (
      Ends->>= (is_plain io) (Took io (rest_of b)) (initialize_connection r.connection io)
        (push_back b) (initialize_connection-SameWork r.connection io) took)
])
  where
    took : (io' : PosixIo) → SameWork io io' → Took io (rest_of b) (push_back b io')
    took io' same =
        push_back-Took b io io' same p (rw q tt) (rw q (omega arith)) (omega (arith, p.below_2gb))

partial-Took :
    (n : ℕ) (b : PosixBuffer) (io : PosixIo)
    → IsPending b
    → io.queue ≡ []
    → b.read_offset + n < b.size
    → Took io (rest_of b) (push_back (advance n b) (after_write n b io))
partial-Took n b io p q more = record {
  good = record {
    pending = rw q (advance-IsPending n b more p, tt);
    counted = rw q (omega arith);
    in_range = omega (arith, p.below_2gb);
  };
  longer =
      rw (q, append-nil (rest_of (advance n b)), append-nil io.wire)
        (append_assoc io.wire (take n (rest_of b)) (rest_of (advance n b))
          ∙ ap (◌++◌ io.wire) (rest_of-advance n b));
  one_more = rw q (ground arith);
  queue_le = rw q (omega arith);
  size_le = omega (arith, length-drop b.read_offset b.buffer, p.valid.block);
  posted = refl;
  dropped = refl;
  mode = refl;
  max_size = refl;
  cert = refl;
  key = refl;
}

whole-Took :
    (n : ℕ) (b : PosixBuffer) (io : PosixIo)
    → IsPending b
    → io.queue ≡ []
    → n ≤ b.size - b.read_offset
    → b.size ≤ b.read_offset + n
    → Took io (rest_of b) (after_write n b io)
whole-Took n b io p q h all = record {
  good = record {
    pending = rw q tt;
    counted = rw q (omega arith);
    in_range = omega (arith, p.below_2gb);
  };
  longer =
      rw (q, take_all n (rest_of b) room)
        (append-nil (io.wire ++ rest_of b) ∙ ap (λ w. w ++ rest_of b) (sym (append-nil io.wire)));
  one_more = rw q (ground (arith, p.left));
  queue_le = rw q (omega arith);
  size_le = omega (arith, length-drop b.read_offset b.buffer, p.valid.block);
  posted = refl;
  dropped = refl;
  mode = refl;
  max_size = refl;
  cert = refl;
  key = refl;
}
  where
    room : length (rest_of b) ≤ n
    room = omega (arith, length-drop b.read_offset b.buffer, p.valid.block)

accepted-Took :
    (r : Reply) (b : PosixBuffer) (io : PosixIo)
    → IsPending b
    → io.queue ≡ []
    → io.queue_size ≡ b.size - b.read_offset
    → 0 < r.ret
    → r.ret ≤ b.size - b.read_offset
    → Ends (is_plain io) (Took io (rest_of b)) (write_now r b io)
accepted-Took r b io p q e h0 h =
    rw (write_now-accepted r b io p h0 h e)
      (elim (Bool-cases (ltb (b.read_offset + r.ret) b.size)) [
        | inl more ↦ rw more (partial-Took r.ret b io p q (ground arith))
        | inr all ↦ rw all (whole-Took r.ret b io p q h (ground arith))
      ])

-- Whatever the system answers, the only buffer ends on the wire or in the queue.
pub write_now-Took :
    (r : Reply) (b : PosixBuffer) (io : PosixIo)
    → IsPending b
    → io.queue ≡ []
    → io.queue_size ≡ b.size - b.read_offset
    → IsAnswer r b
    → Ends (is_plain io) (Took io (rest_of b)) (write_now r b io)
write_now-Took r b io p q e (inr m) = refused-Took r b io p q e (inr m)
write_now-Took r b io p q e (inl t) = elim (Bool-cases (r.ret == 0)) [
  | inl z ↦ refused-Took r b io p q e (inl ((==_iff r.ret 0).0 z))
  | inr z ↦ accepted-Took r b io p q e (ground arith) t
]
