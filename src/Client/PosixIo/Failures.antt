-- ===== src/Client/PosixIo/Failures.antt =====
-- What PosixIO does where a write fails.
use distributed_logger.Base.{
  ℕ, ◌+◌, ◌%◌, ◌≤◌, ◌<◌, ◌≡◌, refl, ap, ◌∙◌, ◌≢◌, inl, inr, false, Option, none, some, List, [],
  ◌∷◌, ◌++◌, append-nil, arith, Bool-cases, length, All, ◌-◌, sym, append_assoc, take, drop,
  take-append-drop, drop-drop, overwrite, mod32, mod64, add64, sub64, length-be_bytes,
}
use distributed_logger.Client.PosixBuffer.{PosixBuffer, set_read_offset, store_front}
use distributed_logger.Client.PosixIo.State.{
  PosixIo, Reply, Run, done, fault, ◌>>=◌, minus_one, is_empty,
}
use distributed_logger.Client.PosixIo.Send.{send, os_write, length_word, is_full, push_back, shrink}
use distributed_logger.Client.PosixIo.Drain.{write_front, on_write_opportunity}
use distributed_logger.Client.PosixIo.Pending.{IsPending, rest_of, unsent_bytes, os_write_lem}

-- The state that `onWriteOpportunity` leaves behind a failing first write.
abbrev after_failure : PosixBuffer → List PosixBuffer → PosixIo → PosixIo
after_failure b rest io = record io {
  queue = record b { read_offset = sub64 b.read_offset 1 } ∷ rest;
  queue_size = 0;
}

failed_write :
    (replies : ℕ → Reply) (b : PosixBuffer) (rest : List PosixBuffer) (io : PosixIo)
    → io.queue ≡ b ∷ rest
    → IsPending b
    → io.queue_size < mod64
    → (replies 0).ret ≡ minus_one
    → on_write_opportunity replies io ≡ done (after_failure b rest io)
unfolding on_write_opportunity write_front set_read_offset
failed_write replies b rest io q p small e =
    rw q
      (ground (arith, os_write_lem (replies 0) b p, e, append-nil io.wire, p.valid.small, p.left))

-- The source tests `written > 0` on a `size_t` first, so a failing write of an untouched buffer counts
-- as a write of 2 ^ 64 - 1 bytes, whatever `errno` and whatever a new connection would answer: the
-- queue keeps its length but counts as empty, no new connection is set up, and the next write
-- opportunity reads before the start of the block.
pub failed_write_faults :
    (replies later : ℕ → Reply) (b : PosixBuffer) (rest : List PosixBuffer) (io : PosixIo)
    → io.queue ≡ b ∷ rest
    → IsPending b
    → b.read_offset ≡ 0
    → io.queue_size < mod64
    → (replies 0).ret ≡ minus_one
    → (io' : PosixIo) × (on_write_opportunity replies io ≡ done io')
      × (length io'.queue ≡ length io.queue)
      × (io'.queue_size ≡ 0)
      × (io'.fd ≡ io.fd)
      × (on_write_opportunity later io' ≡ fault)
unfolding on_write_opportunity write_front os_write
failed_write_faults replies later b rest io q p z small e = (
  after_failure b rest io,
  failed_write replies b rest io q p small e,
  rw q,
  refl,
  refl,
  ground (arith, p.valid.block, p.below_2gb),
)

-- The bytes from one place before: the one there, then the others.
drop-pred : {A : Type 0} (n : ℕ) (xs : List A) → drop n xs ≡ take 1 (drop n xs) ++ drop (n + 1) xs
drop-pred n xs =
    sym (take-append-drop 1 (drop n xs))
    ∙ ap (λ ys. take 1 (drop n xs) ++ ys) (drop-drop 1 n (n + 1) xs refl)

-- Behind a write of a part, the same failure makes the last byte that the system took of the front buffer
-- the first of the unsent bytes again, with the unsent bytes as they were behind it and the wire as it
-- was; and the next write opportunity whose first answer accepts one byte puts that byte on the wire a
-- second time.
pub failed_write_repeats :
    (replies later : ℕ → Reply) (b : PosixBuffer) (rest : List PosixBuffer) (io : PosixIo)
    → io.queue ≡ b ∷ rest
    → IsPending b
    → 0 < b.read_offset
    → io.queue_size < mod64
    → (replies 0).ret ≡ minus_one
    → (later 0).ret ≡ 1
    → let last_byte = take 1 (drop (b.read_offset - 1) b.buffer) in
      (io' io'' : PosixIo) × (on_write_opportunity replies io ≡ done io')
      × (io'.wire ≡ io.wire)
      × (unsent_bytes io'.queue ≡ last_byte ++ unsent_bytes io.queue)
      × (on_write_opportunity later io' ≡ done io'')
      × (io''.wire ≡ io.wire ++ last_byte)
unfolding on_write_opportunity write_front set_read_offset
failed_write_repeats replies later b rest io q p z small e e1 =
    let at : sub64 b.read_offset 1 ≡ b.read_offset - 1 = omega (arith, z, p.left, p.valid.small) in
    let behind : (b.read_offset - 1) + 1 ≡ b.read_offset = omega (arith, z) in
    let unsent : rest_of b' ≡ last_byte ++ rest_of b =
      ap (λ n. drop n b.buffer) at
      ∙ (drop-pred (b.read_offset - 1) b.buffer ∙ ap (λ n. last_byte ++ drop n b.buffer) behind) in
    (
      after_failure b rest io,
      taken_again,
      failed_write replies b rest io q p small e,
      refl,
      ap (λ l. l ++ unsent_bytes rest) unsent
          ∙ (append_assoc last_byte (rest_of b) (unsent_bytes rest)
              ∙ ap (λ l. last_byte ++ unsent_bytes l) (sym q)),
      once_more,
      ap (λ n. io.wire ++ take 1 (drop n b.buffer)) at,
    )
  where
    b' : PosixBuffer
    b' = record b { read_offset = sub64 b.read_offset 1 }

    last_byte : List ℕ
    last_byte = take 1 (drop (b.read_offset - 1) b.buffer)

    taken_again : PosixIo
    taken_again = record (after_failure b rest io) {
      queue = record b' { read_offset = add64 b'.read_offset 1 } ∷ rest;
      queue_size = shrink 0 1;
      wire = io.wire ++ take 1 (rest_of b');
    }

    pending : IsPending b'
    pending = record {
      valid = record {
        block = p.valid.block;
        small = p.valid.small;
        read_in = omega (arith, z, p.left, p.valid.small);
        write_in = p.valid.write_in;
      };
      left = omega (arith, z, p.left, p.valid.small);
      below_2gb = p.below_2gb;
    }

    once_more : on_write_opportunity later (after_failure b rest io) ≡ done taken_again
    once_more = ground (arith, os_write_lem (later 0) b' pending, e1, z, p.left, p.valid.small)

-- The sends of a client that never calls `onWriteOpportunity`, as examples/simple_logging does.
unfoldable pub send_all : List (Reply × PosixBuffer) → PosixIo → Run PosixIo
send_all [] io = done io
send_all ((r, b) ∷ more) io = do (back, io') ← send r b io; send_all more io'

is_empty-ne : (q : List PosixBuffer) → q ≢ [] → is_empty q ≡ false
is_empty-ne [] h = absurd (h refl)
is_empty-ne (b ∷ q) h = refl

append-ne : (q : List PosixBuffer) (b : PosixBuffer) → q ++ (b ∷ []) ≢ []
append-ne [] b e = cc
append-ne (x ∷ q) b e = cc

send_blocked :
    (r : Reply) (b : PosixBuffer) (io : PosixIo)
    → io.queue ≢ []
    → 4 ≤ length b.buffer
    → (back : Option PosixBuffer) × (io' : PosixIo) × (send r b io ≡ done (back, io'))
      × (io'.queue ≢ [])
      × (io'.wire ≡ io.wire)
      × (io'.log_sent_cnt ≡ io.log_sent_cnt)
unfolding send store_front
send_blocked r b io ne h = elim (Bool-cases (is_full b io)) [
  | inl full ↦
      (some b, record io { log_dropped_cnt = add64 io.log_dropped_cnt 1 }, rw full, ne, refl, refl)
  | inr fits ↦ (
    none,
    push_back (record b { buffer = overwrite b.buffer 0 (length_word b) })
        (record io {
          log_posted_cnt = add64 io.log_posted_cnt 1;
          queue_size = add64 io.queue_size b.size;
        }),
    rw (fits, front, is_empty-ne io.queue ne) (ground arith),
    append-ne io.queue _,
    refl,
    refl,
  )
]
  where
    front :
        store_front (length_word b) b
        ≡ some (record b { buffer = overwrite b.buffer 0 (length_word b) })
    front = ground (arith, length-be_bytes 4 (sub64 b.size 4 % mod32))

-- Once a buffer is queued, `send` alone never writes again: over any number of sends of blocks with
-- room for the length word, with whatever answers the system has ready, nothing reaches the wire
-- and no log counts as sent.
pub send_all-blocked :
    (sends : List (Reply × PosixBuffer)) (io : PosixIo)
    → io.queue ≢ []
    → All (λ s. 4 ≤ length s.1.buffer) sends
    → (io' : PosixIo) × (send_all sends io ≡ done io')
      × (io'.queue ≢ [])
      × (io'.wire ≡ io.wire)
      × (io'.log_sent_cnt ≡ io.log_sent_cnt)
unfolding send_all
send_all-blocked [] io ne h = (io, refl, ne, refl, refl)
send_all-blocked ((r, b) ∷ more) io ne h =
    let (back, io1, eq, ne1, w1, s1) = send_blocked r b io ne h.0 in
    let (io2, eq2, ne2, w2, s2) = send_all-blocked more io1 ne1 h.1 in
    (io2, rw eq eq2, ne2, w2 ∙ w1, s2 ∙ s1)
