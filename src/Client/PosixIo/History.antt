-- ===== src/Client/PosixIo/History.antt =====
-- Whole histories of a PosixIO: sends, write opportunities and changes of mode, in any order.
use distributed_logger.Base.{
  ℕ, ◌+◌, ◌-◌, ◌%◌, ◌≤◌, ◌<◌, ◌≡◌, refl, sym, ap, ◌∙◌, subst, ◌⊎◌, inl, inr, Bool, none, some, List,
  [], ◌∷◌, ◌++◌, append-nil, append_assoc, arith, length, drop, length-append, length-drop, mod64,
  add64, be_bytes, length-be_bytes,
}
use distributed_logger.Client.PosixBuffer.{PosixBuffer}
use distributed_logger.Client.PosixIo.State.{PosixIo, Reply, ConnectReply, done, is_plain}
use distributed_logger.Client.PosixIo.Connection.{set_async_mode}
use distributed_logger.Client.PosixIo.Send.{send}
use distributed_logger.Client.PosixIo.Drain.{on_write_opportunity}
use distributed_logger.Client.PosixIo.Pending.{IsGood, IsAnswer, Ends, stream}
use distributed_logger.Client.PosixIo.Accept.{IsFresh, Sends, frame, post, send_lem}
use distributed_logger.Client.PosixIo.Write.{Took}
use distributed_logger.Client.PosixIo.Flush.{AllTaken, Moved, on_write_opportunity_lem}

-- One call of the program, with the frames that it accepts. The answers of the system are those that
-- `write` may give, a write opportunity being answered without a failure.
pub data Step (io : PosixIo) : List PosixBuffer → PosixIo → Type 0 where
  sends :
      (r : Reply) (b : PosixBuffer) (io' : PosixIo)
      → IsFresh b
      → io.queue_size + b.size < mod64
      → IsAnswer r b
      → send r b io ≡ done (none, io')
      → Step io (b ∷ []) io'
  drops :
      (r : Reply) (b back : PosixBuffer) (io' : PosixIo)
      → IsFresh b
      → io.queue_size + b.size < mod64
      → IsAnswer r b
      → send r b io ≡ done (some back, io')
      → Step io [] io'
  writes :
      (replies : ℕ → Reply) (io' : PosixIo)
      → AllTaken io.queue 0 replies
      → on_write_opportunity replies io ≡ done io'
      → Step io [] io'
  switches : (mode : Bool) (r : ConnectReply) → Step io [] (set_async_mode mode r io)

-- A history, with the buffers that it accepted in order.
pub data Reach (io : PosixIo) : List PosixBuffer → PosixIo → Type 0 where
  here : Reach io [] io
  next :
      {sent more : List PosixBuffer} {io' io'' : PosixIo}
      → Reach io sent io'
      → Step io' more io''
      → Reach io (sent ++ more) io''

-- The frames of the accepted buffers, one behind the other.
abbrev pub frames : List PosixBuffer → List ℕ
frames [] = []
frames (b ∷ bs) = frame b ++ frames bs

-- A limit, where one is set, is kept.
abbrev pub IsWithin : PosixIo → Type 0
IsWithin io = (io.queue_max_size ≡ 0) ⊎ (io.queue_size ≤ io.queue_max_size)

-- What a history that accepted `sent` makes of a state.
pub record Kept (io : PosixIo) (sent : List PosixBuffer) (io' : PosixIo) : Type 0 where
  pub good : IsGood io'
  pub longer : stream io' ≡ stream io ++ frames sent
  pub posted : io'.log_posted_cnt % mod64 ≡ add64 io.log_posted_cnt (length sent)
  pub balance :
      add64 io'.log_sent_cnt (length io'.queue)
      ≡ add64 io.log_sent_cnt (length io.queue + length sent)
  pub queue_le : length io'.queue ≤ length io.queue + length sent
  pub within : IsWithin io'

pub length-frame : (b : PosixBuffer) → IsFresh b → length (frame b) ≡ b.size
length-frame b f = omega (
  arith,
  length-append (be_bytes 4 (b.size - 4)) (drop 4 b.buffer),
  length-be_bytes 4 (b.size - 4),
  length-drop 4 b.buffer,
  f.valid.block,
  f.room,
)

Took-Kept :
    (b : PosixBuffer) (io io' : PosixIo)
    → IsFresh b
    → IsGood io
    → (io.queue_max_size ≡ 0) ⊎ (io.queue_size + b.size ≤ io.queue_max_size)
    → Took (post io) (frame b) io'
    → Kept io (b ∷ []) io'
Took-Kept b io io' f g fits t = record {
  good = t.good;
  longer = rw (append-nil (frame b)) t.longer;
  posted = rw t.posted (omega arith);
  balance = t.one_more;
  queue_le = t.queue_le;
  within = omega (arith, t.size_le, t.max_size, g.counted, length-frame b f, fits);
}

-- Nothing but the count of the dropped logs changed, or bytes moved from the queue to the wire.
Moved-Kept : (io io' : PosixIo) → IsWithin io → Moved io io' → Kept io [] io'
Moved-Kept io io' w m = record {
  good = m.good;
  longer = m.same_stream ∙ sym (append-nil (stream io));
  posted = rw m.posted (omega arith);
  balance = rw m.same_logs (omega arith);
  queue_le = omega (arith, m.fewer);
  within = omega (arith, m.size_le, m.max_size, w);
}

dropped-Kept :
    (n : ℕ) (io : PosixIo)
    → IsGood io
    → IsWithin io
    → Kept io [] (record io { log_dropped_cnt = n })
dropped-Kept n io g w = record {
  good = record { pending = g.pending; counted = g.counted; in_range = g.in_range };
  longer = sym (append-nil (stream io));
  posted = omega arith;
  balance = omega arith;
  queue_le = omega arith;
  within = w;
}

set_async_mode-same :
    (mode : Bool) (r : ConnectReply) (io : PosixIo)
    → let io' = set_async_mode mode r io in
      (io'.queue ≡ io.queue)
      × (io'.queue_size ≡ io.queue_size)
      × (io'.wire ≡ io.wire)
      × (io'.log_posted_cnt ≡ io.log_posted_cnt)
      × (io'.log_sent_cnt ≡ io.log_sent_cnt)
      × (io'.queue_max_size ≡ io.queue_max_size)
unfolding set_async_mode
set_async_mode-same mode r io = ground arith

switched-Kept :
    (mode : Bool) (r : ConnectReply) (io : PosixIo)
    → IsGood io
    → IsWithin io
    → Kept io [] (set_async_mode mode r io)
switched-Kept mode r io g w =
    let (q, n, wire, posted, sent, max) = set_async_mode-same mode r io in
    record {
      good = record {
        pending = rw q g.pending;
        counted = rw (q, n) g.counted;
        in_range = rw n g.in_range;
      };
      longer = rw (q, wire) (sym (append-nil (stream io)));
      posted = rw posted (omega arith);
      balance = rw (q, sent) (omega arith);
      queue_le = rw q (omega arith);
      within = rw (n, max) w;
    }

Step-Kept :
    {io io' : PosixIo} {sent : List PosixBuffer}
    → IsGood io
    → IsWithin io
    → Step io sent io'
    → Kept io sent io'
Step-Kept {io} g w (sends r b io' f h a e) =
    elim (subst (Ends (is_plain io) (Sends b io)) e (send_lem r b io g f h a)) [
      | inl (n0, over, back, eq) ↦ cc
      | inr (fits, back, t) ↦ Took-Kept b io io' f g fits t
    ]
Step-Kept {io} g w (drops r b back io' f h a e) =
    elim (subst (Ends (is_plain io) (Sends b io)) e (send_lem r b io g f h a)) [
      | inl (n0, over, same, eq) ↦ rw eq (dropped-Kept _ io g w)
      | inr (fits, same, t) ↦ cc
    ]
Step-Kept {io} g w (writes replies io' a e) =
    let (io1, eq, m) = on_write_opportunity_lem replies io g a in
    let same : io' ≡ io1 = cc in rw same (Moved-Kept io io1 w m)
Step-Kept {io} g w (switches mode r) = switched-Kept mode r io g w

frames-append : (xs ys : List PosixBuffer) → frames (xs ++ ys) ≡ frames xs ++ frames ys
frames-append [] ys = refl
frames-append (b ∷ xs) ys =
    rw (frames-append xs ys) (sym (append_assoc (frame b) (frames xs) (frames ys)))

-- Over any history of sends of fresh buffers, write opportunities without a failing answer and
-- changes of mode, from a good state within its limit, where no answer accepts more than it is
-- offered: the stream grows by exactly the frames of the accepted buffers in the order of their
-- sends, `_logPostedCnt` counts them, each is sent or still queued, and the queue never outgrows a
-- limit that is set.
pub Reach-Kept :
    {io io' : PosixIo} {sent : List PosixBuffer}
    → IsGood io
    → IsWithin io
    → Reach io sent io'
    → Kept io sent io'
Reach-Kept {io} g w here = dropped-Kept io.log_dropped_cnt io g w
Reach-Kept {io} g w (next {sent} {more} {io'} {io''} past step) =
    let k = Reach-Kept g w past in
    let k' = Step-Kept k.good k.within step in
    record {
      good = k'.good;
      longer =
          k'.longer
          ∙ (ap (λ s. s ++ frames more) k.longer
              ∙ (append_assoc (stream io) (frames sent) (frames more)
                  ∙ ap (◌++◌ (stream io)) (sym (frames-append sent more))));
      posted = omega (arith, k.posted, k'.posted, length-append sent more);
      balance = omega (arith, k.balance, k'.balance, length-append sent more);
      queue_le = omega (arith, k.queue_le, k'.queue_le, length-append sent more);
      within = k'.within;
    }
