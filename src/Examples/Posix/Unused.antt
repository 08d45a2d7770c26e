-- ===== src/Examples/Posix/Unused.antt =====
-- A transport as a plain client gets it from the constructor.
use distributed_logger.Base.{ℕ, ◌≡◌, refl, ◌∙◌, inr, true, ◌||◌, List, [], arith}
use distributed_logger.Client.PosixIo.State.{
  PosixIo, ConnectReply, Run, done, exits, fault, is_plain, is_empty, initial, set_queue_max_size,
}
use distributed_logger.Client.PosixIo.Connection.{make, initialize_connection}
use distributed_logger.Client.PosixIo.Keeps.{SameWork, initialize_connection-SameWork}
use distributed_logger.Client.PosixIo.Pending.{IsGood, Ends}
use distributed_logger.Client.PosixIo.History.{IsWithin}

-- A state in which nothing was sent, queued or counted yet.
pub record IsUnused (io : PosixIo) : Type 0 where
  pub queue : io.queue ≡ []
  pub queue_size : io.queue_size ≡ 0
  pub wire : io.wire ≡ []
  pub posted : io.log_posted_cnt ≡ 0
  pub dropped : io.log_dropped_cnt ≡ 0
  pub sent : io.log_sent_cnt ≡ 0
  pub plain : is_plain io ≡ true

connected-IsUnused :
    (io0 : PosixIo) (o : Run PosixIo)
    → IsUnused io0
    → Ends (is_plain io0) (SameWork io0) o
    → (io : PosixIo) × (o ≡ done io) × IsUnused io
connected-IsUnused io0 (done io) u s = (
  io,
  refl,
  record {
    queue = s.queue ∙ u.queue;
    queue_size = s.queue_size ∙ u.queue_size;
    wire = s.wire ∙ u.wire;
    posted = s.posted ∙ u.posted;
    dropped = s.dropped ∙ u.dropped;
    sent = s.sent ∙ u.sent;
    plain = simp (s.cert, s.key) u.plain;
  },
)
connected-IsUnused io0 (exits n) u s = let p = u.plain in cc
connected-IsUnused io0 fault u s = absurd s

-- The constructor returns, whether or not a connection can be set up.
pub make-IsUnused :
    (host : List ℕ) (port : ℕ) (cert key trusted : List ℕ) (r : ConnectReply)
    → is_empty cert || is_empty key ≡ true
    → (io : PosixIo) × (make host port cert key trusted r ≡ done io) × IsUnused io
unfolding make initial
make-IsUnused host port cert key trusted r plain =
    let io0 = initial host port cert key trusted in
    connected-IsUnused io0 (initialize_connection r io0)
      (record {
        queue = refl;
        queue_size = refl;
        wire = refl;
        posted = refl;
        dropped = refl;
        sent = refl;
        plain = plain;
      })
      (initialize_connection-SameWork r io0)

pub limited-IsUnused : (n : ℕ) (io : PosixIo) → IsUnused io → IsUnused (set_queue_max_size n io)
unfolding set_queue_max_size
limited-IsUnused n io u = record {
  queue = u.queue;
  queue_size = u.queue_size;
  wire = u.wire;
  posted = u.posted;
  dropped = u.dropped;
  sent = u.sent;
  plain = u.plain;
}

pub unused-IsGood : (io : PosixIo) → IsUnused io → IsGood io
unused-IsGood io u = record {
  pending = rw u.queue tt;
  counted = rw u.queue u.queue_size;
  in_range = omega (arith, u.queue_size);
}

pub unused-IsWithin : (io : PosixIo) → IsUnused io → IsWithin io
unused-IsWithin io u = inr (omega (arith, u.queue_size))
