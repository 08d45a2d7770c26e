-- ===== src/Client/PosixIo/Keeps.antt =====
-- What setting up a connection does to the queue, the counters and the modes.
use distributed_logger.Base.{◌≡◌, true, false, arith}
use distributed_logger.Client.PosixIo.State.{PosixIo, ConnectReply, is_plain}
use distributed_logger.Client.PosixIo.Connection.{
  connect_plain, dial_plain, connect_tls, initialize_connection,
}
use distributed_logger.Client.PosixIo.Pending.{Ends}

-- The fields that a connection does not touch.
pub record SameWork (io io' : PosixIo) : Type 0 where
  pub queue : io'.queue ≡ io.queue
  pub queue_size : io'.queue_size ≡ io.queue_size
  pub max_size : io'.queue_max_size ≡ io.queue_max_size
  pub wire : io'.wire ≡ io.wire
  pub posted : io'.log_posted_cnt ≡ io.log_posted_cnt
  pub dropped : io'.log_dropped_cnt ≡ io.log_dropped_cnt
  pub sent : io'.log_sent_cnt ≡ io.log_sent_cnt
  pub mode : io'.async_mode ≡ io.async_mode
  pub cert : io'.cert ≡ io.cert
  pub key : io'.key ≡ io.key

connect_plain-SameWork :
    (r : ConnectReply) (io : PosixIo) → Ends true (SameWork io) (connect_plain r io)
unfolding connect_plain dial_plain
connect_plain-SameWork r io = ground arith

connect_tls-SameWork :
    (r : ConnectReply) (io : PosixIo) → Ends false (SameWork io) (connect_tls r io)
unfolding connect_tls
connect_tls-SameWork r io = ground arith

-- Setting up a connection ends, with the work as it was, or in an exit where TLS is configured.
pub initialize_connection-SameWork :
    (r : ConnectReply) (io : PosixIo)
    → Ends (is_plain io) (SameWork io) (initialize_connection r io)
unfolding initialize_connection
initialize_connection-SameWork r io =
    ground (arith, connect_plain-SameWork r io, connect_tls-SameWork r io)
