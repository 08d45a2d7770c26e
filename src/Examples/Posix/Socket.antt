-- ===== src/Examples/Posix/Socket.antt =====
-- The calls of a round in asynchronous mode leave the socket as it is.
use distributed_logger.Base.{ℕ, ◌≡◌, ◌∙◌, subst, inl, true, List}
use distributed_logger.Client.PosixBuffer.Contract.{posix_buffer}
use distributed_logger.Client.Logger.{Arg, log_event}
use distributed_logger.Client.PosixIo.State.{PosixIo, Reply, done, ◌>>=◌, or_fault}
use distributed_logger.Client.PosixIo.Send.{send}
use distributed_logger.Client.PosixIo.Socket.{
  SameSocket, Results, Results-bind, Results-map, any-Results, send-Results,
}
use distributed_logger.Examples.Posix.{post_event, event0_args, event1_args, log_both}

post_event-Results :
    (r : Reply) (event : ℕ) (args : List Arg) (io : PosixIo)
    → io.async_mode ≡ true
    → Results (SameSocket io) (post_event r event args io)
unfolding post_event
post_event-Results r event args io async =
    let built = or_fault (log_event posix_buffer event args) in
    Results-bind (λ b. Unit {0}) (SameSocket io) built (λ b. send r b io >>= λ x. done x.1)
      (any-Results built)
      (λ b u.
        Results-bind (λ x. SameSocket io x.1) (SameSocket io) (send r b io) (λ x. done x.1)
          (send-Results r b io (inl async)) (λ x s. s))

pub log_both-SameSocket :
    (r0 r1 : Reply) (shard : ℕ) (host : List ℕ) (now : ℕ) (io io' : PosixIo)
    → io.async_mode ≡ true
    → log_both r0 r1 shard host now io ≡ done io'
    → SameSocket io io'
unfolding log_both
log_both-SameSocket r0 r1 shard host now io io' async e = subst (Results (SameSocket io)) e (
    Results-bind (SameSocket io) (SameSocket io) (post_event r0 0 (event0_args shard host) io)
      (post_event r1 1 (event1_args shard host now))
      (post_event-Results r0 0 (event0_args shard host) io async)
      (λ io1 s.
        Results-map (SameSocket io1) (SameSocket io)
          (post_event r1 1 (event1_args shard host now) io1)
          (post_event-Results r1 1 (event1_args shard host now) io1 (s.mode ∙ async))
          (λ io2 t. record { fd = t.fd ∙ s.fd; mode = t.mode ∙ s.mode })))
