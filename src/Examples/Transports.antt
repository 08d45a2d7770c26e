-- ===== src/Examples/Transports.antt =====
-- The generated functions of the examples as functions over the transport contract.
use distributed_logger.Base.{ℕ, ◌≡◌, refl, arith, List, length}
use distributed_logger.Client.Logger.{Arg}
use distributed_logger.Client.PosixBuffer.Contract.{posix_buffer}
use distributed_logger.Client.SeastarBuffer.Contract.{seastar_buffer}
use distributed_logger.Client.PosixIo.State.{PosixIo, Reply, or_fault}
use distributed_logger.Client.SeastarIo.{SeastarIo}
use distributed_logger.Client.Transport.{post}
use distributed_logger.Client.Transport.Posix.{posix_io}
use distributed_logger.Client.Transport.Seastar.{seastar_io}
use distributed_logger.Examples.Posix
use distributed_logger.Examples.Seastar

pub posix_post :
    (r : Reply) (event : ℕ) (args : List Arg) (io : PosixIo)
    → Posix.post_event r event args io ≡ post posix_buffer posix_io r event args io
unfolding Posix.post_event post
posix_post r event args io = refl

module _ (temporary_buffer : ℕ → List ℕ) (allocated : (n : ℕ) → length (temporary_buffer n) ≡ n)
    (moved_from : List ℕ) where
  pub seastar_post :
      (event : ℕ) (args : List Arg) (io : SeastarIo)
      → or_fault (Seastar.post_event temporary_buffer allocated moved_from event args io)
        ≡ post
            (seastar_buffer temporary_buffer allocated)
            (seastar_io temporary_buffer allocated moved_from)
            tt
            event
            args
            io
  unfolding Seastar.post_event post
  seastar_post event args io = ground arith
