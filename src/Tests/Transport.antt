-- ===== src/Tests/Transport.antt =====
-- A log through the POSIX transport, seen through the transport contract.
use distributed_logger.Base.{true, inl, inr, List, [], ◌∷◌, arith}
use distributed_logger.Client.PosixBuffer.Contract.{posix_buffer}
use distributed_logger.Client.PosixIo.State.{Reply}
use distributed_logger.Client.PosixIo.Pending.{Ends}
use distributed_logger.Client.Transport.Calls.{Call, Accounts, post_all, post_all-Accounts}
use distributed_logger.Client.Transport.Posix.{posix_io}
use distributed_logger.Tests.Data.{args0, idle, idle-IsGood, answers}

abbrev calls : List (Call Reply)
calls = record { answer = answers 25; event = 0; args = args0 } ∷ []

post_all-Accounts_example :
    Ends true (Accounts posix_buffer posix_io 1 25 idle) (post_all posix_buffer posix_io calls idle)
unfolding distributed_logger.Base.be_bytes
post_all-Accounts_example =
    post_all-Accounts posix_buffer posix_io calls idle
      (record { counted = (tt, (tt, tt)); small = omega arith; allowed = inl (omega arith) }, tt)
      idle-IsGood (inr (omega arith)) (omega arith)
