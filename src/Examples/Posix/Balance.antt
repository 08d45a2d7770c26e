-- ===== src/Examples/Posix/Balance.antt =====
-- The statistics behind a history of an unused transport.
use distributed_logger.Base.{List, refl, ap, arith, length}
use distributed_logger.Client.PosixIo.State.{PosixIo}
use distributed_logger.Client.PosixIo.History.{Reach-Kept}
use distributed_logger.Server.Storage.Batch.{Log}
use distributed_logger.Examples.Params.{LoopParams}
use distributed_logger.Examples.Params.Sums.{IsBalanced}
use distributed_logger.Examples.Posix.{record_stats}
use distributed_logger.Examples.Posix.Ran.{Ran, length-built, length-sublist}
use distributed_logger.Examples.Posix.Unused.{IsUnused, unused-IsGood, unused-IsWithin}

pub Ran-IsBalanced :
    (made : List Log) (p : LoopParams) (io io' : PosixIo)
    → IsUnused io
    → Ran io made io'
    → IsBalanced (length made) (length io'.queue) (record_stats p io')
Ran-IsBalanced made p io io' u ran =
    let k = Reach-Kept (unused-IsGood io u) (unused-IsWithin io u) ran.past in
    record {
      posted = io'.log_posted_cnt;
      dropped = io'.log_dropped_cnt;
      sent = io'.log_sent_cnt;
      posted_set = refl;
      dropped_set = refl;
      sent_set = refl;
      all_counted = omega (arith, k.posted, ran.counted, u.posted, u.dropped);
      queued_le = omega (
        arith,
        k.queue_le,
        ap length u.queue,
        length-built ran.accepted ran.sent ran.built,
        length-sublist ran.in_order,
      );
      sent_or_queued = omega (arith, k.balance, k.posted, u.posted, u.sent, ap length u.queue);
    }
