-- ===== src/Tests/Client.antt =====
-- The buffer, the logger and the transport of the client.
use distributed_logger.Base.{
  ◌+◌, ◌≡◌, refl, inl, true, none, some, [], ◌∷◌, arith, length, take, drop, be_bytes,
}
use distributed_logger.Client.PosixBuffer.{
  PosixBuffer, store_front, set_read_offset, IsValid, make, write_data, set_write_offset,
  get_capacity, get_write_offset, get_read_offset, get_data,
}
use distributed_logger.Client.PosixBuffer.Contract.{posix_buffer}
use distributed_logger.Client.Logger.{log_event, total_length, encode_all, encode_uint64}
use distributed_logger.Client.Logger.Wire.{payload}
use distributed_logger.Client.Logger.Frame.{log_event_lem}
use distributed_logger.Client.PosixIo.State.{PosixIo, done}
use distributed_logger.Client.PosixIo.Send.{send, write_now}
use distributed_logger.Client.PosixIo.Drain.{on_write_opportunity}
use distributed_logger.Client.PosixIo.Pending.{Ends}
use distributed_logger.Client.PosixIo.Accept.{Sends, send_lem}
use distributed_logger.Client.PosixIo.Flush.{Moved, on_write_opportunity_lem}
use distributed_logger.Tests.Data.{
  args0, buffer0, buffer0-IsFresh, idle, busy, busy-IsGood, answers, queued0, frame0,
}

-- The logger builds the shared buffer.
pub log_event-args0 : log_event posix_buffer 0 args0 ≡ some buffer0
unfolding log_event total_length encode_all encode_uint64 make write_data set_write_offset be_bytes
log_event-args0 = refl

-- A blocking send that is taken whole leaves nothing in the queue.
pub send-idle :
    send (answers 25) buffer0 idle
    ≡ done (none, record idle { wire = frame0; log_posted_cnt = 1; log_sent_cnt = 1 })
unfolding send write_now store_front set_read_offset be_bytes
send-idle = refl

-- One that is taken in part leaves the rest.
send-part :
    send (answers 10) buffer0 idle
    ≡ done (
      none,
      record busy {
        wire = take 10 frame0;
        queue = record queued0 { read_offset = 10 } ∷ [];
        queue_size = 15;
      },
    )
unfolding send write_now store_front set_read_offset be_bytes
send-part = refl

log_event_lem_example :
    (b : PosixBuffer) × (log_event posix_buffer 0 args0 ≡ some b)
    × IsValid b
    × (get_capacity b ≡ 4 + length (payload 0 args0))
    × (get_write_offset b ≡ get_capacity b)
    × (get_read_offset b ≡ 0)
    × (drop 4 (get_data b) ≡ payload 0 args0)
unfolding be_bytes
log_event_lem_example = log_event_lem posix_buffer 0 args0 (tt, (tt, tt)) (omega arith)

send_lem_example : Ends true (Sends buffer0 busy) (send (answers 10) buffer0 busy)
send_lem_example =
    send_lem (answers 10) buffer0 busy busy-IsGood buffer0-IsFresh (omega arith) (inl (omega arith))

on_write_opportunity_lem_example :
    (io' : PosixIo) × (on_write_opportunity (λ _. answers 7) busy ≡ done io') × Moved busy io'
on_write_opportunity_lem_example =
    on_write_opportunity_lem (λ _. answers 7) busy busy-IsGood (omega arith)
