-- ===== src/Client/PosixIo/Drain.antt =====
-- `PosixIO::onWriteOpportunity`.
use distributed_logger.Base.{
  ℕ, suc, Bool, true, false, List, [], ◌∷◌, ◌++◌, ltb, ◌==◌, if◌then◌else◌, add64,
}
use distributed_logger.Client.PosixBuffer.{PosixBuffer, set_read_offset}
use distributed_logger.Client.PosixIo.State.{PosixIo, Reply, Run, done, ◌>>=◌, minus_one}
use distributed_logger.Client.PosixIo.Connection.{initialize_connection}
use distributed_logger.Client.PosixIo.Send.{os_write, shrink}

-- The test at the end of a round: a buffer that is sent leaves the queue, and the loop goes on.
unfoldable pub check_front : PosixBuffer → List PosixBuffer → PosixIo → Bool × PosixIo
check_front buf rest io =
    if buf.read_offset == buf.size
    then (true, record io { queue = rest; log_sent_cnt = add64 io.log_sent_cnt 1 })
    else (false, record io { queue = buf ∷ rest })

-- One round of the loop, with the buffer at the front of the queue: whether the loop goes on.
-- `size_t written` holds the answer of the system.
unfoldable pub write_front : Reply → PosixBuffer → List PosixBuffer → PosixIo → Run (Bool × PosixIo)
unfolding check_front
write_front r buf rest io = do
  bytes ← os_write r buf
  let io' = record io { wire = io.wire ++ bytes }
  if ltb 0 r.ret
      then (let buf' = set_read_offset (add64 buf.read_offset r.ret) buf in
          done (check_front buf' rest (record io' { queue_size = shrink io.queue_size r.ret })))
      else if r.ret == minus_one
      then (if r.errno == 0
          then done (false, io')
          else do io'' ← initialize_connection r.connection io'; done (false, io''))
      else done (check_front buf rest io')

-- The loop over a queue, from the `i`-th answer on.
unfoldable pub drain : List PosixBuffer → ℕ → (ℕ → Reply) → PosixIo → Run PosixIo
unfolding write_front
drain [] i replies io = done io
drain (buf ∷ rest) i replies io = do
  (more, io') ← write_front (replies i) buf rest io
  elim more [ true ↦ drain rest (suc i) replies io' | false ↦ done io' ]

unfoldable pub on_write_opportunity : (ℕ → Reply) → PosixIo → Run PosixIo
unfolding drain
on_write_opportunity replies io = drain io.queue 0 replies io
