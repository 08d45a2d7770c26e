-- ===== src/Client/PosixIo/Send.antt =====
-- `PosixIO::send`.
use distributed_logger.Base.{
  ℕ, ◌+◌, ◌-◌, ◌%◌, ◌^◌, Bool, ◌&&◌, ◌||◌, not, Option, none, some, List, [], ◌∷◌, ◌++◌, ltb, leb,
  ◌==◌, if◌then◌else◌, length, take, drop, mod32, add64, sub64, be_bytes,
}
use distributed_logger.Client.PosixBuffer.{PosixBuffer, store_front, set_read_offset}
use distributed_logger.Client.PosixIo.State.{
  PosixIo, Reply, Run, done, fault, ◌>>=◌, or_fault, is_empty,
}
use distributed_logger.Client.PosixIo.Connection.{initialize_connection}

-- `write(_fd, getData() + getReadOffset(), getCapacity() - getReadOffset())` or `SSL_write` of the
-- same: the bytes that the socket accepts. A negative answer accepts none.
unfoldable pub os_write : Reply → PosixBuffer → Run (List ℕ)
os_write r buf =
    if leb (buf.read_offset + sub64 buf.size buf.read_offset) (length buf.buffer)
    then done (if ltb r.ret (2 ^ 63) then take r.ret (drop buf.read_offset buf.buffer) else [])
    else fault

-- `_queuesize -= (written >= _queuesize ? _queuesize : written)`
abbrev pub shrink : ℕ → ℕ → ℕ
shrink queue_size written = queue_size - (if leb queue_size written then queue_size else written)

abbrev pub push_back : PosixBuffer → PosixIo → PosixIo
push_back buf io = record io { queue = io.queue ++ (buf ∷ []) }

-- The last test of `send`: what is left of the buffer is queued.
keep_rest : PosixBuffer → PosixIo → PosixIo
keep_rest buf io = if ltb buf.read_offset buf.size then push_back buf io else io

-- `int written` is positive.
abbrev pub is_positive : ℕ → Bool
is_positive written = ltb 0 written && ltb written (2 ^ 31)

-- The part of `send` from the call of `write` on. `written` is an `int`.
unfoldable pub write_now : Reply → PosixBuffer → PosixIo → Run PosixIo
unfolding os_write keep_rest
write_now r buf io = do
  bytes ← os_write r buf
  let written = r.ret % mod32
  let io' = record io { wire = io.wire ++ bytes }
  let buf' = set_read_offset (add64 buf.read_offset written) buf
  if is_positive written
      then done (
          keep_rest buf' (record io' {
            queue_size = shrink io.queue_size written;
            log_sent_cnt = add64 io.log_sent_cnt (if buf'.read_offset == buf.size then 1 else 0);
          }))
      else if r.errno == 0
      then done (keep_rest buf io')
      else do io'' ← initialize_connection r.connection io'; done (keep_rest buf io'')

-- The test at the head of `send`.
abbrev pub is_full : PosixBuffer → PosixIo → Bool
is_full buf io =
    not (io.queue_max_size == 0) && ltb io.queue_max_size (add64 io.queue_size buf.size)

-- The length word that `send` puts at the head of the block.
abbrev pub length_word : PosixBuffer → List ℕ
length_word buf = be_bytes 4 (sub64 buf.size 4 % mod32)

-- A buffer comes back if it is dropped, and null (`none`) if not.
unfoldable pub send : Reply → PosixBuffer → PosixIo → Run (Option PosixBuffer × PosixIo)
send r buf io =
    if is_full buf io
    then done (some buf, record io { log_dropped_cnt = add64 io.log_dropped_cnt 1 })
    else do
      framed ← or_fault (store_front (length_word buf) buf)
      let io' = record io {
        log_posted_cnt = add64 io.log_posted_cnt 1;
        queue_size = add64 io.queue_size buf.size;
      }
      if io.async_mode || not (is_empty io.queue)
          then done (none, push_back framed io')
          else do io'' ← write_now r framed io'; done (none, io'')
