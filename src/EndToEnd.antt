-- ===== src/EndToEnd.antt =====
-- From the call of a generated function in the client to the document in the server's storage.
pub mod Seastar
use distributed_logger.Base.{
  ◌+◌, ◌^◌, ◌<◌, ◌≡◌, refl, sym, ap, ap₂, ◌∙◌, subst, true, some, List, [], ◌∷◌, ◌++◌, map,
  append-nil, arith, length, drop, All, be_bytes,
}
use distributed_logger.Client.PosixBuffer.{PosixBuffer, get_capacity, get_data, get_read_offset}
use distributed_logger.Client.PosixBuffer.Contract.{posix_buffer}
use distributed_logger.Client.Logger.{log_event}
use distributed_logger.Client.Logger.Wire.{IsCounted}
use distributed_logger.Client.Logger.Frame.{log_event_lem}
use distributed_logger.Client.PosixIo.State.{PosixIo}
use distributed_logger.Client.PosixIo.Pending.{IsGood, unsent_bytes}
use distributed_logger.Client.PosixIo.Accept.{IsFresh, frame}
use distributed_logger.Client.PosixIo.History.{Reach, Kept, IsWithin, frames, Reach-Kept}
use distributed_logger.Client.PosixIo.OneSocket.{AllStay, AllStay-fd}
use distributed_logger.Server.Decoder.{ok}
use distributed_logger.Server.EventDecoder.{ParamType}
use distributed_logger.Server.Listener
use distributed_logger.Server.Listener.{Read}
use distributed_logger.Server.Listener.Refine.{AllFit, bytes_of}
use distributed_logger.Server.Listener.Frames.{frame_of, frames_of, IsLong, run-frames}
use distributed_logger.Server.Storage.{decode_batch}
use distributed_logger.Server.Storage.Batch.{
  Log, payload_of, event_of, IsKnown, decode_batch-payloads,
}

-- A log whose size the generator counts, in a frame below 2 GB.
pub record IsFramed (l : Log) : Type 0 where
  pub counted : All IsCounted l.args
  pub small : 4 + length (payload_of l) < 2 ^ 31
  pub long : 12 < length (payload_of l)

-- The buffers are those that the generated functions build for the logs.
abbrev pub AllBuilt : List Log → List PosixBuffer → Type 0
AllBuilt [] [] = Unit {0}
AllBuilt [] (b ∷ bs) = ⊥
AllBuilt (l ∷ logs) [] = ⊥
AllBuilt (l ∷ logs) (b ∷ bs) = (log_event posix_buffer l.event l.args ≡ some b) × AllBuilt logs bs

frame-built :
    (l : Log) (b : PosixBuffer)
    → IsFramed l
    → log_event posix_buffer l.event l.args ≡ some b
    → frame b ≡ frame_of (payload_of l)
unfolding get_capacity get_data
frame-built l b f e =
    let (b0, eq, v, cap, off, unread, data_eq) =
      log_event_lem posix_buffer l.event l.args f.counted f.small in
    let same : b ≡ b0 = cc (e, eq) in
    ap₂ (λ n bytes. be_bytes 4 n ++ bytes)
      (omega (arith, ap (λ (x : PosixBuffer). x.size) same, cap))
      (ap (λ (x : PosixBuffer). drop 4 x.buffer) same ∙ data_eq)

-- The buffer that a generated function builds is one that `send` can take.
pub built-IsFresh :
    (l : Log) (b : PosixBuffer)
    → IsFramed l
    → log_event posix_buffer l.event l.args ≡ some b
    → IsFresh b
unfolding get_capacity get_read_offset
built-IsFresh l b f e =
    let (b0, eq, v, cap, off, unread, data_eq) =
      log_event_lem posix_buffer l.event l.args f.counted f.small in
    let same : b0 ≡ b = cc (e, eq) in
    subst IsFresh same (record {
      valid = v;
      unread = unread;
      room = omega (arith, cap);
      below_2gb = omega (arith, cap, f.small);
    })

frames-built :
    (logs : List Log) (bs : List PosixBuffer)
    → All IsFramed logs
    → AllBuilt logs bs
    → frames bs ≡ frames_of (map payload_of logs)
frames-built [] [] f h = refl
frames-built [] (b ∷ bs) f h = absurd h
frames-built (l ∷ logs) [] f h = absurd h
frames-built (l ∷ logs) (b ∷ bs) f h =
    ap₂ ◌++◌ (frame-built l b f.0 h.0) (frames-built logs bs f.1 h.1)

pub payloads-IsLong : (logs : List Log) → All IsFramed logs → All IsLong (map payload_of logs)
payloads-IsLong [] f = tt
payloads-IsLong (l ∷ logs) f = ((f.0.long, omega (arith, f.0.small)), payloads-IsLong logs f.1)

-- From the bytes on the wire, whatever sockets took them, if the server gets them as one connection.
pub wire_delivered :
    (schemas : List (List ParamType)) (logs : List Log) (sent : List PosixBuffer) (io io' : PosixIo)
    (rs : List Read)
    → IsGood io
    → IsWithin io
    → io.queue ≡ []
    → io.wire ≡ []
    → Reach io sent io'
    → io'.queue ≡ []
    → AllBuilt logs sent
    → All IsFramed logs
    → All (IsKnown schemas) logs
    → AllFit rs Listener.initial
    → bytes_of rs ≡ io'.wire
    → let server = Listener.run rs Listener.initial in
      (server.enqueued ≡ map payload_of logs)
      × (server.goes_on ≡ true)
      × (decode_batch schemas server.enqueued ≡ ok (map event_of logs))
wire_delivered schemas logs sent io io' rs g w q0 w0 past q1 built f known fit e =
    let (got, on, at) =
      run-frames (map payload_of logs) rs (payloads-IsLong logs f) fit (e ∙ wire) in
    (got, on, ap (decode_batch schemas) got ∙ decode_batch-payloads schemas logs known)
  where
    k : Kept io sent io'
    k = Reach-Kept g w past

    wire : io'.wire ≡ frames_of (map payload_of logs)
    wire =
        sym (append-nil io'.wire)
        ∙ (ap (λ q. io'.wire ++ unsent_bytes q) (sym q1)
            ∙ (k.longer
                ∙ (ap₂ (λ bytes q. (bytes ++ unsent_bytes q) ++ frames sent) w0 q0
                    ∙ frames-built logs sent f built)))

-- Let a client in a good state within its limit, with an empty queue and an empty wire, run any
-- history of sends, write opportunities and changes of mode, in which no write opportunity meets a
-- failing answer, no answer accepts more than it is offered, and no log is accepted with an answer for
-- which `send` would connect again, in which it accepts the buffers of some logs, and which ends with
-- an empty queue. Let the arguments of the logs be of the types that the generator counts, their
-- payloads longer than 12 bytes, their frames below 2 GB, and the logs known to the server's
-- description. Then the history keeps its socket; and however the network cuts the bytes that
-- this socket took into reads without an error, the server hands exactly the payloads of those logs to
-- the ingester, in their order, with the connection still open, and from a batch of them it decodes
-- exactly those logs.
pub delivered :
    (schemas : List (List ParamType)) (logs : List Log) (sent : List PosixBuffer) (io io' : PosixIo)
    (rs : List Read)
    → IsGood io
    → IsWithin io
    → io.queue ≡ []
    → io.wire ≡ []
    → (past : Reach io sent io') → AllStay past
    → io'.queue ≡ []
    → AllBuilt logs sent
    → All IsFramed logs
    → All (IsKnown schemas) logs
    → AllFit rs Listener.initial
    → bytes_of rs ≡ io'.wire
    → let server = Listener.run rs Listener.initial in
      (io'.fd ≡ io.fd)
      × (server.enqueued ≡ map payload_of logs)
      × (server.goes_on ≡ true)
      × (decode_batch schemas server.enqueued ≡ ok (map event_of logs))
delivered schemas logs sent io io' rs g w q0 w0 past up q1 built f known fit e =
    let (got, on, decoded) =
      wire_delivered schemas logs sent io io' rs g w q0 w0 past q1 built f known fit e in
    (AllStay-fd past g w up, got, on, decoded)
