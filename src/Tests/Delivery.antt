-- ===== src/Tests/Delivery.antt =====
-- One log from the client to the server.
use distributed_logger.Base.{
  ◌≡◌, refl, inl, inr, true, false, List, [], ◌∷◌, arith, take, be_bytes, from_be_acc,
}
use distributed_logger.Client.PosixIo.State.{PosixIo}
use distributed_logger.Client.PosixIo.History.{Reach, here, next, sends, Kept, Reach-Kept}
use distributed_logger.Server.Decoder.{ok}
use distributed_logger.Server.Listener
use distributed_logger.Server.Listener.{Read, step}
use distributed_logger.Server.Storage.{decode_batch}
use distributed_logger.Server.Storage.Batch.{event_of, payload_of}
use distributed_logger.EndToEnd.{delivered}
use distributed_logger.Tests.Data.{
  log0, schemas, packet0, buffer0, buffer0-IsFresh, frame0, idle, idle-IsGood, answers,
}
use distributed_logger.Tests.Client.{log_event-args0, send-idle}

abbrev sent : PosixIo
sent = record idle { wire = frame0; log_posted_cnt = 1; log_sent_cnt = 1 }

abbrev history : Reach idle (buffer0 ∷ []) sent
history =
    next here
      (sends (answers 25) buffer0 sent buffer0-IsFresh (omega arith) (inl (omega arith)) send-idle)

Reach-Kept_example : Kept idle (buffer0 ∷ []) sent
Reach-Kept_example = Reach-Kept idle-IsGood (inr (omega arith)) history

abbrev reads : List Read
reads =
    record { bytes = take 2 frame0; failed = false }
    ∷ record { bytes = 0 ∷ 21 ∷ []; failed = false }
    ∷ record { bytes = packet0; failed = false }
    ∷ []

delivered_example :
    let server = Listener.run reads Listener.initial in
    (sent.fd ≡ idle.fd)
    × (server.enqueued ≡ payload_of log0 ∷ [])
    × (server.goes_on ≡ true)
    × (decode_batch schemas server.enqueued ≡ ok (event_of log0 ∷ []))
unfolding Listener.initial step be_bytes from_be_acc
delivered_example =
    delivered schemas (log0 ∷ []) (buffer0 ∷ []) idle sent reads idle-IsGood (inr (omega arith))
      refl refl history (tt, inr (inl refl)) refl (log_event-args0, tt)
      (record { counted = (tt, (tt, tt)); small = omega arith; long = omega arith }, tt)
      (record { number = omega arith; types = refl; values = omega arith }, tt)
      (refl, omega arith, (refl, omega arith, (refl, omega arith, tt))) refl
