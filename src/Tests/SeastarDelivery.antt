-- ===== src/Tests/SeastarDelivery.antt =====
-- A log that the Seastar client writes, from the generated function to the server.
use distributed_logger.Base.{
  ℕ, from_be_acc, ◌%◌, ◌≡◌, refl, true, false, some, List, [], ◌∷◌, ◌++◌, arith, take, replicate,
  length-replicate, mod64, be_bytes,
}
use distributed_logger.Client.SeastarBuffer.{SeastarBuffer, get_buffer}
use distributed_logger.Client.SeastarBuffer
use distributed_logger.Client.SeastarBuffer.Contract.{seastar_buffer}
use distributed_logger.Client.Logger.{log_event, total_length, encode_all, encode_uint64}
use distributed_logger.Client.SeastarIo.{
  SeastarIo, make, initialize_connected_socket, reconnect, timer_fires, connect_completes, transmit,
  write_completes, send,
}
use distributed_logger.Client.SeastarIo.Trace.{
  Reach, created, connects, fires, completes, writes, sends,
}
use distributed_logger.Server.Decoder.{ok}
use distributed_logger.Server.Listener
use distributed_logger.Server.Listener.{Read, step}
use distributed_logger.Server.Storage.{decode_batch}
use distributed_logger.Server.Storage.Batch.{event_of, payload_of}
use distributed_logger.EndToEnd.Seastar.{AllBuilt, seastar_delivered}
use distributed_logger.Tests.Data.{log0, schemas, packet0, frame0}

abbrev zeros : ℕ → List ℕ
zeros n = replicate n 0

abbrev connected : SeastarIo
connected = connect_completes true (timer_fires (reconnect make))

abbrev connected_history : Reach [] connected
unfolding reconnect make timer_fires
connected_history = completes true (omega arith) (fires refl (connects created))

abbrev block : List ℕ
block = replicate 4 0 ++ packet0

abbrev sending : SeastarIo
sending = record connected {
  log_posted_cnt = 1;
  queue_size = 25;
  transmitting = true;
  in_flight = some frame0;
}

sending-send : send block connected ≡ some sending
unfolding send transmit reconnect make timer_fires connect_completes initialize_connected_socket
    be_bytes
sending-send = refl

abbrev sending_history : Reach (frame0 ∷ []) sending
unfolding send transmit reconnect make timer_fires connect_completes initialize_connected_socket
    be_bytes
sending_history = sends block sending (omega arith) (omega arith) sending-send connected_history

abbrev written : SeastarIo
written = write_completes true frame0 sending

abbrev buffer : SeastarBuffer
buffer = record { buffer = block; read_offset = 0; write_offset = 25 }

buffer-built :
    log_event (seastar_buffer zeros (λ n. length-replicate n 0)) 0 log0.args ≡ some buffer
unfolding log_event total_length encode_all encode_uint64 SeastarBuffer.make
    SeastarBuffer.write_data SeastarBuffer.set_write_offset be_bytes
buffer-built = refl

abbrev all_built : AllBuilt zeros (λ n. length-replicate n 0) [] (log0 ∷ []) (frame0 ∷ [])
unfolding get_buffer be_bytes
all_built = ((buffer, buffer-built, refl), tt)

abbrev reads : List Read
reads =
    record { bytes = take 2 frame0; failed = false }
    ∷ record { bytes = 0 ∷ 21 ∷ []; failed = false }
    ∷ record { bytes = packet0; failed = false }
    ∷ []

seastar_delivered_example :
    let server = Listener.run reads Listener.initial in
    (server.enqueued ≡ payload_of log0 ∷ [])
    × (server.goes_on ≡ true)
    × (decode_batch schemas server.enqueued ≡ ok (event_of log0 ∷ []))
    × (written.log_sent_cnt ≡ 1 % mod64)
unfolding Listener.initial step be_bytes from_be_acc write_completes transmit send reconnect make
    timer_fires connect_completes initialize_connected_socket
seastar_delivered_example =
    seastar_delivered zeros (λ n. length-replicate n 0) [] schemas (log0 ∷ []) reads
      (writes true frame0 refl sending_history) refl all_built
      (record { counted = (tt, (tt, tt)); small = omega arith; long = omega arith }, tt)
      (record { number = omega arith; types = refl; values = omega arith }, tt)
      (refl, omega arith, (refl, omega arith, (refl, omega arith, tt))) refl
