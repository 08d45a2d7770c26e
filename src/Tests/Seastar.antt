-- ===== src/Tests/Seastar.antt =====
-- The Seastar buffer and transport: a log that is sent, and one whose write fails.
use distributed_logger.Base.{
  ℕ, ◌≡◌, refl, true, false, some, List, [], ◌∷◌, ◌++◌, arith, replicate, be_bytes,
}
use distributed_logger.Client.SeastarIo.{
  SeastarIo, make, set_queue_max_size, initialize_connected_socket, reconnect, timer_fires,
  connect_completes, transmit, write_completes, send,
}
use distributed_logger.Client.SeastarIo.Trace.{
  Reach, IsTraced, created, limits, connects, fires, completes, writes, sends,
}
use distributed_logger.Client.SeastarIo
use distributed_logger.Client.SeastarIo.Down
use distributed_logger.Client.SeastarIo.Down.{StillDown, failed_write_strands}
use distributed_logger.Client.SeastarTlsIo
use distributed_logger.Client.SeastarTlsIo.{SeastarTlsIo, BuilderReply}
use distributed_logger.Client.SeastarTlsIo.Credentials
use distributed_logger.Client.SeastarTlsIo.Credentials.{failed_credentials_strand}
use distributed_logger.Client.SeastarIo.Histories.{Reach-IsTraced, refused_fill_queue}

abbrev block : List ℕ
block = replicate 4 0 ++ (7 ∷ 8 ∷ [])

abbrev framed_block : List ℕ
framed_block = 0 ∷ 0 ∷ 0 ∷ 2 ∷ 7 ∷ 8 ∷ []

abbrev asked : SeastarIo
asked = reconnect (set_queue_max_size 6 make)

abbrev up : SeastarIo
up = connect_completes true (timer_fires asked)

abbrev up_history : Reach [] up
unfolding reconnect set_queue_max_size make timer_fires
up_history = completes true (omega arith) (fires refl (connects (limits 6 created)))

abbrev sending : SeastarIo
sending = record up {
  log_posted_cnt = 1;
  queue_size = 6;
  transmitting = true;
  in_flight = some framed_block;
}

sending-send : send block up ≡ some sending
unfolding send transmit reconnect set_queue_max_size make timer_fires connect_completes
    initialize_connected_socket be_bytes
sending-send = refl

abbrev sending_history : Reach (framed_block ∷ []) sending
unfolding send transmit reconnect set_queue_max_size make timer_fires connect_completes
    initialize_connected_socket be_bytes
sending_history = sends block sending (omega arith) (omega arith) sending-send up_history

abbrev sent_block : SeastarIo
sent_block = write_completes true framed_block sending

Reach-IsTraced_example : IsTraced (framed_block ∷ []) sent_block
Reach-IsTraced_example = Reach-IsTraced (writes true framed_block refl sending_history)

-- The write fails, and the client connects again.
abbrev failed : SeastarIo
failed = write_completes false framed_block sending

abbrev up_again : SeastarIo
up_again = connect_completes true (timer_fires (reconnect failed))

abbrev up_again_history : Reach (framed_block ∷ []) up_again
unfolding write_completes transmit reconnect set_queue_max_size make timer_fires connect_completes
    initialize_connected_socket
up_again_history =
    completes true (omega arith)
      (fires refl (connects (writes false framed_block refl sending_history)))

refused_fill_queue_example : send block up_again ≡ some (record up_again { log_dropped_cnt = 1 })
unfolding write_completes transmit reconnect set_queue_max_size make timer_fires connect_completes
    initialize_connected_socket
refused_fill_queue_example =
    refused_fill_queue block up_again_history (λ e. cc) (omega arith) (omega arith) (omega arith)

failed_write_strands_example : StillDown failed (record failed { log_dropped_cnt = 1 })
unfolding send connect_completes initialize_connected_socket timer_fires reconnect
    set_queue_max_size make write_completes transmit
failed_write_strands_example =
    failed_write_strands sending framed_block refl refl (Down.sends block refl Down.here)

-- Credentials whose key file is missing.
abbrev credentials : SeastarTlsIo
unfolding SeastarTlsIo.make SeastarIo.make SeastarTlsIo.build_client_credentials
credentials = record (SeastarTlsIo.make (1 ∷ []) (2 ∷ []) []) { building = 1 }

abbrev no_key : BuilderReply
no_key = record { trust_file = true; key_file = false; credentials = true }

failed_credentials_strand_example :
    StillDown credentials.io (SeastarTlsIo.credentials_complete no_key credentials).io
unfolding SeastarTlsIo.make SeastarIo.make SeastarTlsIo.build_client_credentials
failed_credentials_strand_example =
    failed_credentials_strand credentials no_key refl refl
      (record { unconnected = refl; unarmed = refl; no_attempt = refl; no_write = refl })
      Credentials.here
