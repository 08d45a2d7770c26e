-- ===== src/Client/SeastarIo.antt =====
-- client/seastar_io/SeastarIO.{hh,cc}: the transport over Seastar's futures. A call, a timer that
-- fires, and a future that completes are steps of their own; what follows a completed write, up to the
-- next test of the loop, is one step. A block that `send` is given is the list of its bytes.
pub mod Trace
pub mod Steps
pub mod Histories
pub mod Down
pub mod Connected
use distributed_logger.Base.{
  ℕ, suc, ◌-◌, ◌%◌, Bool, true, false, ◌&&◌, ◌||◌, not, Option, none, some, List, [], ◌∷◌, ◌++◌,
  ltb, leb, ◌==◌, if◌then◌else◌, length, overwrite, mod32, add64, sub64, be_bytes,
}
use distributed_logger.Client.PosixIo.State.{is_empty}

-- The fields of the class. `in_flight` is the block that a write under way holds; `connecting` counts
-- the calls of `seastar::connect` under way, and `outcomes` are the writes that have completed.
pub record SeastarIo : Type 0 where
  pub wqueue : List (List ℕ)
  pub connected : Bool
  pub transmitting : Bool
  pub queue_max_size : ℕ
  pub queue_size : ℕ
  pub log_posted_cnt : ℕ
  pub log_dropped_cnt : ℕ
  pub log_sent_cnt : ℕ
  pub shutting_down : Bool
  pub timer_armed : Bool
  pub connecting : ℕ
  pub in_flight : Option (List ℕ)
  pub outcomes : List (Bool × List ℕ)

-- The constructor.
unfoldable pub make : SeastarIo
make = record {
  wqueue = [];
  connected = false;
  transmitting = false;
  queue_max_size = 0;
  queue_size = 0;
  log_posted_cnt = 0;
  log_dropped_cnt = 0;
  log_sent_cnt = 0;
  shutting_down = false;
  timer_armed = false;
  connecting = 0;
  in_flight = none;
  outcomes = [];
}

unfoldable pub set_queue_max_size : ℕ → SeastarIo → SeastarIo
set_queue_max_size n io = record io { queue_max_size = n }

-- `initializeConnectedSocket`
unfoldable pub initialize_connected_socket : SeastarIo → SeastarIo
initialize_connected_socket io = record io { connected = true }

-- `reconnect`, and `connect`, which only calls it.
unfoldable pub reconnect : SeastarIo → SeastarIo
reconnect io = if io.timer_armed then io else record io { timer_armed = true }

-- The callback of the timer.
unfoldable pub timer_fires : SeastarIo → SeastarIo
timer_fires io = record io { timer_armed = false; connecting = suc io.connecting }

-- What follows `seastar::connect`, with or without a socket.
unfoldable pub connect_completes : Bool → SeastarIo → SeastarIo
unfolding initialize_connected_socket reconnect
connect_completes ok io =
    let io' = record io { connecting = io.connecting - 1 } in
    if ok then initialize_connected_socket io' else reconnect io'

-- What `disconnect` does behind `_tx_finished`, up to the closing of the streams.
unfoldable pub shut_down : SeastarIo → SeastarIo
shut_down io = record io { shutting_down = true }

-- `disconnect`, with what happens until `_tx_finished`. The connection is tested before that.
unfoldable pub disconnect : (SeastarIo → SeastarIo) → SeastarIo → SeastarIo
unfolding shut_down
disconnect until_finished io = if not io.connected then io else shut_down (until_finished io)

-- One test of the loop, and the start of the next write or the end of the transmission.
unfoldable pub transmit : List (List ℕ) → SeastarIo → SeastarIo
transmit [] io = record io { transmitting = false; in_flight = none; wqueue = [] }
transmit (buf ∷ rest) io =
    if not io.connected || io.shutting_down
    then record io { transmitting = false; in_flight = none; wqueue = buf ∷ rest }
    else record io { transmitting = true; in_flight = some buf; wqueue = rest }

-- What follows `_out.write` of `buf`, with or without an exception, and the next test of the loop.
unfoldable pub write_completes : Bool → List ℕ → SeastarIo → SeastarIo
unfolding transmit
write_completes ok buf io =
    let io' = record io { outcomes = io.outcomes ++ ((ok, buf) ∷ []) } in
    let bufsize = length buf in
    if ok
    then transmit io.wqueue (record io' {
      queue_size = io.queue_size - (if leb io.queue_size bufsize then io.queue_size else bufsize);
      log_sent_cnt = add64 io.log_sent_cnt 1;
    })
    else transmit io.wqueue (record io' { transmitting = false; connected = false })

-- The first test of `send`.
abbrev pub is_full : List ℕ → SeastarIo → Bool
is_full buf io =
    not (io.queue_max_size == 0) && ltb io.queue_max_size (add64 io.queue_size (length buf))

-- The block with its length word, as `send` leaves it.
abbrev pub with_length : List ℕ → List ℕ
with_length buf = overwrite buf 0 (be_bytes 4 (sub64 (length buf) 4 % mod32))

-- `none` where the length word does not fit into the block.
unfoldable pub send : List ℕ → SeastarIo → Option SeastarIo
unfolding transmit
send buf io =
    if is_full buf io
    then some (record io { log_dropped_cnt = add64 io.log_dropped_cnt 1 })
    else if io.shutting_down || not io.connected
    then some io
    else if leb 4 (length buf)
    then (let io' = record io {
      log_posted_cnt = add64 io.log_posted_cnt 1;
      queue_size = add64 io.queue_size (length buf);
      wqueue = io.wqueue ++ (with_length buf ∷ []);
    } in
        if io.transmitting then some io' else some (transmit io'.wqueue io'))
    else none

-- `connectionGracefulShutdown` throws out of a `noexcept` method, which ends the process: `none`.
unfoldable pub connection_graceful_shutdown : SeastarIo → Option SeastarIo
connection_graceful_shutdown io = none
