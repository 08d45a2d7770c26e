-- ===== src/Client/SeastarTlsIo.antt =====
-- client/seastar_io/SeastarTLS_IO.{hh,cc}: SeastarIO with credentials. It overrides `reconnect`, whose
-- timer first builds the credentials; all else is inherited.
pub mod Credentials
use distributed_logger.Base.{ℕ, suc, ◌-◌, Bool, true, false, ◌&&◌, List, if◌then◌else◌}
use distributed_logger.Client.PosixIo.State.{is_empty}
use distributed_logger.Client.SeastarIo
use distributed_logger.Client.SeastarIo.{SeastarIo}

-- The fields of the class beside those that it inherits; `building` counts the calls of
-- `buildClientCredentials` under way.
pub record SeastarTlsIo : Type 0 where
  pub io : SeastarIo
  pub certificate : List ℕ
  pub key : List ℕ
  pub trusted : List ℕ
  pub building : ℕ

-- The constructor.
unfoldable pub make : List ℕ → List ℕ → List ℕ → SeastarTlsIo
make certificate key trusted = record {
  io = SeastarIo.make;
  certificate = certificate;
  key = key;
  trusted = trusted;
  building = 0;
}

-- What the builder's operations answer: whether each has no exception.
pub record BuilderReply : Type 0 where
  pub trust_file : Bool
  pub key_file : Bool
  pub credentials : Bool

-- `buildClientCredentials`, as whether its future has a value.
unfoldable pub build_client_credentials : BuilderReply → SeastarTlsIo → Bool
build_client_credentials r t =
    if is_empty t.trusted
    then r.key_file && r.credentials
    else r.trust_file && (r.key_file && r.credentials)

-- `reconnect`
unfoldable pub reconnect : SeastarTlsIo → SeastarTlsIo
reconnect t = if t.io.timer_armed then t else record t { io = record t.io { timer_armed = true } }

-- The callback of the timer.
unfoldable pub timer_fires : SeastarTlsIo → SeastarTlsIo
timer_fires t = record t { io = record t.io { timer_armed = false }; building = suc t.building }

-- What follows the credentials. The handler of exceptions stands behind `seastar::tls::connect` only.
unfoldable pub credentials_complete : BuilderReply → SeastarTlsIo → SeastarTlsIo
unfolding build_client_credentials
credentials_complete r t =
    let t' = record t { building = t.building - 1 } in
    if build_client_credentials r t
    then record t' { io = record t.io { connecting = suc t.io.connecting } }
    else t'

-- What follows `seastar::tls::connect`, with or without a socket.
unfoldable pub connect_completes : Bool → SeastarTlsIo → SeastarTlsIo
unfolding reconnect SeastarIo.initialize_connected_socket
connect_completes ok t =
    let t' = record t { io = record t.io { connecting = t.io.connecting - 1 } } in
    if ok then record t' { io = SeastarIo.initialize_connected_socket t'.io } else reconnect t'
