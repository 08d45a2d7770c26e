-- ===== src/Client/PosixIo/Connection.antt =====
-- `initialize_connection`, `fixAsyncMode`, `setAsyncMode`, the constructor and the shutdown.
use distributed_logger.Base.{
  ℕ, zero, suc, Bool, true, false, not, Option, none, some, List, if◌then◌else◌,
}
use distributed_logger.Client.PosixIo.State.{
  PosixIo, ConnectReply, Run, done, exits, is_plain, initial,
}

-- `fixAsyncMode`: each `fcntl` that fails is only logged.
unfoldable pub fix_async_mode : ConnectReply → PosixIo → PosixIo
fix_async_mode r io =
    if r.get_flags
    then (if r.set_flags then record io { nonblocking = io.async_mode } else io)
    else io

-- What follows either way of connecting: `setsockopt` does not matter, then `fixAsyncMode`.
abbrev pub finish : ConnectReply → PosixIo → Run PosixIo
finish r io = done (fix_async_mode r io)

-- `CHK_NULL`, `CHK_ERR` and the other tests that end the process.
abbrev or_exit {ℓ} : {A : Type ℓ} → Bool → ℕ → Run A → Run A
or_exit true code rest = rest
or_exit false code rest = exits code

-- The plain connection from `socket` on. The port is a literal in the source.
unfoldable pub dial_plain : ConnectReply → Option ℕ → PosixIo → Run PosixIo
unfolding fix_async_mode
dial_plain r none io = done (record io { fd = none })
dial_plain r (some zero) io = done (record io { fd = none })
dial_plain r (some (suc n)) io =
    if r.connect
    then finish r (record io {
      fd = some (suc n);
      connected = true;
      socket_open = true;
      nonblocking = false;
      dialled = some 7777;
    })
    else done (record io { fd = none; dialled = some 7777 })

-- The source also looks at a second entry, which nothing writes; what stands there is taken not to be the
-- number AF_INET.
unfoldable pub connect_plain : ConnectReply → PosixIo → Run PosixIo
connect_plain r io =
    if not r.resolved then done io else if r.first_inet then dial_plain r r.socket io else done io

-- The TLS connection from `socket` on.
dial_tls : ConnectReply → Option ℕ → PosixIo → Run PosixIo
dial_tls r none io = exits 1
dial_tls r (some n) io = or_exit r.connect 1 (
    or_exit r.session 1 (
      or_exit r.peer_certificate 1 (
        or_exit r.subject 1 (
          or_exit r.issuer 1 (
            finish r (record io {
              fd = some n;
              ssl = true;
              connected = true;
              socket_open = true;
              nonblocking = false;
              dialled = some io.port;
            }))))))

unfoldable pub connect_tls : ConnectReply → PosixIo → Run PosixIo
unfolding dial_tls fix_async_mode
connect_tls r io = or_exit r.context 1 (
    or_exit r.certificate 3
      (or_exit r.private_key 4 (or_exit r.key_matches 5 (dial_tls r r.socket io))))

unfoldable pub initialize_connection : ConnectReply → PosixIo → Run PosixIo
unfolding connect_plain connect_tls
initialize_connection r io = if is_plain io then connect_plain r io else connect_tls r io

-- The constructor.
unfoldable pub make : List ℕ → ℕ → List ℕ → List ℕ → List ℕ → ConnectReply → Run PosixIo
unfolding initial initialize_connection
make remote_host port cert key trusted r =
    initialize_connection r (initial remote_host port cert key trusted)

unfoldable pub set_async_mode : Bool → ConnectReply → PosixIo → PosixIo
unfolding fix_async_mode
set_async_mode mode r io =
    let io' = record io { async_mode = mode } in
    if io.async_mode
    then (if mode then io' else fix_async_mode r io')
    else if mode
    then fix_async_mode r io'
    else io'

-- `connectionGracefulShutdown`: the socket goes, the fields of the class stay.
unfoldable pub connection_graceful_shutdown : PosixIo → PosixIo
connection_graceful_shutdown io = record io { socket_open = false }
