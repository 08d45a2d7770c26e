-- ===== src/Client/PosixIo/State.antt =====
-- The fields of PosixIO, its constructor's first values, its getters, and what the system calls that
-- it makes may answer.
use distributed_logger.Base.{ℕ, Bool, true, false, ◌||◌, Option, none, some, List, [], ◌∷◌}
use distributed_logger.Client.PosixBuffer.{PosixBuffer}

-- The answers to the calls of one `initialize_connection`. The first four are those of the plain
-- connection: `first_inet` tells whether the entry that gethostbyname_r writes is of AF_INET, the other
-- entry, which nothing writes, being taken not to be; `socket` is `none` for -1, and `connect` tells
-- whether `connect` gave 0.
pub record ConnectReply : Type 0 where
  pub resolved : Bool
  pub first_inet : Bool
  pub socket : Option ℕ
  pub connect : Bool
  pub context : Bool
  pub certificate : Bool
  pub private_key : Bool
  pub key_matches : Bool
  pub session : Bool
  pub peer_certificate : Bool
  pub subject : Bool
  pub issuer : Bool
  pub get_flags : Bool
  pub set_flags : Bool

-- The answer to `write` or `SSL_write`, as the 64 bits of an `ssize_t`; `errno` behind the call; and
-- the answers for a connection that the code may then set up.
pub record Reply : Type 0 where
  pub ret : ℕ
  pub errno : ℕ
  pub connection : ConnectReply

-- The 64 bits of -1.
abbrev pub minus_one : ℕ
minus_one = 18446744073709551615

-- A call returns, ends the process by `exit`, or reads or writes memory outside a block.
pub data Run {ℓ} (A : Type ℓ) : Type ℓ where
  done : A → Run A
  exits : ℕ → Run A
  fault : Run A

infixl 5 ◌>>=◌
abbrev pub ◌>>=◌ {ℓ κ} : {A : Type ℓ} {B : Type κ} → Run A → (A → Run B) → Run B
done a >>= f = f a
exits n >>= f = exits n
fault >>= f = fault

abbrev pub or_fault {ℓ} : {A : Type ℓ} → Option A → Run A
or_fault none = fault
or_fault (some a) = done a

-- The fields of the class; `fd` is `none` for -1, and `ssl` tells whether `_ssl` is set. The last four
-- are the system's: whether the socket is open and non-blocking, the port that was dialled last, and
-- the bytes that the sockets have accepted so far.
pub record PosixIo : Type 0 where
  pub remote_host : List ℕ
  pub port : ℕ
  pub cert : List ℕ
  pub key : List ℕ
  pub trusted : List ℕ
  pub fd : Option ℕ
  pub ssl : Bool
  pub queue : List PosixBuffer
  pub connected : Bool
  pub async_mode : Bool
  pub queue_max_size : ℕ
  pub queue_size : ℕ
  pub log_posted_cnt : ℕ
  pub log_dropped_cnt : ℕ
  pub log_sent_cnt : ℕ
  pub socket_open : Bool
  pub nonblocking : Bool
  pub dialled : Option ℕ
  pub wire : List ℕ

abbrev pub is_empty {ℓ} : {A : Type ℓ} → List A → Bool
is_empty [] = true
is_empty (x ∷ xs) = false

-- `_cert == "" || _key == ""`
abbrev pub is_plain : PosixIo → Bool
is_plain io = is_empty io.cert || is_empty io.key

-- The member initialisers of the constructor.
unfoldable pub initial : List ℕ → ℕ → List ℕ → List ℕ → List ℕ → PosixIo
initial remote_host port cert key trusted = record {
  remote_host = remote_host;
  port = port;
  cert = cert;
  key = key;
  trusted = trusted;
  fd = none;
  ssl = false;
  queue = [];
  connected = false;
  async_mode = false;
  queue_max_size = 0;
  queue_size = 0;
  log_posted_cnt = 0;
  log_dropped_cnt = 0;
  log_sent_cnt = 0;
  socket_open = false;
  nonblocking = false;
  dialled = none;
  wire = [];
}

unfoldable pub set_queue_max_size : ℕ → PosixIo → PosixIo
set_queue_max_size n io = record io { queue_max_size = n }

unfoldable pub get_queue_size : PosixIo → ℕ
get_queue_size io = io.queue_size

unfoldable pub get_logs_posted_count : PosixIo → ℕ
get_logs_posted_count io = io.log_posted_cnt

unfoldable pub get_logs_dropped_count : PosixIo → ℕ
get_logs_dropped_count io = io.log_dropped_cnt

unfoldable pub get_logs_sent_count : PosixIo → ℕ
get_logs_sent_count io = io.log_sent_cnt

unfoldable pub get_fd : PosixIo → Option ℕ
get_fd io = io.fd

unfoldable pub is_connected : PosixIo → Bool
is_connected io = io.connected

unfoldable pub is_queue_empty : PosixIo → Bool
is_queue_empty io = is_empty io.queue

unfoldable pub get_async_mode : PosixIo → Bool
get_async_mode io = io.async_mode
