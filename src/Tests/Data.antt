-- ===== src/Tests/Data.antt =====
-- The inputs that the tests share: two logs, the buffers and packets made of them, and a transport.
use distributed_logger.Base.{ℕ, refl, true, false, some, List, [], ◌∷◌, ◌++◌, arith, replicate}
use distributed_logger.Client.PosixBuffer.{PosixBuffer, IsValid}
use distributed_logger.Client.PosixIo.State.{PosixIo, Reply, ConnectReply, minus_one}
use distributed_logger.Client.PosixIo.Pending.{IsGood, IsPending}
use distributed_logger.Client.PosixIo.Accept.{IsFresh}
use distributed_logger.Client.Logger.{Arg}
use distributed_logger.Server.EventDecoder.{ParamType}
use distributed_logger.Server.Storage.Batch.{Log}

-- LogEvent_event0(1, "hi!") and LogEvent_event1(2, "hi!").
abbrev pub hi : List ℕ
hi = 104 ∷ 105 ∷ 33 ∷ []

abbrev pub args0 : List Arg
args0 = Arg.uint64 1 ∷ Arg.string hi ∷ []

abbrev pub log0 : Log
log0 = record { event = 0; args = args0 }

abbrev pub schemas : List (List ParamType)
schemas = (ParamType.uint64 ∷ ParamType.string ∷ []) ∷ []

abbrev pub packet0 : List ℕ
packet0 = replicate 15 0 ++ (1 ∷ 0 ∷ 3 ∷ hi)

abbrev pub buffer0 : PosixBuffer
buffer0 = record {
  buffer = replicate 4 0 ++ packet0;
  size = 25;
  read_offset = 0;
  write_offset = 25;
}

abbrev pub frame0 : List ℕ
frame0 = 0 ∷ 0 ∷ 0 ∷ 21 ∷ packet0

-- The buffer as it stands in the queue, with its length word.
abbrev pub queued0 : PosixBuffer
queued0 = record buffer0 { buffer = frame0 }

abbrev pub buffer0-IsValid : IsValid buffer0
buffer0-IsValid = record {
  block = refl;
  small = omega arith;
  read_in = omega arith;
  write_in = omega arith;
}

abbrev pub buffer0-IsFresh : IsFresh buffer0
buffer0-IsFresh = record {
  valid = buffer0-IsValid;
  unread = refl;
  room = omega arith;
  below_2gb = omega arith;
}

abbrev pub queued0-IsPending : IsPending queued0
queued0-IsPending = record {
  valid = record {
    block = refl;
    small = omega arith;
    read_in = omega arith;
    write_in = omega arith;
  };
  left = omega arith;
  below_2gb = omega arith;
}

abbrev pub no_connection : ConnectReply
no_connection = record {
  resolved = true;
  first_inet = true;
  socket = some 5;
  connect = false;
  context = true;
  certificate = true;
  private_key = true;
  key_matches = true;
  session = true;
  peer_certificate = true;
  subject = true;
  issuer = true;
  get_flags = true;
  set_flags = true;
}

abbrev pub answers : ℕ → Reply
answers n = record { ret = n; errno = 0; connection = no_connection }

-- EAGAIN
abbrev pub fails : Reply
fails = record { ret = minus_one; errno = 11; connection = no_connection }

-- A connected transport in blocking mode, with room for 100 bytes in its queue.
abbrev pub idle : PosixIo
idle = record {
  remote_host = 104 ∷ [];
  port = 9000;
  cert = [];
  key = [];
  trusted = [];
  fd = some 5;
  ssl = false;
  queue = [];
  connected = true;
  async_mode = false;
  queue_max_size = 100;
  queue_size = 0;
  log_posted_cnt = 0;
  log_dropped_cnt = 0;
  log_sent_cnt = 0;
  socket_open = true;
  nonblocking = false;
  dialled = some 7777;
  wire = [];
}

-- The same with one log in its queue.
abbrev pub busy : PosixIo
busy = record idle { queue = queued0 ∷ []; queue_size = 25; log_posted_cnt = 1 }

abbrev pub idle-IsGood : IsGood idle
idle-IsGood = record { pending = tt; counted = refl; in_range = omega arith }

abbrev pub busy-IsGood : IsGood busy
busy-IsGood = record {
  pending = (queued0-IsPending, tt);
  counted = omega arith;
  in_range = omega arith;
}
