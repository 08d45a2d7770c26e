-- ===== src/Examples/Params.antt =====
-- examples/common/common.{hh,cc}: the parameters of the example clients, their options, and the totals
-- that the clients print.
pub mod Sums
use distributed_logger.Base.{
  ℕ, zero, suc, ◌+◌, ◌%◌, Bool, Option, none, some, List, [], ◌∷◌, map, if◌then◌else◌, ◌>>=◌, mod32,
  add64, ℤ, pos,
}
use mathlib.Core.Option
use distributed_logger.Client.Logger.{to_size_t}

-- An `int` is its bit pattern below 2 ^ 32. A statistic is `none` while it is not initialised.
pub record LoopParams : Type 0 where
  pub logserverhost : List ℕ
  pub logserverport : ℕ
  pub certificate : List ℕ
  pub key : List ℕ
  pub trusted : List ℕ
  pub queuesize : ℕ
  pub time_to_run_sec : ℕ
  pub shard : ℕ
  pub cores : ℤ
  pub logs_submitted : Option ℕ
  pub logs_dropped : Option ℕ
  pub logs_sent : Option ℕ

-- The text 127.0.0.1.
abbrev pub localhost : List ℕ
localhost = b'1' ∷ b'2' ∷ b'7' ∷ b'.' ∷ b'0' ∷ b'.' ∷ b'0' ∷ b'.' ∷ b'1' ∷ []

-- The constructor.
unfoldable pub make : LoopParams
make = record {
  logserverhost = localhost;
  logserverport = 7777;
  certificate = [];
  key = [];
  trusted = [];
  queuesize = 0;
  time_to_run_sec = 60;
  shard = 0;
  cores = pos 0;
  logs_submitted = some 0;
  logs_dropped = some 0;
  logs_sent = some 0;
}

-- The copy constructor: it does not set the statistics.
unfoldable pub clone : LoopParams → LoopParams
clone other = record other { logs_submitted = none; logs_dropped = none; logs_sent = none }

-- The options that the command line has, with the library's default values filled in.
pub record Options : Type 0 where
  pub help : Bool
  pub time : Option ℕ
  pub certificate : Option (List ℕ)
  pub key : Option (List ℕ)
  pub trusted : Option (List ℕ)
  pub host : Option (List ℕ)
  pub port : Option ℕ
  pub size : Option ℕ
  pub cores : Option ℤ

-- `if (vm.count(…)) field = …`
abbrev pub or_keep {ℓ} : {A : Type ℓ} → Option A → A → A
or_keep none old = old
or_keep (some new) old = new

abbrev pub set_options : Options → LoopParams → LoopParams
set_options o p = record p {
  time_to_run_sec = or_keep (Option.map to_size_t o.time) p.time_to_run_sec;
  certificate = or_keep o.certificate p.certificate;
  key = or_keep o.key p.key;
  trusted = or_keep o.trusted p.trusted;
  logserverhost = or_keep o.host p.logserverhost;
  logserverport = or_keep o.port p.logserverport;
  queuesize = or_keep (Option.map (λ n. n % mod32) o.size) p.queuesize;
  cores = or_keep o.cores p.cores;
}

-- `get_common_options`: the library's answer is `none` where it throws.
unfoldable pub get_common_options : Option Options → LoopParams → ℕ × LoopParams
get_common_options none p = (2, p)
get_common_options (some o) p = if o.help then (2, p) else (0, set_options o p)

-- What a client hands to `setQueueMaxSize`.
abbrev pub queue_limit : LoopParams → ℕ
queue_limit p = to_size_t p.queuesize

-- A thread's statistics.
abbrev pub set_stats : ℕ → ℕ → ℕ → LoopParams → LoopParams
set_stats submitted dropped sent p = record p {
  logs_submitted = some submitted;
  logs_dropped = some dropped;
  logs_sent = some sent;
}

-- The three totals of a client.
pub record Totals : Type 0 where
  pub submitted : ℕ
  pub dropped : ℕ
  pub sent : ℕ

-- The parameters of the threads with the shards `first`, `first + 1` and so on.
unfoldable pub clones : ℕ → ℕ → LoopParams → List LoopParams
unfolding clone
clones zero first p = []
clones (suc n) first p = record (clone p) { shard = first } ∷ clones n (first + 1) p

-- The loop over the threads behind `pthread_join`; `none` where a statistic is read that was never set.
unfoldable pub add_stats : LoopParams → Totals → Option Totals
add_stats p t = do
  submitted ← p.logs_submitted
  dropped ← p.logs_dropped
  sent ← p.logs_sent
  some (record {
    submitted = add64 t.submitted submitted;
    dropped = add64 t.dropped dropped;
    sent = add64 t.sent sent;
  })

unfoldable pub totals_from : List LoopParams → Totals → Option Totals
totals_from [] t = some t
totals_from (p ∷ threads) t = do t' ← add_stats p t; totals_from threads t'

unfoldable pub totals : List LoopParams → Option Totals
totals threads = totals_from threads (record { submitted = 0; dropped = 0; sent = 0 })
