-- ===== src/Examples/Posix/Logs.antt =====
-- The logs that the POSIX examples make.
use distributed_logger.Base.{
  ℕ, ◌+◌, ◌*◌, ◌≡◌, refl, ap, List, [], ◌∷◌, ◌++◌, arith, length, length-append, length-be_bytes,
}
use distributed_logger.Client.Logger.Wire.{payload}
use distributed_logger.Server.Storage.Batch.{Log}
use distributed_logger.Examples.Posix.{event0_args, event1_args}

-- The logs of an example.
abbrev pub event0_log : ℕ → List ℕ → Log
event0_log shard host = record { event = 0; args = event0_args shard host }

abbrev pub event1_log : ℕ → List ℕ → ℕ → Log
event1_log shard host now = record { event = 1; args = event1_args shard host now }

pub frame_size_0 :
    (shard : ℕ) (host : List ℕ) → 4 + length (payload 0 (event0_args shard host)) ≡ 22 + length host
frame_size_0 shard host = simp (length-append, length-be_bytes) (omega arith)

pub frame_size_1 :
    (shard : ℕ) (host : List ℕ) (now : ℕ)
    → 4 + length (payload 1 (event1_args shard host now)) ≡ 30 + length host
frame_size_1 shard host now = simp (length-append, length-be_bytes) (omega arith)

-- The logs of a round.
abbrev pub round_logs : ℕ → List ℕ → ℕ → List Log
round_logs shard host now = event0_log shard host ∷ event1_log shard host now ∷ []

-- The logs of rounds at the given times.
abbrev pub logs_at : ℕ → List ℕ → List ℕ → List Log
logs_at shard host [] = []
logs_at shard host (now ∷ times) = round_logs shard host now ++ logs_at shard host times

pub logs_at-append :
    (shard : ℕ) (host xs ys : List ℕ)
    → logs_at shard host (xs ++ ys) ≡ logs_at shard host xs ++ logs_at shard host ys
logs_at-append shard host [] ys = refl
logs_at-append shard host (now ∷ xs) ys =
    ap (λ rest. round_logs shard host now ++ rest) (logs_at-append shard host xs ys)

pub length-logs_at :
    (shard : ℕ) (host times : List ℕ) → length (logs_at shard host times) ≡ 2 * length times
length-logs_at shard host [] = refl
length-logs_at shard host (now ∷ times) = omega (arith, length-logs_at shard host times)
