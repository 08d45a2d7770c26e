-- ===== src/Examples/Posix/Readable.antt =====
-- The server's description of the functions of the examples, and that it reads their logs.
use distributed_logger.Base.{ℕ, ◌≤◌, ◌<◌, refl, List, [], ◌∷◌, arith, length, All, mod32, mod64}
use distributed_logger.Client.Logger.{to_size_t}
use distributed_logger.Server.EventDecoder.{ParamType}
use distributed_logger.Server.Storage.Batch.{Log, IsKnown}
use distributed_logger.EndToEnd.{IsFramed}
use distributed_logger.Examples.Posix.Logs.{round_logs, logs_at, frame_size_0, frame_size_1}

-- The functions of examples/example_header.hh: the types of their arguments behind the event.
abbrev pub functions : List (List ParamType)
functions =
    (ParamType.uint64 ∷ ParamType.string ∷ [])
    ∷ (ParamType.uint64 ∷ ParamType.string ∷ ParamType.uint64 ∷ [])
    ∷ []

-- A log that the server reads back.
pub record IsRead (l : Log) : Type 0 where
  pub framed : IsFramed l
  pub known : IsKnown functions l

below_size : (shard : ℕ) → shard < mod32 → to_size_t shard < mod64
below_size shard h = ground arith

round-IsRead :
    (shard : ℕ) (host : List ℕ) (now : ℕ)
    → shard < mod32
    → length host ≤ 34
    → now < mod64
    → All IsRead (round_logs shard host now)
round-IsRead shard host now h short t =
    let size0 = frame_size_0 shard host in
    let size1 = frame_size_1 shard host now in
    let size = below_size shard h in
    (
      record {
        framed = record {
          counted = (tt, (tt, tt));
          small = omega (arith, size0, short);
          long = omega (arith, size0);
        };
        known = record {
          number = omega arith;
          types = refl;
          values = (size, (omega (arith, short), tt));
        };
      },
      (
        record {
          framed = record {
            counted = (tt, (tt, (tt, tt)));
            small = omega (arith, size1, short);
            long = omega (arith, size1);
          };
          known = record {
            number = omega arith;
            types = refl;
            values = (size, (omega (arith, short), (t, tt)));
          };
        },
        tt,
      ),
    )

pub logs_at-IsRead :
    (shard : ℕ) (host times : List ℕ)
    → shard < mod32
    → length host ≤ 34
    → All (λ t. t < mod64) times
    → All IsRead (logs_at shard host times)
logs_at-IsRead shard host [] h short a = tt
logs_at-IsRead shard host (now ∷ times) h short a =
    let both = round-IsRead shard host now h short a.0 in
    (both.0, (both.1.0, logs_at-IsRead shard host times h short a.1))

pub frames_hold : (logs : List Log) → All IsRead logs → All IsFramed logs
frames_hold [] a = tt
frames_hold (l ∷ logs) a = (a.0.framed, frames_hold logs a.1)

pub schemas_hold : (logs : List Log) → All IsRead logs → All (IsKnown functions) logs
schemas_hold [] a = tt
schemas_hold (l ∷ logs) a = (a.0.known, schemas_hold logs a.1)
