-- ===== src/Tests/Mains.antt =====
-- The POSIX examples on a machine with three processors.
use distributed_logger.Base.{
  ℕ, suc, ◌≡◌, refl, inl, inr, true, false, none, some, List, [], ◌∷◌, arith, length, pos,
}
use distributed_logger.Client.PosixBuffer.{PosixBuffer}
use distributed_logger.Client.PosixIo.State.{done}
use distributed_logger.Client.PosixIo.Flush.{AllTaken}
use distributed_logger.Examples.Params
use distributed_logger.Examples.Params.{Options, Totals, set_options}
use distributed_logger.Examples.Params.Sums.{Account, Balances, all_logs, all_queued}
use distributed_logger.Examples.Posix.Threads.Printed.{AllOf}
use distributed_logger.Examples.Simple
use distributed_logger.Examples.Simple.Main as SimpleMain
use distributed_logger.Examples.Simple.Main.{simple_main-Balances}
use distributed_logger.Examples.Async
use distributed_logger.Examples.Async.Main as AsyncMain
use distributed_logger.Examples.Async.Main.{async_main-Balances}
use distributed_logger.Tests.Data.{answers, no_connection}

-- Two seconds to run.
abbrev options : Options
options = record {
  help = false;
  time = some 2;
  certificate = none;
  key = none;
  trusted = none;
  host = none;
  port = none;
  size = none;
  cores = none;
}

abbrev machine : Simple.Machine
machine = record { fuel = 2; clock = λ i. i; replies = λ i. answers 36; connection = no_connection }

simple_main-Balances_example :
    (accounts : List Account) × (t : Totals) × (Simple.main (pos 3) (λ s. machine) (some options)
      ≡ done (some (0, some t)))
    × (length accounts ≡ 2)
    × AllOf (SimpleMain.IsOf (λ s. machine)) (set_options options Params.make) 1 accounts
    × Balances (all_logs accounts) (all_queued accounts) t
unfolding Params.make
simple_main-Balances_example =
    simple_main-Balances options 3 (λ s. machine) refl refl
      (λ s. record {
        rounds = 1;
        enough = omega arith;
        late = refl;
        replies = λ k. (inl (omega arith), inl (omega arith));
        few = omega arith;
      })

-- One round with one event, to whose writes the system answers 0, and a round behind the time to run.
abbrev epoll_machine : Async.Machine
epoll_machine = record {
  start = 0;
  rounds =
      record {
        time = 1;
        events =
            record { now = 1; first = answers 0; second = answers 0; writes = λ i. answers 0 } ∷ [];
      }
      ∷ record { time = 9; events = [] }
      ∷ [];
  connection = no_connection;
  flags = no_connection;
  added = true;
}

none-AllTaken : (q : List PosixBuffer) (i : ℕ) → AllTaken q i (λ j. answers 0)
none-AllTaken [] i = tt
none-AllTaken (b ∷ q) i = (omega arith, none-AllTaken q (suc i))

async_main-Balances_example :
    (accounts : List Account) × (t : Totals) × (Async.main
        (pos 3)
        (λ s. epoll_machine)
        (some options)
      ≡ done (some (0, some t)))
    × (length accounts ≡ 3)
    × AllOf (AsyncMain.IsOf (λ s. epoll_machine)) (set_options options Params.make) 1 accounts
    × Balances (all_logs accounts) (all_queued accounts) t
unfolding Params.make Params.clone
async_main-Balances_example =
    async_main-Balances options 3 (λ s. epoll_machine) refl refl
      (λ s. record {
        added = refl;
        late = inr (inl refl);
        few = omega arith;
        served = λ io made. (
          (
            record {
              first = inl (omega arith);
              second = inl (omega arith);
              writes = λ io' e. none-AllTaken io'.queue 0;
            },
            λ io' e. tt,
          ),
          λ io' e. (tt, λ io'' e'. tt),
        );
      })
