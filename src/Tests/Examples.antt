-- ===== src/Tests/Examples.antt =====
-- The example clients.
use distributed_logger.Base.{
  ℕ, suc, ◌+◌, ◌*◌, ◌%◌, ◌^◌, ◌≤◌, ◌<◌, ◌≡◌, refl, ◌↔◌, ◌⊎◌, inl, inr, true, false, none, some,
  List, [], ◌∷◌, arith, replicate, length-replicate, mod64,
}
use distributed_logger.Client.PosixIo.State.{done}
use distributed_logger.Client.PosixIo.Flush.{AllTaken}
use distributed_logger.Client.PosixBuffer.{PosixBuffer}
use distributed_logger.Client.SeastarIo
use distributed_logger.Client.SeastarIo.{SeastarIo}
use distributed_logger.Examples.Params
use distributed_logger.Examples.Params.{
  LoopParams, Options, Totals, clone, totals, queue_limit, get_common_options,
}
use distributed_logger.Examples.Params.Sums.{Account, IsBalanced}
use distributed_logger.Examples.Simple
use distributed_logger.Examples.Simple.Stats as SimpleStats
use distributed_logger.Examples.Simple.Stats.{run_loop-IsBalanced}
use distributed_logger.Examples.Async
use distributed_logger.Examples.Async.Stats as AsyncStats
use distributed_logger.Examples.Async.Stats.{run_loop-IsServed}
use distributed_logger.Examples.Limits.{size_option}
use distributed_logger.Examples.Seastar
use distributed_logger.Examples.Seastar.Spin.{unconnected_spins}
use distributed_logger.Tests.Data.{answers, no_connection}

-- Two seconds to run, with a queue of 1000 bytes.
abbrev params : LoopParams
unfolding Params.make
params = record Params.make { time_to_run_sec = 2; queuesize = 1000 }

run_loop-IsBalanced_example :
    (a : Account) × (p' : LoopParams) × (Simple.run_loop 2
        (λ i. i)
        (λ i. answers 36)
        no_connection
        params
      ≡ done (some p'))
    × SimpleStats.IsRun 2 (λ i. i) (λ i. answers 36) no_connection params a
    × IsBalanced (2 * a.rounds) a.queued p'
unfolding Params.make
run_loop-IsBalanced_example =
    run_loop-IsBalanced 2 1 (λ i. i) (λ i. answers 36) no_connection params refl (omega arith) refl
      (λ k. (inl (omega arith), inl (omega arith))) (omega arith)

-- One round with one event, to whose writes the system answers 0, and a round behind the time to run.
abbrev rounds : List Async.Round
rounds =
    record {
      time = 1;
      events =
          record { now = 1; first = answers 0; second = answers 0; writes = λ i. answers 0 } ∷ [];
    }
    ∷ record { time = 9; events = [] }
    ∷ []

zero-AllTaken : (q : List PosixBuffer) (i : ℕ) → AllTaken q i (λ j. answers 0)
zero-AllTaken [] i = tt
zero-AllTaken (b ∷ q) i = (omega arith, zero-AllTaken q (suc i))

run_loop-IsServed_example :
    (a : Account) × (p' : LoopParams) × (Async.run_loop 0 rounds no_connection no_connection true
        params
      ≡ done (some p'))
    × AsyncStats.IsRun 0 rounds no_connection no_connection params a
    × IsBalanced (2 * a.rounds) a.queued p'
unfolding Params.make
run_loop-IsServed_example =
    run_loop-IsServed 0 rounds no_connection no_connection params refl (inr (inl refl))
      (omega arith)
      (λ io made. (
        (
          record {
            first = inl (omega arith);
            second = inl (omega arith);
            writes = λ io' e. zero-AllTaken io'.queue 0;
          },
          λ io' e. tt,
        ),
        λ io' e. (tt, λ io'' e'. tt),
      ))

-- 4 GB.
abbrev options : Options
options = record {
  help = false;
  time = none;
  certificate = none;
  key = none;
  trusted = none;
  host = none;
  port = none;
  size = some 4294967296;
  cores = none;
}

size_option_example :
    let p' = (get_common_options (some options) params).1 in
    ((queue_limit (clone p') ≡ 4294967296)
      ↔ ((4294967296 < 2 ^ 31) ⊎ (mod64 ≤ 4294967296 + 2 ^ 31)))
    × ((queue_limit (clone p') ≡ 0) ↔ (4294967296 % 2 ^ 32 ≡ 0))
size_option_example = size_option options params 4294967296 refl refl (omega arith)

abbrev seastar_rounds : List Seastar.Round
seastar_rounds =
    record { time = 1; now = 1; others = λ io. record io { connected = true } }
    ∷ record { time = 9; now = 9; others = λ io. io }
    ∷ []

unconnected_spins_example :
    Seastar.loop
      (λ n. replicate n 0)
      (λ n. length-replicate n 0)
      []
      params
      1
      0
      seastar_rounds
      SeastarIo.make
    ≡ some (true, SeastarIo.make)
unfolding Params.make SeastarIo.make
unconnected_spins_example =
    unconnected_spins (λ n. replicate n 0) (λ n. length-replicate n 0) [] params 1 0 seastar_rounds
      SeastarIo.make refl (inr (inl refl))
