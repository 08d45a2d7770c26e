-- ===== src/Examples/Posix/Threads.antt =====
-- What `main` of the POSIX examples does with its threads.
pub mod Printed
use distributed_logger.Base.{ℕ, zero, Option, none, some, List, [], ◌∷◌, ◌==◌, if◌then◌else◌}
use mathlib.Core.Option
use distributed_logger.Client.PosixIo.State.{Run, done, ◌>>=◌}
use distributed_logger.Examples.Params
use distributed_logger.Examples.Params.{LoopParams, Options, Totals, get_common_options, totals}

-- The parameters of a thread that has ended before those of the others.
abbrev pub both : Option LoopParams → Option (List LoopParams) → Option (List LoopParams)
both none rest = none
both (some p) none = none
both (some p) (some rest) = some (p ∷ rest)

-- The threads, in the order of the calls of `pthread_join`: their parameters at the end, or `none` where
-- a loop is cut off.
unfoldable pub join_all :
    (LoopParams → Run (Option LoopParams)) → List LoopParams → Run (Option (List LoopParams))
join_all run [] = done (some [])
join_all run (p ∷ threads) = do ended ← run p; rest ← join_all run threads; done (both ended rest)

-- `main`, over the threads that it creates: what it returns, with the totals that it prints.
unfoldable pub main_with :
    (LoopParams → List LoopParams)
    → (LoopParams → Run (Option LoopParams))
    → Option Options
    → Run (Option (ℕ × Option Totals))
unfolding Params.make
main_with threads run o =
    let (rc, p) = get_common_options o Params.make in
    if rc == 0
    then (do ended ← join_all run (threads p); done (Option.map (λ ps. (zero, totals ps)) ended))
    else done (some (rc, none))
