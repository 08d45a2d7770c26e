-- ===== src/Examples/Simple/Main.antt =====
-- The blocking example as a whole.
use distributed_logger.Base.{
  ℕ, ◌-◌, ◌*◌, ◌<◌, ◌≡◌, refl, true, false, ◌||◌, some, List, length, mod64, pos,
}
use distributed_logger.Client.PosixIo.State.{done, is_empty}
use distributed_logger.Examples.Params
use distributed_logger.Examples.Params.{LoopParams, Options, Totals, clone, set_options}
use distributed_logger.Examples.Params.Sums.{Account, Balances, all_logs, all_queued}
use distributed_logger.Examples.Posix.Threads.Printed.{AllOf, main_with-Balances}
use distributed_logger.Examples.Simple.{goes_on, Machine, run_on, threads, main}
use distributed_logger.Examples.Simple.Accounts.{AllReplies}
use distributed_logger.Examples.Simple.Stats.{IsRun, run_loop-IsBalanced}

-- The thread of a machine has `time` to run, which is over at one of its rounds.
pub record IsTimed (time : ℕ) (m : Machine) : Type 0 where
  pub rounds : ℕ
  pub enough : rounds < m.fuel
  pub late : goes_on m.clock time rounds ≡ false
  pub replies : AllReplies m.replies
  pub few : 128 * rounds < mod64

-- The account of the thread with these parameters, on its machine.
abbrev pub IsOf : (ℕ → Machine) → LoopParams → Account → Type 0
IsOf env p = let m = env p.shard in IsRun m.fuel m.clock m.replies m.connection p

-- Let the blocking example be started without `--help` and without both a certificate and a key, on a
-- machine with `online` processors, and let the time to run of each thread be over at one of its
-- rounds, with fuel for it, whose writes accept no more than they are offered. Then `main` returns 0,
-- whether or not the threads have connections, and the totals that it prints account for the logs of one
-- thread less than there are processors, two for each round of a thread up to the first whose test of
-- the time fails: each as submitted or dropped, and of the submitted ones all as sent but those that
-- the threads' loops left in the queues of their transports.
pub simple_main-Balances :
    (o : Options) (online : ℕ) (env : ℕ → Machine)
    → o.help ≡ false
    → (let p = set_options o Params.make in is_empty p.certificate || is_empty p.key ≡ true)
    → ((s : ℕ) → IsTimed (set_options o Params.make).time_to_run_sec (env s))
    → (accounts : List Account) × (t : Totals) × (main (pos online) env (some o)
        ≡ done (some (0, some t)))
      × (length accounts ≡ online - 1)
      × AllOf (IsOf env) (set_options o Params.make) 1 accounts
      × Balances (all_logs accounts) (all_queued accounts) t
unfolding main run_on threads clone
simple_main-Balances o online env no_help plain timed =
    main_with-Balances (run_on env) (IsOf env) (threads (pos online)) (online - 1) o no_help refl
      (λ s.
        let m = env s in
        let i = timed s in
        let p = record (clone (set_options o Params.make)) { shard = s } in
        run_loop-IsBalanced m.fuel i.rounds m.clock m.replies m.connection p plain i.enough i.late
          i.replies i.few)
