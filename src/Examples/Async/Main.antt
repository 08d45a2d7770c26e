-- ===== src/Examples/Async/Main.antt =====
-- The epoll example as a whole.
use distributed_logger.Base.{
  ℕ, ◌*◌, ◌<◌, ◌≡◌, refl, true, false, ◌||◌, some, List, length, mod64, pos,
}
use distributed_logger.Client.PosixIo.State.{PosixIo, done, is_empty, get_fd}
use distributed_logger.Client.PosixIo.Connection.{make}
use distributed_logger.Examples.Params
use distributed_logger.Examples.Params.{LoopParams, Options, Totals, clone, set_options}
use distributed_logger.Examples.Params.Sums.{Account, Balances, all_logs, all_queued}
use distributed_logger.Examples.Posix.Threads.Printed.{AllOf, main_with-Balances}
use distributed_logger.Examples.Async.{Machine, run_on, thread_count, threads, main}
use distributed_logger.Examples.Async.Served.{RoundsServed, event_count}
use distributed_logger.Examples.Async.Stats.{PassesTime, prepared, IsRun, run_loop-IsServed}

-- The thread with these parameters is registered and served to the end of its time.
pub record IsTimed (p : LoopParams) (m : Machine) : Type 0 where
  pub added : m.added ≡ true
  pub late : PassesTime p m.start m.rounds
  pub few : 128 * event_count m.rounds < mod64
  pub served :
      (io : PosixIo)
      → make p.logserverhost p.logserverport p.certificate p.key p.trusted m.connection ≡ done io
      → RoundsServed p (get_fd (prepared m.flags p io)) m.rounds (prepared m.flags p io)

-- The account of the thread with these parameters, on its machine.
abbrev pub IsOf : (ℕ → Machine) → LoopParams → Account → Type 0
IsOf env p = let m = env p.shard in IsRun m.start m.rounds m.connection m.flags p

-- Let the epoll example be started without `--help` and without both a certificate and a key, on a
-- machine with `online` processors, and let each thread's socket be registered and its time to run be
-- over at one of its rounds, no write accepting more than it is offered or failing. Then `main` returns
-- 0, and the totals that it prints account for the logs of as many threads as `--cores` says, or as there
-- are processors where it is 0, two for each event in the rounds of a thread before the first that is
-- behind the time to run: each as submitted or dropped, and of the submitted ones all as sent but those
-- that the threads' loops left in the queues of their transports.
pub async_main-Balances :
    (o : Options) (online : ℕ) (env : ℕ → Machine)
    → o.help ≡ false
    → (let p = set_options o Params.make in is_empty p.certificate || is_empty p.key ≡ true)
    → ((s : ℕ) → IsTimed (record (clone (set_options o Params.make)) { shard = s }) (env s))
    → (accounts : List Account) × (t : Totals) × (main (pos online) env (some o)
        ≡ done (some (0, some t)))
      × (length accounts ≡ thread_count (pos online) (set_options o Params.make))
      × AllOf (IsOf env) (set_options o Params.make) 1 accounts
      × Balances (all_logs accounts) (all_queued accounts) t
unfolding main run_on threads clone
async_main-Balances o online env no_help plain timed =
    main_with-Balances (run_on env) (IsOf env) (threads (pos online))
      (thread_count (pos online) (set_options o Params.make)) o no_help refl
      (λ s.
        let m = env s in
        let i = timed s in
        let p = record (clone (set_options o Params.make)) { shard = s } in
        let (a, p', e, of, b) =
          run_loop-IsServed m.start m.rounds m.connection m.flags p plain i.late i.few i.served in
        (a, p', rw i.added e, of, b))
