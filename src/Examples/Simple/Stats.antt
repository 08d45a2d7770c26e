-- ===== src/Examples/Simple/Stats.antt =====
-- The statistics of a thread of the blocking client.
use distributed_logger.Base.{
  ℕ, ◌+◌, ◌*◌, ◌<◌, ◌≡◌, refl, subst, true, false, ◌||◌, Option, none, some, arith, length, mod64,
}
use mathlib.Core.Option
use distributed_logger.Client.PosixIo.State.{
  PosixIo, Reply, ConnectReply, Run, done, exits, fault, ◌>>=◌, is_plain, is_empty,
  set_queue_max_size,
}
use distributed_logger.Client.PosixIo.Connection.{make}
use distributed_logger.Client.PosixIo.Pending.{Ends}
use distributed_logger.Examples.Params.{LoopParams, queue_limit}
use distributed_logger.Examples.Posix.{record_stats}
use distributed_logger.Examples.Params.Sums.{IsBalanced, Account}
use distributed_logger.Examples.Posix.Balance.{Ran-IsBalanced}
use distributed_logger.Examples.Posix.Unused.{
  IsUnused, make-IsUnused, limited-IsUnused, unused-IsGood, unused-IsWithin,
}
use distributed_logger.Examples.Posix.Logs.{length-logs_at}
use distributed_logger.Examples.Simple.{host, goes_on, loop, run_loop}
use distributed_logger.Examples.Simple.Accounts.{
  AllReplies, Turns, Ended, logs_from, times_from, length-times_from, loop-Ended,
}

reports :
    (clock : ℕ → ℕ) (n : ℕ) (p : LoopParams) (io : PosixIo) (o : Run (Option PosixIo))
    → IsUnused io
    → Ends (is_plain io) (Ended clock p 0 n io) o
    → (rounds : ℕ) × (last : PosixIo) × (p' : LoopParams) × (o ≡ done (some last))
      × ((o >>= λ e. done (Option.map (record_stats p) e)) ≡ done (some p'))
      × Turns clock p.time_to_run_sec 0 rounds
      × IsBalanced (2 * rounds) (length last.queue) p'
reports clock n p io (done none) u h = absurd h
reports clock n p io (done (some io')) u (rounds, few, turns, ran) =
    let times = times_from clock 0 rounds in
    let count : length (logs_from clock p 0 rounds) ≡ 2 * rounds =
      omega (arith, length-logs_at p.shard host times, length-times_from clock 0 rounds) in
    (
      rounds,
      io',
      record_stats p io',
      refl,
      refl,
      turns,
      subst (λ m. IsBalanced m (length io'.queue) (record_stats p io')) count
          (Ran-IsBalanced (logs_from clock p 0 rounds) p io io' u ran),
    )
reports clock n p io (exits m) u h = let e = u.plain in cc
reports clock n p io fault u h = absurd h

-- The account of a run: the rounds in which the loop's test holds until it fails, and the logs in the
-- queue of the transport that the loop leaves.
pub record IsRun (fuel : ℕ) (clock : ℕ → ℕ) (replies : ℕ → Reply) (r : ConnectReply)
    (p : LoopParams) (a : Account) : Type 0 where
  pub first : PosixIo
  pub last : PosixIo
  pub made : make p.logserverhost p.logserverport p.certificate p.key p.trusted r ≡ done first
  pub turns : Turns clock p.time_to_run_sec 0 a.rounds
  pub ended :
      loop fuel clock replies p 0 (set_queue_max_size (queue_limit p) first) ≡ done (some last)
  pub left : a.queued ≡ length last.queue

-- A thread of the plain blocking client returns, whether or not it has a connection, once the clock
-- passes the time to run: if that is at its `n`-th round, with fuel for it and `write` accepting no
-- more than it is offered, it makes two logs in each round up to the first whose test of the time fails,
-- and reports them all: each as submitted or dropped, and of the submitted ones all as sent but those
-- that its loop left in the queue of the transport.
pub run_loop-IsBalanced :
    (fuel n : ℕ) (clock : ℕ → ℕ) (replies : ℕ → Reply) (r : ConnectReply) (p : LoopParams)
    → is_empty p.certificate || is_empty p.key ≡ true
    → n < fuel
    → goes_on clock p.time_to_run_sec n ≡ false
    → AllReplies replies
    → 128 * n < mod64
    → (a : Account) × (p' : LoopParams) × (run_loop fuel clock replies r p ≡ done (some p'))
      × IsRun fuel clock replies r p a
      × IsBalanced (2 * a.rounds) a.queued p'
unfolding run_loop
run_loop-IsBalanced fuel n clock replies r p plain enough late a room =
    let (io, made, u0) =
      make-IsUnused p.logserverhost p.logserverport p.certificate p.key p.trusted r plain in
    let io1 = set_queue_max_size (queue_limit p) io in
    let u = limited-IsUnused (queue_limit p) io u0 in
    let late' : goes_on clock p.time_to_run_sec (0 + n) ≡ false =
      subst (λ i. goes_on clock p.time_to_run_sec i ≡ false) zero_add late in
    let run =
      loop-Ended fuel n clock replies p 0 io1 enough late' a (unused-IsGood io1 u)
        (unused-IsWithin io1 u) (omega (arith, u.queue_size, room)) in
    let (rounds, last, p', ended, eq, turns, balanced) =
      reports clock n p io1 (loop fuel clock replies p 0 io1) u run in
    (
      record { rounds = rounds; queued = length last.queue },
      p',
      rw made eq,
      record { first = io; last = last; made = made; turns = turns; ended = ended; left = refl },
      balanced,
    )
  where
    zero_add : n ≡ 0 + n
    zero_add = omega arith
