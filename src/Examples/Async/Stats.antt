-- ===== src/Examples/Async/Stats.antt =====
-- The loop of the epoll client to its end, and what its thread reports.
use distributed_logger.Base.{
  ℕ, ◌+◌, ◌*◌, ◌<◌, ◌≡◌, refl, sym, ap, ◌∙◌, subst, ◌⊎◌, inl, inr, Bool, true, false, ◌||◌, Option,
  none, some, List, [], ◌∷◌, ◌++◌, arith, ltb, if◌then◌else◌, Bool-cases, length, mod64, sub64,
}
use mathlib.Core.Option
use mathlib.Core.List.Sublistᴰ
use distributed_logger.Client.PosixIo.State.{
  PosixIo, ConnectReply, Run, done, exits, fault, ◌>>=◌, is_plain, is_empty, set_queue_max_size,
  get_fd,
}
use distributed_logger.Client.PosixIo.Connection.{
  make, set_async_mode, fix_async_mode, connection_graceful_shutdown,
}
use distributed_logger.Client.PosixIo.Pending.{IsGood, Ends}
use distributed_logger.Client.PosixIo.History.{IsWithin, Reach-Kept}
use distributed_logger.Examples.Params.{LoopParams, queue_limit}
use distributed_logger.Examples.Params.Sums.{IsBalanced, Account}
use distributed_logger.Examples.Posix.{record_stats}
use distributed_logger.Examples.Posix.Balance.{Ran-IsBalanced}
use distributed_logger.Examples.Posix.Logs.{logs_at, length-logs_at}
use distributed_logger.Examples.Posix.Ran.{Ran-refl, length-sublist}
use distributed_logger.Examples.Posix.Unused.{
  IsUnused, make-IsUnused, limited-IsUnused, unused-IsGood, unused-IsWithin,
}
use distributed_logger.Examples.Async.{host, Round, on_events, loop, run_loop}
use distributed_logger.Examples.Async.Served.{
  RoundsServed, IsRegistered, RanEvents, RanEvents-trans, event_count, times, all_times,
  length-times, Ends-bind_eq, on_events-Ran,
}

-- The test of the loop.
abbrev pub in_time : LoopParams → ℕ → Round → Bool
in_time p start r = ltb (sub64 r.time start) p.time_to_run_sec

-- Some round comes when the time to run is over.
abbrev pub PassesTime : LoopParams → ℕ → List Round → Type 0
PassesTime p start [] = ⊥
PassesTime p start (r ∷ rounds) = (in_time p start r ≡ false) ⊎ PassesTime p start rounds

-- The number of the events in the rounds before the first that is behind the time to run.
abbrev pub events_in_time : LoopParams → ℕ → List Round → ℕ
events_in_time p start [] = 0
events_in_time p start (r ∷ rounds) =
    let later = events_in_time p start rounds in
    if in_time p start r then length r.events + later else 0

-- The loop ended by its test, behind `n` events of these times.
abbrev pub Ended : LoopParams → Option ℕ → List ℕ → ℕ → PosixIo → Option PosixIo → Type 0
Ended p registered at n io none = ⊥
Ended p registered at n io (some io') = RanEvents p registered at n io io'

after_round :
    (p : LoopParams) (registered : Option ℕ) (at later : List ℕ) (m n : ℕ) (io io1 : PosixIo)
    (o : Run (Option PosixIo))
    → RanEvents p registered at m io io1
    → Ends (is_plain io1) (Ended p registered later n io1) o
    → Ends (is_plain io) (Ended p registered (at ++ later) (m + n) io) o
after_round p registered at later m n io io1 (done none) ran h = h
after_round p registered at later m n io io1 (done (some io2)) ran h =
    RanEvents-trans p registered at later m n io io1 io2 ran h
after_round p registered at later m n io io1 (exits c) (xs, some_of, ran, exact) h =
    sym ran.plain ∙ h
after_round p registered at later m n io io1 fault ran h = h

loop-cons :
    (p : LoopParams) (start : ℕ) (registered : Option ℕ) (r : Round) (rounds : List Round)
    (io : PosixIo)
    → loop p start registered (r ∷ rounds) io ≡ (
        if in_time p start r
        then (on_events p registered r.events io >>= loop p start registered rounds)
        else done (some io))
unfolding loop
loop-cons p start registered r rounds io = ground arith

module _ (p : LoopParams) (start : ℕ) (registered : Option ℕ) where
  stops :
      (at : List ℕ) (r : Round) (rounds : List Round) (io : PosixIo)
      → in_time p start r ≡ false
      → Ends
          (is_plain io)
          (Ended p registered at (events_in_time p start (r ∷ rounds)) io)
          (loop p start registered (r ∷ rounds) io)
  stops at r rounds io off =
      let going = on_events p registered r.events io >>= loop p start registered rounds in
      subst (Ends (is_plain io) (Ended p registered at (events_in_time p start (r ∷ rounds)) io))
        (sym (
          loop-cons p start registered r rounds io
          ∙ ap (λ c. if c then going else done (some io)) off))
        ([], Sublistᴰ.nil-sublist at, Ran-refl io, λ here. (rw off refl, here))

  pub loop-Ended :
      (rounds : List Round) (io : PosixIo)
      → PassesTime p start rounds
      → IsGood io
      → IsWithin io
      → io.queue_size + 128 * event_count rounds < mod64
      → RoundsServed p registered rounds io
      → Ends
          (is_plain io)
          (Ended p registered (all_times rounds) (events_in_time p start rounds) io)
          (loop p start registered rounds io)
  loop-Ended [] io t g w room s = absurd t
  loop-Ended (r ∷ rounds) io (inl off) g w room s = stops (all_times (r ∷ rounds)) r rounds io off
  loop-Ended (r ∷ rounds) io (inr t) g w room s = elim (Bool-cases (in_time p start r)) [
    | inr off ↦ stops (all_times (r ∷ rounds)) r rounds io off
    | inl on ↦
        subst
          (Ends (is_plain io)
            (Ended p registered (all_times (r ∷ rounds)) (events_in_time p start (r ∷ rounds)) io))
          (sym (
            loop-cons p start registered r rounds io
            ∙ ap (λ c. if c then going else done (some io)) on))
          (Ends-bind_eq (is_plain io) (RanEvents p registered (times r.events) (length r.events) io)
            (Ended p registered (all_times (r ∷ rounds)) (events_in_time p start (r ∷ rounds)) io)
            (on_events p registered r.events io) (loop p start registered rounds)
            (on_events-Ran p registered r.events io g w (omega (arith, room)) s.0)
            (λ io1 eq ran.
              let kept = Reach-Kept g w ran.2.past in
              subst
                (λ n.
                  Ends (is_plain io) (Ended p registered (all_times (r ∷ rounds)) n io)
                    (loop p start registered rounds io1))
                (ap (λ c. if c then length r.events + events_in_time p start rounds else 0)
                  (sym on))
                (after_round p registered (times r.events) (all_times rounds) (length r.events)
                  (events_in_time p start rounds) io io1 (loop p start registered rounds io1) ran
                  (loop-Ended rounds io1 t kept.good kept.within
                    (omega (
                      arith,
                      room,
                      ran.2.size_le,
                      length-logs_at p.shard host ran.0,
                      length-sublist ran.1,
                      length-times r.events,
                    ))
                    (s.1 io1 eq)))))
  ]
    where
      going : Run (Option PosixIo)
      going = on_events p registered r.events io >>= loop p start registered rounds

async-IsUnused :
    (mode : Bool) (r : ConnectReply) (io : PosixIo)
    → IsUnused io
    → IsUnused (set_async_mode mode r io)
unfolding set_async_mode
async-IsUnused mode r io u = ground arith

-- The transport of a thread as it enters the loop.
abbrev pub prepared : ConnectReply → LoopParams → PosixIo → PosixIo
prepared flags p io = set_async_mode true flags (set_queue_max_size (queue_limit p) io)

prepared-async :
    (flags : ConnectReply) (p : LoopParams) (io : PosixIo) → (prepared flags p io).async_mode ≡ true
unfolding set_async_mode fix_async_mode
prepared-async flags p io = ground arith

reports :
    (at : List ℕ) (registered : Option ℕ) (n : ℕ) (p : LoopParams) (io : PosixIo)
    (o : Run (Option PosixIo))
    → IsUnused io
    → IsRegistered registered io
    → Ends (is_plain io) (Ended p registered at n io) o
    → (last : PosixIo) × (p' : LoopParams) × (o ≡ done (some last))
      × ((o >>= λ e.
            done (Option.map (λ last. record_stats p (connection_graceful_shutdown last)) e))
          ≡ done (some p'))
      × IsBalanced (2 * n) (length last.queue) p'
unfolding connection_graceful_shutdown
reports at registered n p io (done none) u here h = absurd h
reports at registered n p io (done (some io')) u here (handled, some_of, ran, exact) = (
  io',
  record_stats p io',
  refl,
  refl,
  subst (λ m. IsBalanced m (length io'.queue) (record_stats p io'))
      (length-logs_at p.shard host handled ∙ ap (λ k. 2 * k) (exact here).0)
      (Ran-IsBalanced (logs_at p.shard host handled) p io io' u ran),
)
reports at registered n p io (exits m) u here h = let e = u.plain in cc
reports at registered n p io fault u here h = absurd h

-- The account of a run: the events in the rounds before the first that is behind the time to run, and the
-- logs in the queue of the transport that the loop leaves.
pub record IsRun (start : ℕ) (rounds : List Round) (r flags : ConnectReply) (p : LoopParams)
    (a : Account) : Type 0 where
  pub first : PosixIo
  pub last : PosixIo
  pub made : make p.logserverhost p.logserverport p.certificate p.key p.trusted r ≡ done first
  pub handled : a.rounds ≡ events_in_time p start rounds
  pub ended :
      loop p start (get_fd (prepared flags p first)) rounds (prepared flags p first)
      ≡ done (some last)
  pub left : a.queued ≡ length last.queue

-- A thread of the plain epoll client whose socket is registered returns once the time to run is over
-- at some round, if `write` accepts no more than it is offered and does not fail: it makes two logs for
-- each event in the rounds before that one, and reports them all, each as submitted or dropped, and of
-- the submitted ones all as sent but those that its loop left in the queue of the transport.
pub run_loop-IsServed :
    (start : ℕ) (rounds : List Round) (r flags : ConnectReply) (p : LoopParams)
    → is_empty p.certificate || is_empty p.key ≡ true
    → PassesTime p start rounds
    → 128 * event_count rounds < mod64
    → ((io : PosixIo)
        → make p.logserverhost p.logserverport p.certificate p.key p.trusted r ≡ done io
        → RoundsServed p (get_fd (prepared flags p io)) rounds (prepared flags p io))
    → (a : Account) × (p' : LoopParams) × (run_loop start rounds r flags true p ≡ done (some p'))
      × IsRun start rounds r flags p a
      × IsBalanced (2 * a.rounds) a.queued p'
unfolding run_loop
run_loop-IsServed start rounds r flags p plain t room s =
    let (io, made, u0) =
      make-IsUnused p.logserverhost p.logserverport p.certificate p.key p.trusted r plain in
    let io1 = prepared flags p io in
    let u =
      async-IsUnused true flags (set_queue_max_size (queue_limit p) io)
        (limited-IsUnused (queue_limit p) io u0) in
    let (last, p', ended, eq, balanced) =
      reports (all_times rounds) (get_fd io1) (events_in_time p start rounds) p io1
        (loop p start (get_fd io1) rounds io1) u (refl, prepared-async flags p io)
        (loop-Ended p start (get_fd io1) rounds io1 t (unused-IsGood io1 u) (unused-IsWithin io1 u)
          (omega (arith, u.queue_size, room)) (s io made)) in
    (
      record { rounds = events_in_time p start rounds; queued = length last.queue },
      p',
      rw made eq,
      record { first = io; last = last; made = made; handled = refl; ended = ended; left = refl },
      balanced,
    )
