-- ===== src/Examples/Async/Served.antt =====
-- The loop of the epoll client where every write is served.
use distributed_logger.Base.{
  ℕ, ◌+◌, ◌*◌, ◌<◌, ◌≡◌, refl, sym, ap, ◌∙◌, subst, inl, inr, Bool, true, Option, none, some,
  ==_iff, List, [], ◌∷◌, arith, if◌then◌else◌, Bool-cases, length, mod64, ◌++◌, append-nil,
  length-append,
}
use distributed_logger.Client.PosixIo.State.{
  PosixIo, Reply, Run, done, exits, fault, ◌>>=◌, is_plain, get_fd,
}
use distributed_logger.Client.PosixIo.Drain.{on_write_opportunity}
use distributed_logger.Client.PosixIo.Pending.{IsGood, Ends}
use distributed_logger.Client.PosixIo.Flush.{AllTaken, on_write_opportunity_lem}
use distributed_logger.Client.PosixIo.History.{here, next, writes, IsWithin, Reach-Kept}
use mathlib.Core.List.{Sublistᴰ}
use mathlib.Core.List.Sublistᴰ
use distributed_logger.Server.Storage.Batch.{Log}
use distributed_logger.Examples.Params.{LoopParams}
use distributed_logger.Examples.Posix.{log_both}
use distributed_logger.Examples.Posix.Logs.{round_logs, logs_at, logs_at-append, length-logs_at}
use distributed_logger.Examples.Posix.Ran.{
  Ran, Ran-refl, Ran-trans, IsReply, log_both-Ran, length-sublist,
}
use distributed_logger.Client.PosixIo.Socket.{SameSocket}
use distributed_logger.Examples.Posix.Socket.{log_both-SameSocket}
use distributed_logger.Examples.Async.{host, Event, Round, same_fd, on_event, on_events}

-- The answers to the two sends and to the writes of an event accept no more than they are offered, and
-- no write fails.
pub record IsServed (p : LoopParams) (e : Event) (io : PosixIo) : Type 0 where
  pub first : IsReply 35 e.first
  pub second : IsReply 43 e.second
  pub writes :
      (io' : PosixIo)
      → log_both e.first e.second p.shard host e.now io ≡ done io'
      → AllTaken io'.queue 0 e.writes

abbrev pub AllServed : LoopParams → Option ℕ → List Event → PosixIo → Type 0
AllServed p registered [] io = Unit {0}
AllServed p registered (e ∷ events) io =
    IsServed p e io
    × ((io' : PosixIo) → on_event p registered e io ≡ done io' → AllServed p registered events io')

abbrev pub RoundsServed : LoopParams → Option ℕ → List Round → PosixIo → Type 0
RoundsServed p registered [] io = Unit {0}
RoundsServed p registered (r ∷ rounds) io =
    AllServed p registered r.events io
    × ((io' : PosixIo)
        → on_events p registered r.events io ≡ done io'
        → RoundsServed p registered rounds io')

-- The times of events, as the second log of each has it.
abbrev pub times : List Event → List ℕ
times [] = []
times (e ∷ events) = e.now ∷ times events

-- The socket is the registered one, in asynchronous mode.
abbrev pub IsRegistered : Option ℕ → PosixIo → Type 0
IsRegistered registered io = (get_fd io ≡ registered) × (io.async_mode ≡ true)

-- Some of the events at these times were handled, in their order, each with its two logs; and `n` of
-- them, with the socket as it was, if it is the registered one.
abbrev pub RanEvents : LoopParams → Option ℕ → List ℕ → ℕ → PosixIo → PosixIo → Type 0
RanEvents p registered at n io io' =
    (handled : List ℕ) × Sublistᴰ handled at
    × Ran io (logs_at p.shard host handled) io'
    × (IsRegistered registered io → (length handled ≡ n) × IsRegistered registered io')

pub RanEvents-trans :
    (p : LoopParams) (registered : Option ℕ) (at later : List ℕ) (m n : ℕ) (io io1 io2 : PosixIo)
    → RanEvents p registered at m io io1
    → RanEvents p registered later n io1 io2
    → RanEvents p registered (at ++ later) (m + n) io io2
RanEvents-trans p registered at later m n io io1 io2 (xs, some_of, ran, exact)
      (ys, some_of', ran', exact') =
    (
      xs ++ ys,
      Sublistᴰ.append some_of some_of',
      subst (λ made. Ran io made io2) (sym (logs_at-append p.shard host xs ys))
          (Ran-trans (logs_at p.shard host xs) (logs_at p.shard host ys) ran ran'),
      λ here.
          let (count, there) = exact here in
          let (count', last) = exact' there in
          (omega (arith, count, count', length-append xs ys), last),
    )

written-Ran :
    (made : List Log) (replies : ℕ → Reply) (io io1 : PosixIo)
    → IsGood io
    → IsWithin io
    → Ran io made io1
    → AllTaken io1.queue 0 replies
    → Ends
        (is_plain io)
        (λ io2. Ran io made io2 × SameSocket io1 io2)
        (on_write_opportunity replies io1)
written-Ran made replies io io1 g w ran a =
    let k = Reach-Kept g w ran.past in
    let (io2, eq, m) = on_write_opportunity_lem replies io1 k.good a in
    let moved : Ran io1 [] io2 = record {
      sent = [];
      past = next here (writes replies io2 a eq);
      accepted = [];
      built = tt;
      in_order = Sublistᴰ.slnil;
      counted = omega (arith, m.dropped);
      plain = simp (m.cert, m.key);
      size_le = omega (arith, m.size_le);
    } in
    subst (Ends (is_plain io) (λ x. Ran io made x × SameSocket io1 x)) (sym eq) (
      subst (λ l. Ran io l io2) (append-nil made) (Ran-trans made [] ran moved),
      record { fd = m.fd; mode = m.mode },
    )

-- A bind whose first call is `m`, with the equation of its answer handed on.
pub Ends-bind_eq :
    {A B : Type 0} (plain : Bool) (P : A → Type 0) (Q : B → Type 0) (m : Run A) (f : A → Run B)
    → Ends plain P m
    → ((a : A) → m ≡ done a → P a → Ends plain Q (f a))
    → Ends plain Q (m >>= f)
Ends-bind_eq plain P Q (done a) f h k = k a refl h
Ends-bind_eq plain P Q (exits n) f h k = h
Ends-bind_eq plain P Q fault f h k = h

one_event :
    (p : LoopParams) (registered : Option ℕ) (now : ℕ) (plain : Bool) (io io1 : PosixIo)
    (o : Run PosixIo)
    → (IsRegistered registered io → SameSocket io io1)
    → Ends plain (λ x. Ran io (round_logs p.shard host now) x × SameSocket io1 x) o
    → Ends plain (RanEvents p registered (now ∷ []) 1 io) o
unfolding get_fd
one_event p registered now plain io io1 (done io') same (ran, s) = (
  now ∷ [],
  Sublistᴰ.refl (now ∷ []),
  ran,
  λ here. let t = same here in (refl, (s.fd ∙ (t.fd ∙ here.0), s.mode ∙ (t.mode ∙ here.1))),
)
one_event p registered now plain io io1 (exits n) same h = h
one_event p registered now plain io io1 fault same h = h

same_fd_refl : (o registered : Option ℕ) → o ≡ registered → same_fd registered o ≡ true
same_fd_refl none none e = refl
same_fd_refl none (some n) e = cc
same_fd_refl (some m) none e = cc
same_fd_refl (some m) (some n) e = (==_iff n m).1 cc

on_event-Ran :
    (p : LoopParams) (registered : Option ℕ) (e : Event) (io : PosixIo)
    → IsGood io
    → IsWithin io
    → io.queue_size + 128 < mod64
    → IsServed p e io
    → Ends (is_plain io) (RanEvents p registered (e.now ∷ []) 1 io) (on_event p registered e io)
unfolding on_event
on_event-Ran p registered e io g w room s = elim (Bool-cases (same_fd registered (get_fd io))) [
  | inl same ↦
      subst (Ends (is_plain io) (RanEvents p registered (e.now ∷ []) 1 io)) (sym (ap test same))
        logged
  | inr other ↦
      subst (Ends (is_plain io) (RanEvents p registered (e.now ∷ []) 1 io)) (sym (ap test other)) (
        [],
        Sublistᴰ.nil-sublist (e.now ∷ []),
        Ran-refl io,
        λ here. let e' = same_fd_refl (get_fd io) registered here.0 in cc,
      )
]
  where
    round : Run PosixIo
    round = log_both e.first e.second p.shard host e.now io

    test : Bool → Run PosixIo
    test b = if b then round >>= on_write_opportunity e.writes else done io

    logged :
        Ends
          (is_plain io)
          (RanEvents p registered (e.now ∷ []) 1 io)
          (round >>= on_write_opportunity e.writes)
    logged =
        Ends-bind_eq (is_plain io) (Ran io (round_logs p.shard host e.now))
          (RanEvents p registered (e.now ∷ []) 1 io) round (on_write_opportunity e.writes)
          (log_both-Ran e.first e.second p.shard host e.now io (omega arith) s.first s.second g w
            room)
          (λ io1 eq ran.
            one_event p registered e.now (is_plain io) io io1 (on_write_opportunity e.writes io1)
              (λ here. log_both-SameSocket e.first e.second p.shard host e.now io io1 here.1 eq)
              (written-Ran (round_logs p.shard host e.now) e.writes io io1 g w ran
                (s.writes io1 eq)))

-- What follows the events of a history.
pub after_events :
    (p : LoopParams) (registered : Option ℕ) (at later : List ℕ) (m n : ℕ) (io io1 : PosixIo)
    (o : Run PosixIo)
    → RanEvents p registered at m io io1
    → Ends (is_plain io1) (RanEvents p registered later n io1) o
    → Ends (is_plain io) (RanEvents p registered (at ++ later) (m + n) io) o
after_events p registered at later m n io io1 (done io2) ran h =
    RanEvents-trans p registered at later m n io io1 io2 ran h
after_events p registered at later m n io io1 (exits c) (xs, some_of, ran, exact) h =
    sym ran.plain ∙ h
after_events p registered at later m n io io1 fault ran h = h

pub on_events-Ran :
    (p : LoopParams) (registered : Option ℕ) (events : List Event) (io : PosixIo)
    → IsGood io
    → IsWithin io
    → io.queue_size + 128 * length events < mod64
    → AllServed p registered events io
    → Ends
        (is_plain io)
        (RanEvents p registered (times events) (length events) io)
        (on_events p registered events io)
unfolding on_events
on_events-Ran p registered [] io g w room s =
    ([], Sublistᴰ.slnil, Ran-refl io, λ here. (refl, here))
on_events-Ran p registered (e ∷ events) io g w room s =
    Ends-bind_eq (is_plain io) (RanEvents p registered (e.now ∷ []) 1 io)
      (RanEvents p registered (times (e ∷ events)) (length (e ∷ events)) io)
      (on_event p registered e io) (on_events p registered events)
      (on_event-Ran p registered e io g w (omega (arith, room)) s.0)
      (λ io1 eq ran.
        let kept = Reach-Kept g w ran.2.past in
        subst
          (λ n.
            Ends (is_plain io) (RanEvents p registered (times (e ∷ events)) n io)
              (on_events p registered events io1))
          one_more
          (after_events p registered (e.now ∷ []) (times events) 1 (length events) io io1
            (on_events p registered events io1) ran
            (on_events-Ran p registered events io1 kept.good kept.within
              (omega (
                arith,
                room,
                ran.2.size_le,
                length-logs_at p.shard host ran.0,
                length-sublist ran.1,
              ))
              (s.1 io1 eq))))
  where
    one_more : 1 + length events ≡ length (e ∷ events)
    one_more = omega arith

abbrev pub event_count : List Round → ℕ
event_count [] = 0
event_count (r ∷ rounds) = length r.events + event_count rounds

abbrev pub all_times : List Round → List ℕ
all_times [] = []
all_times (r ∷ rounds) = times r.events ++ all_times rounds

pub length-times : (events : List Event) → length (times events) ≡ length events
length-times [] = refl
length-times (e ∷ events) = omega (arith, length-times events)

pub length-all_times : (rounds : List Round) → length (all_times rounds) ≡ event_count rounds
length-all_times [] = refl
length-all_times (r ∷ rounds) = omega (
  arith,
  length-append (times r.events) (all_times rounds),
  length-times r.events,
  length-all_times rounds,
)
