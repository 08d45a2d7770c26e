-- ===== src/Examples/Seastar/Accounts.antt =====
-- The Seastar client as a whole, over a transport without credentials.
use distributed_logger.Base.{
  ℕ, suc, ◌+◌, ◌*◌, ◌≤◌, ◌<◌, ◌≡◌, refl, ap, ◌∙◌, subst, inl, inr, true, false, ◌||◌, ◌⊎◌, some,
  none, List, [], ◌∷◌, ◌++◌, arith, All, ltb, Bool-cases, length, length-append, mod64, sub64,
}
use distributed_logger.Client.PosixIo.State.{is_empty}
use distributed_logger.Client.SeastarIo
use distributed_logger.Client.SeastarIo.{SeastarIo}
use distributed_logger.Client.SeastarIo.Trace
use distributed_logger.Client.SeastarIo.Trace.{Reach, IsTraced, refused, count_ok, blocks, flying}
use distributed_logger.Client.SeastarIo.Histories.{Reach-IsTraced}
use distributed_logger.Examples.Params.{LoopParams, queue_limit}
use distributed_logger.Examples.Seastar.{
  Round, Machine, result_of, log_both, open_transport, io_of, wait_connected, loop, finish,
  run_loop,
}
use distributed_logger.Examples.Seastar.Spin.{PassesTime}
use distributed_logger.Examples.Seastar.Tasks.{Tasks, Tasks-Passes}
use distributed_logger.Examples.Seastar.Logged.{
  Logged, Tasks-Logged, count_refused, log_both-Connected,
}

module _ (temporary_buffer : ℕ → List ℕ) (allocated : (n : ℕ) → length (temporary_buffer n) ≡ n)
    (moved_from : List ℕ) (p : LoopParams) (shard : ℕ) where
  -- From a state, the rounds up to the first whose time test fails: `k` of them find a connection and make
  -- their two logs, and the loop ends in the state `last`.
  pub data Turns (start : ℕ) : List Round → SeastarIo → ℕ → SeastarIo → Type 0 where
    ends :
        {r : Round} {rounds : List Round} {io : SeastarIo}
        → ltb (sub64 r.time start) p.time_to_run_sec ≡ false
        → Turns start (r ∷ rounds) io 0 io
    skips :
        {r : Round} {rounds : List Round} {io last : SeastarIo} {k : ℕ}
        → ltb (sub64 r.time start) p.time_to_run_sec ≡ true
        → io.connected ≡ false
        → Turns start rounds io k last
        → Turns start (r ∷ rounds) io k last
    logs :
        {r : Round} {rounds : List Round} {io last : SeastarIo} {k : ℕ} (io' : SeastarIo)
        → ltb (sub64 r.time start) p.time_to_run_sec ≡ true
        → io.connected ≡ true
        → log_both temporary_buffer allocated moved_from shard r.now io ≡ some io'
        → Turns start rounds (r.others io') k last
        → Turns start (r ∷ rounds) io (suc k) last

  -- The loop ends behind `k` rounds that made their logs.
  record Looped (start n : ℕ) (rounds : List Round) (io : SeastarIo) : Type 0 where
    k : ℕ
    few : k ≤ length rounds
    last : SeastarIo
    result : loop temporary_buffer allocated moved_from p shard start rounds io ≡ some (true, last)
    turns : Turns start rounds io k last
    sent : List (List ℕ)
    logged : Logged (2 * k + n) sent last

  loop-Looped :
      (start : ℕ) (rounds : List Round) (n : ℕ) (sent : List (List ℕ)) (io : SeastarIo)
      → PassesTime p start rounds
      → All (λ r. (x : SeastarIo) → Tasks x (r.others x)) rounds
      → 64 * (2 * length rounds + n) < mod64
      → Logged n sent io
      → Looped start n rounds io
  unfolding loop
  loop-Looped start [] n sent io t a room l = absurd t
  loop-Looped start (r ∷ rounds) n sent io t a room l =
      elim (Bool-cases (ltb (sub64 r.time start) p.time_to_run_sec)) [
        | inl on_time ↦ elim t [
          | inl late ↦ cc (on_time, late)
          | inr later ↦ elim (Bool-cases io.connected) [
            | inl up ↦
                (let (io1, e, c) =
                    log_both-Connected temporary_buffer allocated moved_from shard r.now n io
                      (omega (arith, room)) (record { connected = up; sent = sent; logged = l }) in
                  let rest =
                    loop-Looped start rounds (suc (suc n)) c.sent (r.others io1) later a.1
                      (omega (arith, room))
                      (Tasks-Logged (suc (suc n)) c.sent io1 (r.others io1) c.logged (a.0 io1)) in
                  record {
                    k = suc rest.k;
                    few = omega (arith, rest.few);
                    last = rest.last;
                    result = ground (arith, on_time, up, e, rest.result);
                    turns = Turns.logs io1 on_time up e rest.turns;
                    sent = rest.sent;
                    logged = record {
                      past = rest.logged.past;
                      going = rest.logged.going;
                      counted = omega (arith, rest.logged.counted);
                      size = omega (arith, rest.logged.size);
                    };
                  })
            | inr down ↦
                (let rest = loop-Looped start rounds n sent io later a.1 (omega (arith, room)) l in
                  record {
                    k = rest.k;
                    few = omega (arith, rest.few);
                    last = rest.last;
                    result = ground (arith, on_time, down, rest.result);
                    turns = Turns.skips on_time down rest.turns;
                    sent = rest.sent;
                    logged = rest.logged;
                  })
          ]
        ]
        | inr late ↦ record {
          k = 0;
          few = omega arith;
          last = io;
          result = ground (arith, late);
          turns = Turns.ends late;
          sent = sent;
          logged = record {
            past = l.past;
            going = l.going;
            counted = omega (arith, l.counted);
            size = omega (arith, l.size);
          };
        }
      ]

wait-Logged :
    (sleeps : List (SeastarIo → SeastarIo)) (n : ℕ) (sent : List (List ℕ)) (io io' : SeastarIo)
    → All (λ f. (x : SeastarIo) → Tasks x (f x)) sleeps
    → wait_connected sleeps io ≡ some io'
    → Logged n sent io
    → Logged n sent io'
unfolding wait_connected
wait-Logged [] n sent io io' a e l = elim (Bool-cases io.connected) [
  | inl up ↦ (let same : io ≡ io' = ground (arith, up, e) in subst (Logged n sent) same l)
  | inr down ↦ (let bad : none ≡ some io' = ground (arith, down, e) in cc)
]
wait-Logged (f ∷ sleeps) n sent io io' a e l = elim (Bool-cases io.connected) [
  | inl up ↦ (let same : io ≡ io' = ground (arith, up, e) in subst (Logged n sent) same l)
  | inr down ↦
      (let later : wait_connected sleeps (f io) ≡ some io' = ground (arith, down, e) in
        wait-Logged sleeps n sent (f io) io' a.1 later (Tasks-Logged n sent io (f io) l (a.0 io)))
]

open_transport-Logged :
    (p : LoopParams)
    → is_empty p.certificate || is_empty p.key ≡ true
    → Logged 0 [] (io_of (open_transport p))
unfolding open_transport io_of SeastarIo.make SeastarIo.set_queue_max_size SeastarIo.reconnect
open_transport-Logged p h =
    let io = SeastarIo.reconnect (SeastarIo.set_queue_max_size (queue_limit p) SeastarIo.make) in
    let same : io ≡ io_of (open_transport p) = ground (arith, h) in
    subst (Logged 0 []) same (record {
      past = Trace.connects (Trace.limits (queue_limit p) Trace.created);
      going = refl;
      counted = refl;
      size = omega arith;
    })

-- The result of a shard whose transport ends in the state `io` counts each of `n` logs as posted or dropped,
-- and of the posted ones all as sent but those whose write failed or had not completed and those left in
-- the queue.
pub record Counts (n shard : ℕ) (io : SeastarIo) : Type 0 where
  pub sent : List (List ℕ)
  pub past : Reach sent io
  pub counted : (result_of shard io).posted + (result_of shard io).dropped ≡ n
  pub posted :
      (result_of shard io).posted
      ≡ (result_of shard io).sent
        + (length (refused io.outcomes) + (length (flying io.in_flight) + length io.wqueue))

result_of-Counts :
    (n shard : ℕ) (sent : List (List ℕ)) (io : SeastarIo)
    → Reach sent io
    → length sent + io.log_dropped_cnt ≡ n
    → n < mod64
    → Counts n shard io
unfolding result_of
result_of-Counts n shard sent io past e room =
    let t = Reach-IsTraced past in
    let behind =
      length-append (blocks io.outcomes) (flying io.in_flight ++ io.wqueue)
      ∙ ap (λ n. length (blocks io.outcomes) + n) (length-append (flying io.in_flight) io.wqueue) in
    record {
      sent = sent;
      past = past;
      counted = omega (arith, t.posted, e, room);
      posted = omega (
        arith,
        t.posted,
        t.written,
        ap length t.order,
        behind,
        count_refused io.outcomes,
        e,
        room,
      );
    }

-- A transport that has its connection where the loop ends is shut down.
pub IsLeft : SeastarIo → SeastarIo → Type 0
IsLeft io io' = ((io.connected ≡ false) × (io' ≡ io)) ⊎ (io'.shutting_down ≡ true)

finish-Counts :
    (m : Machine) (n shard : ℕ) (sent : List (List ℕ)) (io : SeastarIo)
    → Logged n sent io
    → n < mod64
    → (io.connected ≡ true
        → Tasks io (m.until_finished io) × ((m.until_finished io).transmitting ≡ false))
    → ((x : SeastarIo) → Tasks x (m.closing x))
    → Counts n shard (finish m io) × IsLeft io (finish m io)
unfolding finish SeastarIo.disconnect SeastarIo.shut_down IsLeft
finish-Counts m n shard sent io l room until closing = elim (Bool-cases io.connected) [
  | inl up ↦
      (let (t, idle) = until up in
        let q = Tasks-Passes sent l.past t in
        let closed : SeastarIo = record (m.until_finished io) { shutting_down = true } in
        let c = Tasks-Passes sent (Trace.shuts_down idle q.past) (closing closed) in
        let same : m.closing closed ≡ finish m io = ground (arith, up) in
        subst (λ x. Counts n shard x × IsLeft io x) same
          (
            result_of-Counts n shard sent (m.closing closed) c.past
                (omega (arith, l.counted, q.dropped, c.dropped)) room,
            inr c.shutting_down,
          ))
  | inr down ↦
      (let same : io ≡ finish m io = ground (arith, down) in
        subst (λ x. Counts n shard x × IsLeft io x) same
          (result_of-Counts n shard sent io l.past l.counted room, inl (down, refl)))
]

module _ (temporary_buffer : ℕ → List ℕ) (allocated : (n : ℕ) → length (temporary_buffer n) ≡ n)
    (moved_from : List ℕ) (p : LoopParams) (shard : ℕ) where
  -- The transport gets its connection, the time to run is over at one of the rounds, and wherever the
  -- client gives way the other tasks do no more than fire the timer and complete futures.
  pub record IsServed (m : Machine) : Type 0 where
    pub connected : SeastarIo
    pub waited : wait_connected m.sleeps (io_of (open_transport p)) ≡ some connected
    pub sleeping : All (λ f. (x : SeastarIo) → Tasks x (f x)) m.sleeps
    pub timed : PassesTime p m.start m.rounds
    pub yielding : All (λ r. (x : SeastarIo) → Tasks x (r.others x)) m.rounds
    pub few : 128 * length m.rounds < mod64
    pub finishing :
        (io : SeastarIo)
        → loop temporary_buffer allocated moved_from p shard m.start m.rounds connected
          ≡ some (true, io)
        → io.connected ≡ true
        → Tasks io (m.until_finished io) × ((m.until_finished io).transmitting ≡ false)
    pub closing : (x : SeastarIo) → Tasks x (m.closing x)

  -- Without both a certificate and a key, where the transport gets its connection in one of the sleeps,
  -- the time to run is over at one of the rounds, and the other tasks of the shard only fire the timer
  -- and complete futures, the write under way being complete before the streams are closed: the
  -- client of a shard ends, also where its connection is lost. `k` of the rounds before the first whose
  -- time test fails find a connection and make their two logs; the transport is shut down behind them,
  -- unless its connection is lost, which leaves it as it is; and the result, of the transport's last
  -- state, counts each of the 2 * k logs as posted or as dropped, and as sent all that were posted but
  -- those whose write failed or had not completed and those left in the queue.
  pub run_loop-Counts :
      (m : Machine)
      → is_empty p.certificate || is_empty p.key ≡ true
      → (s : IsServed m)
      → (k : ℕ) × (last : SeastarIo) × (run_loop temporary_buffer allocated moved_from p shard m
          ≡ some (some (result_of shard (finish m last))))
        × Turns temporary_buffer allocated moved_from p shard m.start m.rounds s.connected k last
        × IsLeft last (finish m last)
        × Counts (2 * k) shard (finish m last)
  unfolding run_loop
  run_loop-Counts m plain s =
      let start = open_transport-Logged p plain in
      let waited = wait-Logged m.sleeps 0 [] _ s.connected s.sleeping s.waited start in
      let l =
        loop-Looped temporary_buffer allocated moved_from p shard m.start m.rounds 0 [] s.connected
          s.timed s.yielding (omega (arith, s.few)) waited in
      let (c, left) =
        finish-Counts m (2 * l.k + 0) shard l.sent l.last l.logged (omega (arith, l.few, s.few))
          (s.finishing l.last l.result) s.closing in
      (
        l.k,
        l.last,
        ground (arith, s.waited, l.result),
        l.turns,
        left,
        subst (λ n. Counts n shard (finish m l.last)) (omega arith) c,
      )
