-- ===== src/Examples/Simple/Accounts.antt =====
-- The loop of the blocking client, to its end.
use distributed_logger.Base.{
  ℕ, zero, suc, ◌+◌, ◌*◌, ◌≤◌, ◌<◌, ◌≡◌, sym, ap, ◌∙◌, subst, inl, inr, Bool, true, false, Option,
  none, some, arith, if◌then◌else◌, Bool-cases, length, mod64, refl, List, [], ◌∷◌,
}
use distributed_logger.Client.PosixIo.State.{
  PosixIo, Reply, Run, done, exits, fault, ◌>>=◌, is_plain,
}
use distributed_logger.Client.PosixIo.Pending.{IsGood, Ends}
use distributed_logger.Client.PosixIo.History.{IsWithin, Reach-Kept}
use distributed_logger.Server.Storage.Batch.{Log}
use distributed_logger.Examples.Params.{LoopParams}
use distributed_logger.Examples.Posix.{log_both}
use distributed_logger.Examples.Posix.Logs.{round_logs, logs_at}
use distributed_logger.Examples.Posix.Ran.{
  Ran, Ran-refl, Ran-trans, Ends-bind, IsReply, log_both-Ran,
}
use distributed_logger.Examples.Simple.{host, goes_on, loop}

-- The answers to the two writes of each round.
abbrev pub AllReplies : (ℕ → Reply) → Type 0
AllReplies replies = (k : ℕ) → IsReply 36 (replies (2 * k)) × IsReply 44 (replies (1 + 2 * k))

-- The times that the second logs of a number of rounds have, from the `k`-th round on.
abbrev pub times_from : (ℕ → ℕ) → ℕ → ℕ → List ℕ
times_from clock k zero = []
times_from clock k (suc rounds) = clock (2 + 2 * k) ∷ times_from clock (suc k) rounds

pub length-times_from : (clock : ℕ → ℕ) (k rounds : ℕ) → length (times_from clock k rounds) ≡ rounds
length-times_from clock k zero = refl
length-times_from clock k (suc rounds) = ap suc (length-times_from clock (suc k) rounds)

-- The logs of these rounds.
abbrev pub logs_from : (ℕ → ℕ) → LoopParams → ℕ → ℕ → List Log
logs_from clock p k rounds = logs_at p.shard host (times_from clock k rounds)

-- From the `k`-th round on, the test of the loop holds in `rounds` rounds and then fails.
abbrev pub Turns : (ℕ → ℕ) → ℕ → ℕ → ℕ → Type 0
Turns clock time_to_run k zero = goes_on clock time_to_run k ≡ false
Turns clock time_to_run k (suc rounds) =
    (goes_on clock time_to_run k ≡ true) × Turns clock time_to_run (suc k) rounds

-- The loop ended by its test behind at most `n` rounds from the `k`-th on, having given the logs of these
-- to the transport.
abbrev pub Ended : (ℕ → ℕ) → LoopParams → ℕ → ℕ → PosixIo → Option PosixIo → Type 0
Ended clock p k n io none = ⊥
Ended clock p k n io (some io') =
    (rounds : ℕ) × (rounds ≤ n)
    × Turns clock p.time_to_run_sec k rounds
    × Ran io (logs_from clock p k rounds) io'

after_round :
    (clock : ℕ → ℕ) (p : LoopParams) (k n : ℕ) (io io' : PosixIo)
    → goes_on clock p.time_to_run_sec k ≡ true
    → Ran io (round_logs p.shard host (clock (2 + 2 * k))) io'
    → (o : Run (Option PosixIo)) → Ends (is_plain io') (Ended clock p (suc k) n io') o
    → Ends (is_plain io) (Ended clock p k (suc n) io) o
after_round clock p k n io io' on ran (done none) h = h
after_round clock p k n io io' on ran (done (some io'')) (rounds, few, turns, later) = (
  suc rounds,
  omega (arith, few),
  (on, turns),
  Ran-trans (round_logs p.shard host (clock (2 + 2 * k))) (logs_from clock p (suc k) rounds) ran
      later,
)
after_round clock p k n io io' on ran (exits m) h = sym ran.plain ∙ h
after_round clock p k n io io' on ran fault h = h

loop-suc :
    (fuel : ℕ) (clock : ℕ → ℕ) (replies : ℕ → Reply) (p : LoopParams) (k : ℕ) (io : PosixIo)
    → loop (suc fuel) clock replies p k io ≡ (
        if goes_on clock p.time_to_run_sec k
        then (log_both (replies (2 * k)) (replies (1 + 2 * k)) p.shard host (clock (2 + 2 * k)) io
            >>= loop fuel clock replies p (suc k))
        else done (some io))
unfolding loop
loop-suc fuel clock replies p k io = ground arith

stops :
    (fuel n : ℕ) (clock : ℕ → ℕ) (replies : ℕ → Reply) (p : LoopParams) (k : ℕ) (io : PosixIo)
    → goes_on clock p.time_to_run_sec k ≡ false
    → Ends (is_plain io) (Ended clock p k n io) (loop (suc fuel) clock replies p k io)
stops fuel n clock replies p k io off =
    subst (Ends (is_plain io) (Ended clock p k n io))
      (sym (loop-suc fuel clock replies p k io ∙ ap (λ c. if c then round else done (some io)) off))
      (0, omega arith, off, Ran-refl io)
  where
    round : Run (Option PosixIo)
    round =
        log_both (replies (2 * k)) (replies (1 + 2 * k)) p.shard host (clock (2 + 2 * k)) io
        >>= loop fuel clock replies p (suc k)

-- If the clock passes the time to run at the `n`-th round from here, with fuel for it and a transport
-- in a good state and within its limit, whose `write` accepts no more than it is offered: the loop
-- ends by its test behind at most `n` rounds, or the process exits where TLS is configured. Its rounds
-- are a history of the transport, in which every log that they made was accepted or counted as dropped.
pub loop-Ended :
    (fuel n : ℕ) (clock : ℕ → ℕ) (replies : ℕ → Reply) (p : LoopParams) (k : ℕ) (io : PosixIo)
    → n < fuel
    → goes_on clock p.time_to_run_sec (k + n) ≡ false
    → AllReplies replies
    → IsGood io
    → IsWithin io
    → io.queue_size + 128 * n < mod64
    → Ends (is_plain io) (Ended clock p k n io) (loop fuel clock replies p k io)
loop-Ended zero n clock replies p k io enough late a g w room = absurd (omega arith)
loop-Ended (suc fuel) zero clock replies p k io enough late a g w room =
    let same : k + 0 ≡ k = omega arith in
    let off = subst (λ i. goes_on clock p.time_to_run_sec i ≡ false) same late in
    stops fuel 0 clock replies p k io off
loop-Ended (suc fuel) (suc n) clock replies p k io enough late a g w room = elim (Bool-cases test) [
  | inl on ↦
      subst (Ends (is_plain io) (Ended clock p k (suc n) io))
        (sym
          (loop-suc fuel clock replies p k io ∙ ap (λ c. if c then going else done (some io)) on))
        (Ends-bind (is_plain io) (Ran io (round_logs p.shard host (clock (2 + 2 * k))))
          (Ended clock p k (suc n) io) round (loop fuel clock replies p (suc k))
          (log_both-Ran (replies (2 * k)) (replies (1 + 2 * k)) p.shard host (clock (2 + 2 * k)) io
            (omega arith) (a k).0 (a k).1 g w (omega (arith, room)))
          (λ io' ran.
            let kept = Reach-Kept g w ran.past in
            after_round clock p k n io io' on ran (loop fuel clock replies p (suc k) io') (
              loop-Ended fuel n clock replies p (suc k) io' (omega (arith, enough))
                (subst (λ i. goes_on clock p.time_to_run_sec i ≡ false) next_round late) a kept.good
                kept.within (omega (arith, room, ran.size_le)))))
  | inr off ↦ stops fuel (suc n) clock replies p k io off
]
  where
    test : Bool
    test = goes_on clock p.time_to_run_sec k

    round : Run PosixIo
    round = log_both (replies (2 * k)) (replies (1 + 2 * k)) p.shard host (clock (2 + 2 * k)) io

    going : Run (Option PosixIo)
    going = round >>= loop fuel clock replies p (suc k)

    next_round : k + suc n ≡ suc k + n
    next_round = omega arith
