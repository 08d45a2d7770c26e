-- ===== src/Examples/Params/Sums.antt =====
-- The totals over the threads of an example.
use distributed_logger.Base.{
  ℕ, ◌+◌, ◌*◌, ◌%◌, ◌≤◌, ◌≡◌, refl, subst, some, List, [], ◌∷◌, arith, ◌>>=◌, mod64, add64,
}
use distributed_logger.Examples.Params.{LoopParams, Totals, add_stats, totals_from, totals}

-- What a thread reports that made `logs` logs, and whose transport was left with `queued` in its queue.
pub record IsBalanced (logs queued : ℕ) (p : LoopParams) : Type 0 where
  pub posted : ℕ
  pub dropped : ℕ
  pub sent : ℕ
  pub posted_set : p.logs_submitted ≡ some posted
  pub dropped_set : p.logs_dropped ≡ some dropped
  pub sent_set : p.logs_sent ≡ some sent
  pub all_counted : (posted + dropped) % mod64 ≡ logs % mod64
  pub sent_or_queued : (sent + queued) % mod64 ≡ posted % mod64
  pub queued_le : queued ≤ logs

-- The rounds of a thread that made two logs each, and the logs left in its queue.
pub record Account : Type 0 where
  pub rounds : ℕ
  pub queued : ℕ

abbrev pub AllBalanced : List Account → List LoopParams → Type 0
AllBalanced [] [] = Unit {0}
AllBalanced [] (p ∷ ps) = ⊥
AllBalanced (a ∷ accounts) [] = ⊥
AllBalanced (a ∷ accounts) (p ∷ ps) = IsBalanced (2 * a.rounds) a.queued p × AllBalanced accounts ps

abbrev pub all_logs : List Account → ℕ
all_logs [] = 0
all_logs (a ∷ accounts) = 2 * a.rounds + all_logs accounts

abbrev pub all_queued : List Account → ℕ
all_queued [] = 0
all_queued (a ∷ accounts) = a.queued + all_queued accounts

-- Totals that balance with the number of all logs and of those left in queues.
pub record Balances (logs queued : ℕ) (t : Totals) : Type 0 where
  pub all_counted : (t.submitted + t.dropped) % mod64 ≡ logs % mod64
  pub sent_or_queued : (t.sent + queued) % mod64 ≡ t.submitted % mod64
  pub queued_le : queued ≤ logs

add_stats-Balances :
    (n q logs queued : ℕ) (p : LoopParams) (t : Totals)
    → IsBalanced n q p
    → Balances logs queued t
    → (t' : Totals) × (add_stats p t ≡ some t') × Balances (logs + n) (queued + q) t'
unfolding add_stats
add_stats-Balances n q logs queued p t b s = (
  record {
    submitted = add64 t.submitted b.posted;
    dropped = add64 t.dropped b.dropped;
    sent = add64 t.sent b.sent;
  },
  ground (arith, b.posted_set, b.dropped_set, b.sent_set),
  record {
    all_counted = omega (arith, s.all_counted, b.all_counted);
    sent_or_queued = omega (arith, s.sent_or_queued, b.sent_or_queued);
    queued_le = omega (arith, s.queued_le, b.queued_le);
  },
)

-- Equal numbers may be put for the two counts.
recounted : {m n q r : ℕ} {t : Totals} → m ≡ n → q ≡ r → Balances m q t → Balances n r t
recounted {m} {n} {q} {r} {t} e e' b =
    subst (λ k. Balances n k t) e' (subst (λ k. Balances k q t) e b)

totals_from-Balances :
    (accounts : List Account) (logs queued : ℕ) (ps : List LoopParams) (t : Totals)
    → AllBalanced accounts ps
    → Balances logs queued t
    → (t' : Totals) × (totals_from ps t ≡ some t')
      × Balances (logs + all_logs accounts) (queued + all_queued accounts) t'
unfolding totals_from
totals_from-Balances [] logs queued [] t h s = (t, refl, recounted (omega arith) (omega arith) s)
totals_from-Balances [] logs queued (p ∷ ps) t h s = absurd h
totals_from-Balances (a ∷ accounts) logs queued [] t h s = absurd h
totals_from-Balances (a ∷ accounts) logs queued (p ∷ ps) t h s =
    let (t1, e1, s1) = add_stats-Balances (2 * a.rounds) a.queued logs queued p t h.0 s in
    let (t2, e2, s2) =
      totals_from-Balances accounts (logs + 2 * a.rounds) (queued + a.queued) ps t1 h.1 s1 in
    (t2, rw (e1, ◌>>=◌) e2, recounted (omega arith) (omega arith) s2)

-- Where every thread reports its logs, the totals are printed, and they report the logs of all threads:
-- each as submitted or dropped, and of the submitted ones those that were left in a queue not as sent.
pub totals-Balances :
    (accounts : List Account) (ps : List LoopParams)
    → AllBalanced accounts ps
    → (t : Totals) × (totals ps ≡ some t) × Balances (all_logs accounts) (all_queued accounts) t
unfolding totals
totals-Balances accounts ps a =
    let (t, e, s) =
      totals_from-Balances accounts 0 0 ps (record { submitted = 0; dropped = 0; sent = 0 }) a
        (record { all_counted = refl; sent_or_queued = refl; queued_le = omega arith }) in
    (t, e, recounted (omega arith) (omega arith) s)
