-- ===== src/Examples/Posix/Threads/Printed.antt =====
-- The totals that `main` prints.
use distributed_logger.Base.{
  ℕ, zero, suc, ◌+◌, ◌*◌, ◌≡◌, refl, false, some, List, [], ◌∷◌, arith, length, Option,
}
use distributed_logger.Client.PosixIo.State.{Run, done}
use distributed_logger.Examples.Params
use distributed_logger.Examples.Params.{
  LoopParams, Options, Totals, clone, clones, set_options, get_common_options, totals,
}
use distributed_logger.Examples.Params.Sums.{
  IsBalanced, Account, AllBalanced, Balances, all_logs, all_queued, totals-Balances,
}
use distributed_logger.Examples.Posix.Threads.{join_all, main_with}

-- The copy of the parameters that the thread of a shard is given.
abbrev pub for_shard : LoopParams → ℕ → LoopParams
for_shard p s = record (clone p) { shard = s }

-- A thread returns, having reported two logs for each of its rounds; `IsOf` ties its account to its run.
abbrev pub Reports :
    (LoopParams → Run (Option LoopParams)) → (LoopParams → Account → Type 0) → LoopParams → Type 0
Reports run IsOf p =
    (a : Account) × (p' : LoopParams) × (run p ≡ done (some p'))
    × IsOf p a
    × IsBalanced (2 * a.rounds) a.queued p'

-- The accounts are those of the threads of the shards from `first` on.
abbrev pub AllOf : (LoopParams → Account → Type 0) → LoopParams → ℕ → List Account → Type 0
AllOf IsOf p first [] = Unit {0}
AllOf IsOf p first (a ∷ accounts) = IsOf (for_shard p first) a × AllOf IsOf p (first + 1) accounts

module _ (run : LoopParams → Run (Option LoopParams)) (IsOf : LoopParams → Account → Type 0) where
  join_all-Reports :
      (n first : ℕ) (p : LoopParams)
      → ((s : ℕ) → Reports run IsOf (for_shard p s))
      → (accounts : List Account) × (ps : List LoopParams) × (join_all run (clones n first p)
          ≡ done (some ps))
        × (length accounts ≡ n)
        × AllOf IsOf p first accounts
        × AllBalanced accounts ps
  unfolding join_all clones
  join_all-Reports zero first p h = ([], [], refl, refl, tt, tt)
  join_all-Reports (suc n) first p h =
      let (a, p', e, of, b) = h first in
      let (accounts, ps, e', len, ofs, bs) = join_all-Reports n (first + 1) p h in
      (a ∷ accounts, p' ∷ ps, rw (e, e') refl, omega (arith, len), (of, ofs), (b, bs))

  -- Where the command line is taken and every thread reports, `main` returns 0, and the totals that it
  -- prints account for the logs of all threads.
  pub main_with-Balances :
      (threads : LoopParams → List LoopParams) (n : ℕ) (o : Options)
      → o.help ≡ false
      → threads (set_options o Params.make) ≡ clones n 1 (set_options o Params.make)
      → ((s : ℕ) → Reports run IsOf (for_shard (set_options o Params.make) s))
      → (accounts : List Account) × (t : Totals) × (main_with threads run (some o)
          ≡ done (some (0, some t)))
        × (length accounts ≡ n)
        × AllOf IsOf (set_options o Params.make) 1 accounts
        × Balances (all_logs accounts) (all_queued accounts) t
  unfolding main_with get_common_options
  main_with-Balances threads n o no_help e h =
      let (accounts, ps, joined, len, ofs, bs) =
        join_all-Reports n 1 (set_options o Params.make) h in
      let (t, printed, balanced) = totals-Balances accounts ps bs in
      (accounts, t, rw (no_help, e, joined, printed) refl, len, ofs, balanced)
