-- ===== src/Examples/Seastar/Spin.antt =====
-- The loop of the Seastar client without a connection.
use distributed_logger.Base.{
  ℕ, ◌≡◌, ◌⊎◌, inl, inr, true, false, some, List, [], ◌∷◌, arith, ltb, length, sub64,
}
use distributed_logger.Client.SeastarIo.{SeastarIo}
use distributed_logger.Examples.Params.{LoopParams}
use distributed_logger.Examples.Seastar.{Round, loop}

-- Some round comes when the time to run is over.
abbrev pub PassesTime : LoopParams → ℕ → List Round → Type 0
PassesTime p start [] = ⊥
PassesTime p start (r ∷ rounds) =
    (ltb (sub64 r.time start) p.time_to_run_sec ≡ false) ⊎ PassesTime p start rounds

-- Where a round finds the transport without a connection, the loop spins to its end without yielding:
-- whatever the other tasks of the shard would do, it ends with the transport as it was, nothing more
-- being posted, dropped or sent.
pub unconnected_spins :
    (temporary_buffer : ℕ → List ℕ) (allocated : (n : ℕ) → length (temporary_buffer n) ≡ n)
    (moved_from : List ℕ) (p : LoopParams) (shard start : ℕ) (rounds : List Round) (io : SeastarIo)
    → io.connected ≡ false
    → PassesTime p start rounds
    → loop temporary_buffer allocated moved_from p shard start rounds io ≡ some (true, io)
unfolding loop
unconnected_spins tb al mf p shard start [] io down t = absurd t
unconnected_spins tb al mf p shard start (r ∷ rounds) io down (inl late) = ground arith
unconnected_spins tb al mf p shard start (r ∷ rounds) io down (inr t) =
    ground (arith, unconnected_spins tb al mf p shard start rounds io down t)
