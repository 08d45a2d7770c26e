-- ===== src/Server/Ingester/Pool/Stopped.antt =====
-- A pool whose workers have all ended.
use distributed_logger.Base.{ℕ, ◌≤◌, ◌≡◌, false, List, ◌++◌, length, All}
use distributed_logger.Server.Ingester.{Worker}
use distributed_logger.Server.Ingester.Pool.{Pool}

-- No worker runs any more.
abbrev pub AllStopped : List Worker → Type 0
AllStopped = All (λ w. w.running ≡ false)

-- What a history without a worker does: packets collect in the channel, while there is room.
pub record Collected (p : Pool) (taken : List (List ℕ)) (p' : Pool) : Type 0 where
  pub channel : p'.channel ≡ p.channel ++ taken
  pub workers : p'.workers ≡ p.workers
  pub buffer_size : p'.buffer_size ≡ p.buffer_size
  pub room : length p'.channel ≤ p.buffer_size
