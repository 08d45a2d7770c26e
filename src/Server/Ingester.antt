-- ===== src/Server/Ingester.antt =====
-- `workerMain` of server/ingester/ingester.go: a worker collects packets and flushes them in batches.
pub mod Batches
pub mod Pool
use distributed_logger.Base.{
  ℕ, Bool, true, false, List, [], ◌∷◌, ◌++◌, ltb, leb, if◌then◌else◌, length,
}

-- What the `select` of a round receives. `tick` is the ticker's; `closed` is the end of the channel.
-- With a packet or a tick stands whether a flush made in this round would return an error.
pub data Signal : Type 0 where
  packet : List ℕ → Bool → Signal
  tick : Bool → Signal
  closed : Signal

-- The batch, the batches given to `Flush` so far in their order, whether it returned an error or not, and
-- whether the worker still runs.
pub record Worker : Type 0 where
  pub batch : List (List ℕ)
  pub flushed : List (List (List ℕ))
  pub running : Bool

unfoldable pub start : Worker
start = record { batch = []; flushed = []; running = true }

abbrev pub flush_batch : List (List ℕ) → Worker → Worker
flush_batch batch w = record w { batch = []; flushed = w.flushed ++ (batch ∷ []) }

-- One round. An error of a full batch's flush is printed; one of a ticker's flush ends the worker.
unfoldable pub step : ℕ → Signal → Worker → Worker
step buffer_size (packet ev fails) w =
    let batch' = w.batch ++ (ev ∷ []) in
    if leb buffer_size (length batch') then flush_batch batch' w else record w { batch = batch' }
step buffer_size (tick fails) w =
    if ltb 0 (length w.batch)
    then (if fails
        then record w { flushed = w.flushed ++ (w.batch ∷ []); running = false }
        else flush_batch w.batch w)
    else w
step buffer_size closed w = record w { flushed = w.flushed ++ (w.batch ∷ []); running = false }

-- The loop. What comes after the worker's end is left in the channel.
unfoldable pub run : ℕ → List Signal → Worker → Worker
unfolding step
run buffer_size [] w = w
run buffer_size (s ∷ signals) w =
    let w' = step buffer_size s w in
    elim w'.running [ true ↦ run buffer_size signals w' | false ↦ w' ]
