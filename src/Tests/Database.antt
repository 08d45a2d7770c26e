-- ===== src/Tests/Database.antt =====
-- The ClickHouse storage and the pool of workers.
use distributed_logger.Base.{ℕ, ◌≡◌, refl, true, false, List, [], ◌∷◌, pos}
use distributed_logger.Server.EventDecoder.{Event}
use distributed_logger.Server.Storage
use distributed_logger.Server.Storage.Batch.{payload_of}
use distributed_logger.Server.ClickHouse.{Database, flush}
use distributed_logger.Server.ClickHouse.Agreement.{without_short, as_rows, flush_agrees}
use distributed_logger.Server.Ingester.{start, step, packet}
use distributed_logger.Server.Ingester.Pool.{Pool, init, enqueue, Reach, here, enqueues, receives}
use distributed_logger.Server.Ingester.Pool.Conserved.{IsConserved, Reach-IsConserved}
use distributed_logger.Tests.Data.{hi, log0, schemas, packet0}

abbrev ready : Database
ready = record { prepares = true; appends = λ r. true; sends = λ rows. true }

-- Rows with the number of the event alone.
abbrev no_json : Event → List ℕ
no_json e = []

flush_agrees_example :
    flush no_json ready schemas (hi ∷ payload_of log0 ∷ [])
    ≡ as_rows no_json
        (Storage.flush schemas (λ events. true) (without_short (hi ∷ payload_of log0 ∷ [])))
flush_agrees_example =
    flush_agrees no_json ready schemas (hi ∷ payload_of log0 ∷ [])
      (record { prepares = refl; appends = λ r. refl; sends = λ rows. refl })

-- Two workers with batches of two packets; one of them has the first packet.
abbrev pool : Pool
pool = init 8 (pos 2) (pos 2)

abbrev fed : Pool
fed = record { channel = hi ∷ []; buffer_size = 2; workers = start ∷ start ∷ [] }

abbrev fed_history : Reach pool (hi ∷ []) fed
unfolding init enqueue start
fed_history = enqueues hi refl here

abbrev taken_once : Pool
taken_once = record {
  channel = [];
  buffer_size = 2;
  workers = step 2 (packet hi false) start ∷ start ∷ [];
}

abbrev taken_history : Reach pool (hi ∷ []) taken_once
unfolding init enqueue start
taken_history = receives [] (start ∷ []) start hi [] false refl refl refl fed_history

Reach-IsConserved_example : IsConserved (hi ∷ []) taken_once
Reach-IsConserved_example = Reach-IsConserved 8 (pos 2) (pos 2) taken_history

-- A pool whose one worker has ended, with room for one packet.
abbrev dead : Pool
dead = record {
  channel = [];
  buffer_size = 1;
  workers = record { batch = hi ∷ []; flushed = (hi ∷ []) ∷ []; running = false } ∷ [];
}

abbrev full : Pool
full = record dead { channel = packet0 ∷ [] }
