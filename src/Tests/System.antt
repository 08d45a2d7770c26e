-- ===== src/Tests/System.antt =====
-- A server with one connection and one worker: a log from the first read to the database.
use distributed_logger.Base.{
  All, from_be_acc, ◌+◌, ◌≡◌, refl, true, false, [], ◌∷◌, arith, length, take, weigh, be_bytes, pos,
}
use distributed_logger.Server.Listener
use distributed_logger.Server.Listener.{Read}
use distributed_logger.Server.EventDecoder.{Event}
use distributed_logger.Server.Storage.Batch.{event_of}
use distributed_logger.Server.Ingester
use distributed_logger.Server.Ingester.{Worker, start}
use distributed_logger.Server.Ingester.Pool.{Pool, init, enqueue}
use distributed_logger.Server.Ingester.Pool.Conserved.{kept_by}
use distributed_logger.Server.System.{
  Link, accept, hear, hand_on, Reach, starts, accepts, hears, hands, receives,
}
use distributed_logger.Server.System.Served.{found_by, waiting_by, Reach-Conserves}
use distributed_logger.Server.System.Running.{Runs}
use distributed_logger.Server.System.Stored.{
  Carried, Decodes, documents, all_stored, flushed_batches_decode,
}
use distributed_logger.Tests.Data.{log0, schemas, packet0, frame0}

abbrev first : Read
first = record { bytes = take 2 frame0; failed = false }

abbrev second : Read
second = record { bytes = 0 ∷ 21 ∷ []; failed = false }

abbrev third : Read
third = record { bytes = packet0; failed = false }

-- The connection behind its reads.
abbrev heard : Link
heard = hear third (hear second (hear first accept))

-- It has handed on the packet.
abbrev handed : Link
handed = hand_on packet0 [] heard

-- A worker whose batches have one packet has flushed it.
abbrev pool : Pool
pool = record {
  channel = [];
  buffer_size = 1;
  workers = record { batch = []; flushed = (packet0 ∷ []) ∷ []; running = true } ∷ [];
}

abbrev filled : Pool
filled = record { channel = packet0 ∷ []; buffer_size = 1; workers = start ∷ [] }

abbrev heard_history : Reach 8 (pos 1) (pos 1) (heard ∷ []) (init 8 (pos 1) (pos 1))
unfolding accept hear Listener.initial Listener.step be_bytes from_be_acc
heard_history = hears [] [] (hear second (hear first accept)) third refl refl refl (
    hears [] [] (hear first accept) second refl refl refl
      (hears [] [] accept first refl refl refl (accepts starts)))

abbrev handed_history : Reach 8 (pos 1) (pos 1) (handed ∷ []) filled
unfolding accept hear Listener.initial Listener.step be_bytes from_be_acc init enqueue start
handed_history = hands [] [] heard packet0 [] refl refl refl heard_history

abbrev history : Reach 8 (pos 1) (pos 1) (handed ∷ []) pool
unfolding start Ingester.step
history = receives [] [] start packet0 [] false refl refl refl handed_history

abbrev carried : Carried schemas handed (log0 ∷ [])
unfolding accept hear hand_on Listener.initial Listener.step be_bytes from_be_acc
carried = record {
  fit = (refl, omega arith, (refl, omega arith, (refl, omega arith, tt)));
  bytes = refl;
  long = ((omega arith, omega arith), tt);
  known = (record { number = omega arith; types = refl; values = omega arith }, tt);
}

Reach-Conserves_example :
    found_by length (handed ∷ [])
    ≡ waiting_by length (handed ∷ []) + (0 + kept_by length pool.workers)
Reach-Conserves_example = Reach-Conserves length history

flushed_batches_decode_example : (Decodes schemas (packet0 ∷ []) × Unit {0}) × Unit {0}
flushed_batches_decode_example =
    flushed_batches_decode schemas ((log0 ∷ []) ∷ []) history (carried, tt)

all_stored_example :
    All Runs pool.workers
    × (weigh (λ (e : Event). e.event + 1) (documents schemas pool.workers)
        ≡ weigh (λ (e : Event). e.event + 1) (event_of log0 ∷ []))
unfolding accept hear hand_on history handed_history
all_stored_example =
    all_stored schemas ((log0 ∷ []) ∷ []) (λ e. e.event + 1) history (refl, tt) (carried, tt)
      (refl, tt) refl (refl, tt)
