-- ===== src/Tests/Server.antt =====
-- The server: decoders, the listener's loop, the storage and the worker.
use distributed_logger.Base.{
  ◌≡◌, refl, inl, true, false, List, [], ◌∷◌, arith, take, drop, be_bytes, from_be_acc,
}
use distributed_logger.Server.Decoder.{ok, decode_uint64, short_uint64}
use distributed_logger.Server.EventDecoder.{ParamType, number, text, decode_event}
use distributed_logger.Server.EventDecoder.RoundTrip.{
  decode_event-payload, decode_event-IsSafe, IsSafe,
}
use distributed_logger.Client.Logger.Wire.{payload}
use distributed_logger.Server.Listener.{Read, initial, step, run}
use distributed_logger.Server.Listener.Bytes.{header, feed_all}
use distributed_logger.Server.Listener.Refine.{run_refines}
use distributed_logger.Server.Listener.Steps.{view, Agrees}
use distributed_logger.Server.Listener.Frames.{run-frames, run-short_packet}
use distributed_logger.Server.Storage.{flush, inserted, undecoded, decode_packet}
use distributed_logger.Server.Storage.Batch.{flush_lem, event_of, payload_of}
use distributed_logger.Server.Ingester
use distributed_logger.Server.Ingester.{Signal, packet, tick, Worker, flush_batch}
use distributed_logger.Server.Ingester.Batches.{Worked, run_lem}
use distributed_logger.Tests.Data.{hi, args0, log0, schemas, packet0, frame0}

-- The frame of a packet in two reads of the header and two of the packet.
abbrev reads : List Read
reads =
    record { bytes = take 3 frame0; failed = false }
    ∷ record { bytes = 21 ∷ []; failed = false }
    ∷ record { bytes = take 20 packet0; failed = false }
    ∷ record { bytes = 33 ∷ []; failed = false }
    ∷ []

reads_packet : (run reads initial).enqueued ≡ packet0 ∷ []
unfolding run step initial from_be_acc
reads_packet = refl

decode_event-payload_example :
    (decode_uint64 (payload 0 args0) ≡ ok (0, 8))
    × (decode_event 0 (ParamType.uint64 ∷ ParamType.string ∷ []) (drop 8 (payload 0 args0))
        ≡ ok (record { event = 0; fields = number 1 ∷ text hi ∷ [] }))
decode_event-payload_example = decode_event-payload 0 args0 (omega arith) (omega arith)

decode_event-IsSafe_example : IsSafe (decode_event 0 (ParamType.string ∷ []) (9 ∷ 9 ∷ 1 ∷ []))
decode_event-IsSafe_example = decode_event-IsSafe 0 (ParamType.string ∷ []) (9 ∷ 9 ∷ 1 ∷ [])

run_refines_example : Agrees (run reads initial) (feed_all frame0 (header []))
unfolding initial step be_bytes from_be_acc
run_refines_example =
    run_refines reads initial (refl, inl (refl, omega arith))
      (refl, omega arith, (refl, omega arith, (refl, omega arith, (refl, omega arith, tt))))

run-frames_example :
    ((run reads initial).enqueued ≡ packet0 ∷ [])
    × ((run reads initial).goes_on ≡ true)
    × (view (run reads initial).conn ≡ header [])
unfolding initial step be_bytes from_be_acc
run-frames_example =
    run-frames (packet0 ∷ []) reads ((omega arith, omega arith), tt)
      (refl, omega arith, (refl, omega arith, (refl, omega arith, (refl, omega arith, tt)))) refl

-- A packet of three bytes behind a packet that is taken.
abbrev short_reads : List Read
short_reads =
    record { bytes = take 4 frame0; failed = false }
    ∷ record { bytes = packet0; failed = false }
    ∷ record { bytes = 0 ∷ 0 ∷ 0 ∷ 3 ∷ []; failed = false }
    ∷ record { bytes = hi; failed = false }
    ∷ []

run-short_packet_example :
    ((run short_reads initial).enqueued ≡ packet0 ∷ [])
    × ((run short_reads initial).goes_on ≡ false)
unfolding initial step be_bytes from_be_acc
run-short_packet_example =
    run-short_packet (packet0 ∷ []) hi [] short_reads ((omega arith, omega arith), tt) (omega arith)
      (omega arith)
      (refl, omega arith, (refl, omega arith, (refl, omega arith, (refl, omega arith, tt)))) refl

flush_lem_example :
    (flush schemas (λ _. true) (payload_of log0 ∷ []) ≡ inserted (event_of log0 ∷ []))
    × (flush schemas (λ _. true) (payload_of log0 ∷ hi ∷ []) ≡ undecoded short_uint64)
unfolding decode_packet decode_uint64
flush_lem_example =
    flush_lem schemas (λ _. true) log0 [] hi [] short_uint64
      (record { number = omega arith; types = refl; values = omega arith }, tt) refl refl

run_lem_example :
    let signals = packet hi false ∷ packet packet0 true ∷ tick false ∷ packet hi false ∷ [] in
    Worked 2 signals Ingester.start (Ingester.run 2 signals Ingester.start)
run_lem_example =
    run_lem 2 (packet hi false ∷ packet packet0 true ∷ tick false ∷ packet hi false ∷ [])
      (omega arith)
