-- ===== src/Server/System/Stored.antt =====
-- What the storage holds behind all connections.
use distributed_logger.Base.{
  All-append, map-append, ℕ, ◌+◌, ◌≤◌, ◌≡◌, refl, ap, ◌∙◌, inl, inr, true, List, [], ◌∷◌, ◌++◌, map,
  arith, Bool-cases, All, weigh, weigh-append, ℤ,
}
use distributed_logger.Server.Decoder.{Outcome, ok, err, panic, ◌>>=◌}
use distributed_logger.Server.EventDecoder.{ParamType, Event}
use distributed_logger.Server.Listener.{initial}
use distributed_logger.Server.Listener.Refine.{AllFit, bytes_of}
use distributed_logger.Server.Listener.Frames.{frames_of, IsLong, run-frames}
use distributed_logger.Server.Storage.{
  decode_packet, decode_batch, Flushed, nothing, inserted, refused, undecoded, panicked, flush,
}
use distributed_logger.Server.Storage.Batch.{
  Log, payload_of, event_of, IsKnown, decode_packet-payload,
}
use distributed_logger.Server.Ingester.{Worker}
use distributed_logger.Server.Ingester.Batches.{flatten}
use distributed_logger.Server.Ingester.Pool.{Pool}
use distributed_logger.Server.Ingester.Pool.Conserved.{kept_by}
use distributed_logger.Server.System.{Link, Reach}
use distributed_logger.Server.System.Running.{NoneFails, Runs, all-Runs}
use distributed_logger.Server.System.Served.{found_by, waiting_by, Reach-Conserves}

-- A connection has carried the frames of these logs, cut into reads without an error in any way.
pub record Carried (schemas : List (List ParamType)) (l : Link) (logs : List Log) : Type 0 where
  pub fit : AllFit l.heard initial
  pub bytes : bytes_of l.heard ≡ frames_of (map payload_of logs)
  pub long : All IsLong (map payload_of logs)
  pub known : All (IsKnown schemas) logs

abbrev pub AllCarried : List (List ParamType) → List Link → List (List Log) → Type 0
AllCarried schemas [] [] = Unit {0}
AllCarried schemas [] (logs ∷ rest) = ⊥
AllCarried schemas (l ∷ links) [] = ⊥
AllCarried schemas (l ∷ links) (logs ∷ rest) =
    Carried schemas l logs × AllCarried schemas links rest

-- The documents that a flush inserts, over a database that takes all that it is given.
abbrev pub inserted_by : Flushed → List Event
inserted_by nothing = []
inserted_by (inserted events) = events
inserted_by (refused events) = []
inserted_by (undecoded e) = []
inserted_by panicked = []

abbrev pub documents_of : List (List ParamType) → List (List (List ℕ)) → List Event
documents_of schemas [] = []
documents_of schemas (batch ∷ batches) =
    inserted_by (flush schemas (λ events. true) batch) ++ documents_of schemas batches

-- All documents that the flushes of the workers inserted.
abbrev pub documents : List (List ParamType) → List Worker → List Event
documents schemas [] = []
documents schemas (w ∷ workers) = documents_of schemas w.flushed ++ documents schemas workers

-- Whether a packet fails to decode, and the weight of its documents.
abbrev bad : Outcome (List Event) → ℕ
bad (ok events) = 0
bad (err e) = 1
bad panic = 1

abbrev document_weight : (Event → ℕ) → Outcome (List Event) → ℕ
document_weight f (ok events) = weigh f events
document_weight f (err e) = 0
document_weight f panic = 0

good-bind :
    (f : Event → ℕ) (o rest : Outcome (List Event)) (n : ℕ)
    → bad o ≡ 0
    → (events : List Event) × (rest ≡ ok events) × (weigh f events ≡ n)
    → (events : List Event) × ((o >>= λ first. rest >>= λ es. ok (first ++ es)) ≡ ok events)
      × (weigh f events ≡ document_weight f o + n)
good-bind f (ok first) rest n h (es, e, w) =
    (first ++ es, rw e refl, omega (arith, w, weigh-append f first es))
good-bind f (err e) rest n h r = absurd (omega (arith, h))
good-bind f panic rest n h r = absurd (omega (arith, h))

-- Of the packets that all connections found.
module _ (schemas : List (List ParamType)) where
  found-logs :
      (q : List ℕ → ℕ) (links : List Link) (logs : List (List Log))
      → AllCarried schemas links logs
      → found_by q links ≡ weigh q (map payload_of (flatten logs))
  found-logs q [] [] h = refl
  found-logs q [] (ls ∷ logs) h = absurd h
  found-logs q (l ∷ links) [] h = absurd h
  found-logs q (l ∷ links) (ls ∷ logs) h =
      let (got, on, at) = run-frames (map payload_of ls) l.heard h.0.long h.0.fit h.0.bytes in
      omega (
        arith,
        ap (weigh q) got,
        ap (weigh q) (map-append payload_of ls (flatten logs)),
        weigh-append q (map payload_of ls) (map payload_of (flatten logs)),
        found-logs q links logs h.1,
      )

  all-IsKnown :
      (links : List Link) (logs : List (List Log))
      → AllCarried schemas links logs
      → All (IsKnown schemas) (flatten logs)
  all-IsKnown [] [] h = tt
  all-IsKnown [] (ls ∷ logs) h = absurd h
  all-IsKnown (l ∷ links) [] h = absurd h
  all-IsKnown (l ∷ links) (ls ∷ logs) h =
      All-append (IsKnown schemas) ls (flatten logs) h.0.known (all-IsKnown links logs h.1)

  none-bad :
      (logs : List Log)
      → All (IsKnown schemas) logs
      → weigh (λ packet. bad (decode_packet schemas packet)) (map payload_of logs) ≡ 0
  none-bad [] k = refl
  none-bad (l ∷ logs) k =
      omega (arith, ap bad (decode_packet-payload schemas l k.0), none-bad logs k.1)

  weigh-events :
      (f : Event → ℕ) (logs : List Log)
      → All (IsKnown schemas) logs
      → weigh (λ packet. document_weight f (decode_packet schemas packet)) (map payload_of logs)
        ≡ weigh f (map event_of logs)
  weigh-events f [] k = refl
  weigh-events f (l ∷ logs) k =
      omega (
        arith,
        ap (document_weight f) (decode_packet-payload schemas l k.0),
        weigh-events f logs k.1,
      )

  -- A batch of good packets decodes, to the documents of its packets.
  good-batch :
      (f : Event → ℕ) (batch : List (List ℕ))
      → weigh (λ packet. bad (decode_packet schemas packet)) batch ≡ 0
      → (events : List Event) × (decode_batch schemas batch ≡ ok events)
        × (weigh f events
            ≡ weigh (λ packet. document_weight f (decode_packet schemas packet)) batch)
  unfolding decode_batch
  good-batch f [] h = ([], refl, refl)
  good-batch f (packet ∷ batch) h =
      good-bind f (decode_packet schemas packet) (decode_batch schemas batch)
        (weigh (λ p. document_weight f (decode_packet schemas p)) batch) (omega (arith, h))
        (good-batch f batch (omega (arith, h)))

  inserted-ok :
      (batch : List (List ℕ)) (events : List Event)
      → decode_batch schemas batch ≡ ok events
      → inserted_by (flush schemas (λ es. true) batch) ≡ events
  unfolding flush
  inserted-ok batch [] e = rw e refl
  inserted-ok batch (d ∷ events) e = rw e refl

  -- A batch decodes.
  abbrev pub Decodes : List (List ℕ) → Type 0
  Decodes batch = (events : List Event) × (decode_batch schemas batch ≡ ok events)

  good-batches :
      (f : Event → ℕ) (batches : List (List (List ℕ)))
      → weigh (λ packet. bad (decode_packet schemas packet)) (flatten batches) ≡ 0
      → All Decodes batches
        × (weigh f (documents_of schemas batches)
            ≡ weigh (λ packet. document_weight f (decode_packet schemas packet)) (flatten batches))
  good-batches f [] h = (tt, refl)
  good-batches f (batch ∷ batches) h =
      let q = λ (packet : List ℕ). bad (decode_packet schemas packet) in
      let d = λ (packet : List ℕ). document_weight f (decode_packet schemas packet) in
      let split = weigh-append q batch (flatten batches) in
      let (events, e, w) = good-batch f batch (omega (arith, h, split)) in
      let (later, w') = good-batches f batches (omega (arith, h, split)) in
      (
        ((events, e), later),
        omega (
          arith,
          weigh-append f (inserted_by (flush schemas (λ es. true) batch))
              (documents_of schemas batches),
          ap (weigh f) (inserted-ok batch events e),
          w,
          w',
          weigh-append d batch (flatten batches),
        ),
      )

none-waiting :
    (q : List ℕ → ℕ) (links : List Link)
    → All (λ (l : Link). l.waiting ≡ []) links
    → waiting_by q links ≡ 0
none-waiting q [] h = refl
none-waiting q (l ∷ links) h = omega (arith, ap (weigh q) h.0, none-waiting q links h.1)

-- What the workers have flushed.
abbrev flushed_by : (List ℕ → ℕ) → List Worker → ℕ
flushed_by q [] = 0
flushed_by q (w ∷ workers) = weigh q (flatten w.flushed) + flushed_by q workers

flushed-le : (q : List ℕ → ℕ) (workers : List Worker) → flushed_by q workers ≤ kept_by q workers
flushed-le q [] = omega arith
flushed-le q (w ∷ workers) = elim (Bool-cases w.running) [
  | inl on ↦ rw on (omega (arith, weigh-append q (flatten w.flushed) w.batch, flushed-le q workers))
  | inr off ↦ rw off (omega (arith, flushed-le q workers))
]

flushed_all :
    (q : List ℕ → ℕ) (workers : List Worker)
    → All (λ (w : Worker). w.batch ≡ []) workers
    → flushed_by q workers ≡ kept_by q workers
flushed_all q [] h = refl
flushed_all q (w ∷ workers) h =
    let empty : weigh q w.batch ≡ 0 = ap (weigh q) h.0 in
    elim (Bool-cases w.running) [
      | inl on ↦ rw on (
          omega
            (arith, empty, weigh-append q (flatten w.flushed) w.batch, flushed_all q workers h.1))
      | inr off ↦ rw off (omega (arith, flushed_all q workers h.1))
    ]

module _ (schemas : List (List ParamType)) where
  workers-documents :
      (f : Event → ℕ) (workers : List Worker)
      → flushed_by (λ packet. bad (decode_packet schemas packet)) workers ≡ 0
      → All (λ (w : Worker). All (Decodes schemas) w.flushed) workers
        × (weigh f (documents schemas workers)
            ≡ flushed_by (λ packet. document_weight f (decode_packet schemas packet)) workers)
  workers-documents f [] h = (tt, refl)
  workers-documents f (w ∷ workers) h =
      let (now, e) = good-batches schemas f w.flushed (omega (arith, h)) in
      let (later, e') = workers-documents f workers (omega (arith, h)) in
      (
        (now, later),
        omega (
          arith,
          weigh-append f (documents_of schemas w.flushed) (documents schemas workers),
          e,
          e',
        ),
      )

  none_flushed-bad :
      {c : ℕ} {w b : ℤ} {links : List Link} {p : Pool} (logs : List (List Log))
      → Reach c w b links p
      → AllCarried schemas links logs
      → flushed_by (λ packet. bad (decode_packet schemas packet)) p.workers ≡ 0
  none_flushed-bad {links} {p} logs past h =
      let q = λ (packet : List ℕ). bad (decode_packet schemas packet) in
      omega (
        arith,
        flushed-le q p.workers,
        Reach-Conserves q past,
        found-logs schemas q links logs h,
        none-bad schemas (flatten logs) (all-IsKnown schemas links logs h),
      )

-- Let the connections of a server have carried the frames of logs that are known to its description and
-- whose payloads are longer than 12 bytes, cut into reads without an error in any way. However the
-- connections and the workers took turns, every batch that a worker has flushed decodes.
pub flushed_batches_decode :
    {c : ℕ} {w b : ℤ} {links : List Link} {p : Pool} (schemas : List (List ParamType))
    (logs : List (List Log))
    → Reach c w b links p
    → AllCarried schemas links logs
    → All (λ (v : Worker). All (Decodes schemas) v.flushed) p.workers
flushed_batches_decode {p} schemas logs past h =
    (workers-documents schemas (λ e. 0) p.workers (none_flushed-bad schemas logs past h)).0

-- Let the connections of a server have carried the frames of logs that are known to its description and
-- whose payloads are longer than 12 bytes, cut into reads without an error in any way, and let no flush
-- of the history have returned an error. Let no connection be waiting to hand on a packet, the
-- channel be empty, and no worker hold a batch that it has not flushed. Then all workers still run, and
-- the documents that their flushes insert, over a database that takes all that it is given, are those
-- of the logs of all connections, each as often as it was logged.
pub all_stored :
    {c : ℕ} {w b : ℤ} {links : List Link} {p : Pool} (schemas : List (List ParamType))
    (logs : List (List Log)) (f : Event → ℕ) (past : Reach c w b links p)
    → NoneFails past
    → AllCarried schemas links logs
    → All (λ (l : Link). l.waiting ≡ []) links
    → p.channel ≡ []
    → All (λ (v : Worker). v.batch ≡ []) p.workers
    → All Runs p.workers
      × (weigh f (documents schemas p.workers) ≡ weigh f (map event_of (flatten logs)))
all_stored {links} {p} schemas logs f past good h none_waiting empty all_flushed =
    let d = λ (packet : List ℕ). document_weight f (decode_packet schemas packet) in
    (
      all-Runs past good,
      (workers-documents schemas f p.workers (none_flushed-bad schemas logs past h)).1
          ∙ omega (
            arith,
            flushed_all d p.workers all_flushed,
            Reach-Conserves d past,
            none-waiting d links none_waiting,
            ap (weigh d) empty,
            found-logs schemas d links logs h,
            weigh-events schemas f (flatten logs) (all-IsKnown schemas links logs h),
          ),
    )
