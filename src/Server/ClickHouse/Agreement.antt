-- ===== src/Server/ClickHouse/Agreement.antt =====
-- The two storages on the same batch.
use distributed_logger.Base.{
  ℕ, ◌<◌, ◌≡◌, refl, sym, ap, ◌∙◌, ◌≢◌, inl, inr, true, false, Option, none, some, List, [], ◌∷◌,
  ◌++◌, map, append-nil, append_assoc, arith, ltb, if◌then◌else◌, Bool-cases, length,
}
use distributed_logger.Server.Decoder.{
  Outcome, Error, ok, err, panic, ◌>>=◌, slice_from, slice, decode_uint64, short_uint64,
}
use distributed_logger.Server.EventDecoder.{ParamType, Event, decode_event}
use distributed_logger.Server.Storage
use distributed_logger.Server.Storage.{get_elem?, decode_case, decode_packet, decode_batch}
use distributed_logger.Server.ClickHouse.{
  Row, Database, append_row, append_case, append_decoded, append_batch, Flushed, unprepared,
  inserted, refused, undecoded, panicked, send_batch, flush,
}

-- A packet too short to hold the number of an event.
abbrev pub IsShort : List ℕ → Type 0
IsShort packet = length packet < 8

-- The packets that are long enough.
unfoldable pub without_short : List (List ℕ) → List (List ℕ)
without_short [] = []
without_short (packet ∷ batch) =
    if ltb (length packet) 8 then without_short batch else packet ∷ without_short batch

-- A row for each document.
unfoldable pub rows_of : (Event → List ℕ) → Database → List Event → List Row
unfolding append_row
rows_of marshal db [] = []
rows_of marshal db (e ∷ events) = append_row marshal db e ++ rows_of marshal db events

abbrev pub map_rows : (Event → List ℕ) → Database → Outcome (List Event) → Outcome (List Row)
map_rows marshal db (ok events) = ok (rows_of marshal db events)
map_rows marshal db (err e) = err e
map_rows marshal db panic = panic

decode_uint64-long :
    (packet : List ℕ) → ltb (length packet) 8 ≡ false → (e : Error) → decode_uint64 packet ≢ err e
unfolding decode_uint64 slice
decode_uint64-long packet h e k = ground arith

decode_uint64-short :
    (packet : List ℕ) → ltb (length packet) 8 ≡ true → decode_uint64 packet ≡ err short_uint64
unfolding decode_uint64
decode_uint64-short packet h = rw h

module _ (marshal : Event → List ℕ) (db : Database) where
  rows-append :
      (xs ys : List Event)
      → rows_of marshal db (xs ++ ys) ≡ rows_of marshal db xs ++ rows_of marshal db ys
  unfolding rows_of
  rows-append [] ys = refl
  rows-append (x ∷ xs) ys =
      rw (rows-append xs ys) (
        sym
          (append_assoc (append_row marshal db x) (rows_of marshal db xs) (rows_of marshal db ys)))

  case_rows :
      (types : Option (List ParamType)) (event n : ℕ) (packet : List ℕ)
      → append_case marshal db types event n packet
        ≡ map_rows marshal db (decode_case types event n packet)
  unfolding append_case decode_case rows_of
  case_rows none event n packet = refl
  case_rows (some types) event n packet = go (slice_from n packet)
    where
      built :
          (o : Outcome Event)
          → (o >>= λ d. ok (append_row marshal db d)) ≡ map_rows marshal db (o >>= λ d. ok (d ∷ []))
      built (ok d) = ap ok (sym (append-nil (append_row marshal db d)))
      built (err e) = refl
      built panic = refl

      go :
          (o : Outcome (List ℕ))
          → (o >>= λ tail. decode_event event types tail >>= λ d. ok (append_row marshal db d))
            ≡ map_rows marshal db (o >>= λ tail. decode_event event types tail >>= λ d. ok (d ∷ []))
      go (ok tail) = built (decode_event event types tail)
      go (err e) = refl
      go panic = refl

  same :
      (o : Outcome (List Event))
      → (map_rows marshal db o >>= λ rest. ok ([] ++ rest)) ≡ map_rows marshal db o
  same (ok a) = refl
  same (err e) = refl
  same panic = refl

  joined :
      (m n : Outcome (List Event))
      → (map_rows marshal db m >>= λ first. map_rows marshal db n >>= λ rest. ok (first ++ rest))
        ≡ map_rows marshal db (m >>= λ first. n >>= λ rest. ok (first ++ rest))
  joined (ok a) (ok b) = ap ok (sym (rows-append a b))
  joined (ok a) (err e) = refl
  joined (ok a) panic = refl
  joined (err e) n = refl
  joined panic n = refl

  long_rows :
      (schemas : List (List ParamType)) (packet : List ℕ)
      → ltb (length packet) 8 ≡ false
      → append_decoded marshal db schemas packet (decode_uint64 packet)
        ≡ map_rows marshal db (decode_packet schemas packet)
  unfolding append_decoded decode_packet
  long_rows schemas packet h = go (decode_uint64 packet) (decode_uint64-long packet h)
    where
      go :
          (o : Outcome (ℕ × ℕ))
          → ((e : Error) → o ≢ err e)
          → append_decoded marshal db schemas packet o
            ≡ map_rows marshal db (o >>= λ p. decode_case (get_elem? schemas p.0) p.0 p.1 packet)
      go (ok (event, n)) long = case_rows (get_elem? schemas event) event n packet
      go (err e) long = absurd (long e refl)
      go panic long = refl

  -- ClickHouse appends the rows of the documents that Mongo would insert of the same batch without its
  -- short packets.
  pub batch_rows :
      (schemas : List (List ParamType)) (batch : List (List ℕ))
      → append_batch marshal db schemas batch
        ≡ map_rows marshal db (decode_batch schemas (without_short batch))
  unfolding append_batch append_decoded decode_batch without_short rows_of
  batch_rows schemas [] = refl
  batch_rows schemas (packet ∷ batch) = elim (Bool-cases (ltb (length packet) 8)) [
    | inl short ↦
        rw (short, decode_uint64-short packet short, batch_rows schemas batch)
          (same (decode_batch schemas (without_short batch)))
    | inr long ↦
        rw (long, long_rows schemas packet long, batch_rows schemas batch)
          (joined (decode_packet schemas packet) (decode_batch schemas (without_short batch)))
  ]

-- A database that takes all that it is given.
pub record IsReady (db : Database) : Type 0 where
  pub prepares : db.prepares ≡ true
  pub appends : (r : Row) → db.appends r ≡ true
  pub sends : (rows : List Row) → db.sends rows ≡ true

abbrev pub row_of : (Event → List ℕ) → Event → Row
row_of marshal e = (e.event, marshal e)

-- The outcome for rows that stands for an outcome for documents. ClickHouse sends an empty batch too.
abbrev pub as_rows : (Event → List ℕ) → Storage.Flushed → Flushed
as_rows marshal Storage.nothing = inserted []
as_rows marshal (Storage.inserted events) = inserted (map (row_of marshal) events)
as_rows marshal (Storage.refused events) = refused (map (row_of marshal) events)
as_rows marshal (Storage.undecoded e) = undecoded e
as_rows marshal Storage.panicked = panicked

rows_of-map :
    (marshal : Event → List ℕ) (db : Database) (events : List Event)
    → IsReady db
    → rows_of marshal db events ≡ map (row_of marshal) events
unfolding rows_of append_row
rows_of-map marshal db [] h = refl
rows_of-map marshal db (e ∷ events) h =
    rw (h.appends (row_of marshal e), rows_of-map marshal db events h) refl

send_batch-as_rows :
    (marshal : Event → List ℕ) (db : Database) (o : Outcome (List Event))
    → IsReady db
    → send_batch db (map_rows marshal db o)
      ≡ as_rows marshal (Storage.insert_fields (λ events. true) o)
send_batch-as_rows marshal db (ok []) h = rw (rows_of-map marshal db [] h, h.sends []) refl
send_batch-as_rows marshal db (ok (e ∷ events)) h =
    rw (rows_of-map marshal db (e ∷ events) h, h.sends (map (row_of marshal) (e ∷ events))) refl
send_batch-as_rows marshal db (err e) h = refl
send_batch-as_rows marshal db panic h = refl

-- Over databases that take all that they are given, and for any batch: the ClickHouse storage sends a
-- row for each document that the Mongo storage inserts of the batch without its packets of fewer than
-- 8 bytes, in the same order, and returns an error exactly where that storage does, the same one.
pub flush_agrees :
    (marshal : Event → List ℕ) (db : Database) (schemas : List (List ParamType))
    (batch : List (List ℕ))
    → IsReady db
    → flush marshal db schemas batch
      ≡ as_rows marshal (Storage.flush schemas (λ events. true) (without_short batch))
unfolding flush Storage.flush
flush_agrees marshal db schemas batch h =
    ap (λ b. if b then send_batch db (append_batch marshal db schemas batch) else unprepared)
      h.prepares
    ∙ (ap (send_batch db) (batch_rows marshal db schemas batch)
        ∙ send_batch-as_rows marshal db (decode_batch schemas (without_short batch)) h)
