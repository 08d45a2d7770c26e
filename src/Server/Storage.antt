-- ===== src/Server/Storage.antt =====
-- `MongoStorage.Flush`, which `GoCodeGen.get_storage_definitions_code` of tools/code_gen.py writes:
-- from a batch of packets to the documents of one `InsertMany`. `schemas` holds the parameter types
-- behind the event of each function of the description; the place in it is the event's number, which
-- the generator gives in the order of the description, by `iota` here and by an `enum` in C++.
pub mod Batch
use distributed_logger.Base.{
  ℕ, zero, suc, Bool, Option, none, some, List, [], ◌∷◌, ◌++◌, if◌then◌else◌,
}
use distributed_logger.Server.Decoder.{
  Outcome, Error, ok, err, panic, ◌>>=◌, slice_from, decode_uint64,
}
use distributed_logger.Server.EventDecoder.{ParamType, Event, decode_event}

abbrev pub get_elem? {ℓ} : {A : Type ℓ} → List A → ℕ → Option A
get_elem? [] i = none
get_elem? (x ∷ xs) zero = some x
get_elem? (x ∷ xs) (suc i) = get_elem? xs i

-- The cases of the `switch`; it has no default.
unfoldable pub decode_case : Option (List ParamType) → ℕ → ℕ → List ℕ → Outcome (List Event)
decode_case none event n packet = ok []
decode_case (some types) event n packet = do
  tail ← slice_from n packet
  decoded ← decode_event event types tail
  ok (decoded ∷ [])

-- The body of the loop: the document that a packet adds. A number with no case adds none.
unfoldable pub decode_packet : List (List ParamType) → List ℕ → Outcome (List Event)
unfolding decode_case
decode_packet schemas packet = do
  (event, n) ← decode_uint64 packet
  decode_case (get_elem? schemas event) event n packet

-- The loop. The first packet that cannot be decoded returns its error.
unfoldable pub decode_batch : List (List ParamType) → List (List ℕ) → Outcome (List Event)
decode_batch schemas [] = ok []
decode_batch schemas (packet ∷ batch) = do
  first ← decode_packet schemas packet
  rest ← decode_batch schemas batch
  ok (first ++ rest)

-- What `Flush` returns and inserts: `insert_many` tells whether the database takes the documents.
pub data Flushed : Type 0 where
  nothing : Flushed
  inserted : List Event → Flushed
  refused : List Event → Flushed
  undecoded : Error → Flushed
  panicked : Flushed

-- What follows the loop.
abbrev pub insert_fields : (List Event → Bool) → Outcome (List Event) → Flushed
insert_fields insert_many (ok []) = nothing
insert_fields insert_many (ok (e ∷ es)) =
    if insert_many (e ∷ es) then inserted (e ∷ es) else refused (e ∷ es)
insert_fields insert_many (err e) = undecoded e
insert_fields insert_many panic = panicked

unfoldable pub flush : List (List ParamType) → (List Event → Bool) → List (List ℕ) → Flushed
flush schemas insert_many batch = insert_fields insert_many (decode_batch schemas batch)
