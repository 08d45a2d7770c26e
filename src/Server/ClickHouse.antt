-- ===== src/Server/ClickHouse.antt =====
-- `ClickHouseStorage.Flush`, which `GoCodeGen.generate_code` of tools/code_gen.py writes. A row is the
-- number of the event and what `json.Marshal` makes of the fields behind it; that function, and what
-- the database answers, are arguments.
pub mod Agreement
use distributed_logger.Base.{ℕ, Bool, Option, none, some, List, [], ◌∷◌, ◌++◌, if◌then◌else◌}
use distributed_logger.Server.Decoder.{
  Outcome, Error, ok, err, panic, ◌>>=◌, slice_from, decode_uint64,
}
use distributed_logger.Server.EventDecoder.{ParamType, Event, decode_event}
use distributed_logger.Server.Storage.{get_elem?}

abbrev pub Row : Type 0
Row = ℕ × List ℕ

-- What the database answers: to `PrepareBatch`, to `Append` of a row, and to `Send` of the batch.
pub record Database : Type 0 where
  pub prepares : Bool
  pub appends : Row → Bool
  pub sends : List Row → Bool

-- `Append` of the row of a decoded event. An error is printed, and the loop goes on.
unfoldable pub append_row : (Event → List ℕ) → Database → Event → List Row
append_row marshal db decoded =
    let row : Row = (decoded.event, marshal decoded) in if db.appends row then row ∷ [] else []

-- The cases of the `switch`; it has no default.
unfoldable pub append_case :
    (Event → List ℕ) → Database → Option (List ParamType) → ℕ → ℕ → List ℕ → Outcome (List Row)
unfolding append_row
append_case marshal db none event n packet = ok []
append_case marshal db (some types) event n packet = do
  tail ← slice_from n packet
  decoded ← decode_event event types tail
  ok (append_row marshal db decoded)

-- The body of the loop behind `DecodeUint64`, whose error is printed and passes the packet over.
unfoldable pub append_decoded :
    (Event → List ℕ)
    → Database
    → List (List ParamType)
    → List ℕ
    → Outcome (ℕ × ℕ)
    → Outcome (List Row)
unfolding append_case
append_decoded marshal db schemas packet (ok (event, n)) =
    append_case marshal db (get_elem? schemas event) event n packet
append_decoded marshal db schemas packet (err e) = ok []
append_decoded marshal db schemas packet panic = panic

-- The loop, with the rows appended in order.
unfoldable pub append_batch :
    (Event → List ℕ) → Database → List (List ParamType) → List (List ℕ) → Outcome (List Row)
unfolding append_decoded
append_batch marshal db schemas [] = ok []
append_batch marshal db schemas (packet ∷ batch) = do
  first ← append_decoded marshal db schemas packet (decode_uint64 packet)
  rest ← append_batch marshal db schemas batch
  ok (first ++ rest)

-- What `Flush` returns, with the rows that it sent.
pub data Flushed : Type 0 where
  unprepared : Flushed
  inserted : List Row → Flushed
  refused : List Row → Flushed
  undecoded : Error → Flushed
  panicked : Flushed

-- What follows the loop.
abbrev pub send_batch : Database → Outcome (List Row) → Flushed
send_batch db (ok rows) = if db.sends rows then inserted rows else refused rows
send_batch db (err e) = undecoded e
send_batch db panic = panicked

unfoldable pub flush : (Event → List ℕ) → Database → List (List ParamType) → List (List ℕ) → Flushed
flush marshal db schemas batch =
    if db.prepares then send_batch db (append_batch marshal db schemas batch) else unprepared
