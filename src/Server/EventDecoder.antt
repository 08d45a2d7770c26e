-- ===== src/Server/EventDecoder.antt =====
-- The functions `Decode_*` that `GoCodeGen.generate_code` of tools/code_gen.py writes for the server.
pub mod RoundTrip
use distributed_logger.Base.{ℕ, ◌+◌, List, [], ◌∷◌}
use distributed_logger.Server.Decoder.{
  Outcome, ok, err, panic, ◌>>=◌, slice_from, decode_uint64, decode_string,
}

-- The type of a parameter. For any other name than these two the generator writes a decoder that does not
-- compile, so that no server has one.
pub data ParamType : Type 0 where
  uint64 string : ParamType

pub data Field : Type 0 where
  number : ℕ → Field
  text : List ℕ → Field

-- A generated struct: the event and the fields behind it.
pub record Event : Type 0 where
  pub event : ℕ
  pub fields : List Field

unfoldable pub decode_field : ParamType → List ℕ → Outcome (Field × ℕ)
decode_field string packet = do (s, n) ← decode_string packet; ok (text s, n)
decode_field uint64 packet = do (v, n) ← decode_uint64 packet; ok (number v, n)

-- `x, decodedThisTime, err = decoder.Decode…(packet[decoded:])` for each parameter.
unfoldable pub decode_fields : List ParamType → ℕ → List ℕ → Outcome (List Field)
decode_fields [] decoded packet = ok []
decode_fields (t ∷ types) decoded packet = do
  tail ← slice_from decoded packet
  (v, n) ← decode_field t tail
  rest ← decode_fields types (decoded + n) packet
  ok (v ∷ rest)

-- `Decode_*`, for the event with the number `event` and the parameters behind it.
unfoldable pub decode_event : ℕ → List ParamType → List ℕ → Outcome Event
decode_event event types packet = do
  fields ← decode_fields types 0 packet
  ok (record { event = event; fields = fields })
