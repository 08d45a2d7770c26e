-- ===== src/Client/Logger.antt =====
-- client/api/LogAPIs.hh, and the `LogEvent_*` functions that `CppCodeGen.generate_code` of
-- tools/code_gen.py writes into the class. Both are templates over the buffer, which is the section's
-- parameter here; a `none` is a `memcpy` outside a block.
pub mod Wire
pub mod Frame
use distributed_logger.Base.{
  ◌>>=◌, ℕ, zero, suc, ◌+◌, ◌-◌, ◌%◌, ◌^◌, Option, some, none, List, [], ◌∷◌, ◌++◌, mod16, mod32,
  mod64, add64, length, ltb, if◌then◌else◌, be_bytes,
}
use distributed_logger.Client.Buffer.{IBufferWrapper}

-- The arguments of a generated function behind the event: the types that the generator knows, and any
-- other integral type (`bool`, say), which the call of `encode` converts to `uint64_t`.
pub data Arg : Type 0 where
  uint64 : ℕ → Arg
  string : List ℕ → Arg
  other : ℕ → Arg

-- An `int` is its bit pattern below 2 ^ 32; its conversion to `size_t` extends the sign.
abbrev pub to_size_t : ℕ → ℕ
to_size_t t = if ltb t (2 ^ 31) then t else t + (mod64 - mod32)

-- One line `total_length += …;` of the generated text. There is none for another type.
unfoldable pub add_length : ℕ → Arg → ℕ
add_length t (uint64 v) = (t + 8) % mod32
add_length t (string s) = add64 (to_size_t t) (add64 (length s) 2) % mod32
add_length t (other v) = t

unfoldable pub total_from : ℕ → List Arg → ℕ
unfolding add_length
total_from t [] = t
total_from t (a ∷ args) = total_from (add_length t a) args

-- `int total_length = 4;`, 8 bytes for the event, and the lines for the arguments.
unfoldable pub total_length : List Arg → ℕ
unfolding total_from
total_length args = total_from 12 args

module _ (I : IBufferWrapper) where
  open I use {Buffer, make, set_write_offset, write_data}

  -- `encode(buffer, const uint64_t&)`, with the number of bytes written.
  unfoldable pub encode_uint64 : ℕ → Buffer → Option (ℕ × Buffer)
  encode_uint64 v buffer = do
    (written, buffer') ← write_data (be_bytes 8 v) 8 buffer
    some (written % mod32, buffer')

  -- `encode(buffer, const std::string&)`: the size as 16 bits, then all the bytes.
  unfoldable pub encode_string : List ℕ → Buffer → Option (ℕ × Buffer)
  encode_string str buffer = do
    (size_written, buffer') ← write_data (be_bytes 2 (length str % mod16)) 2 buffer
    (str_written, buffer'') ← write_data str (length str) buffer'
    some (add64 size_written str_written % mod32, buffer'')

  unfoldable pub encode : Arg → Buffer → Option (ℕ × Buffer)
  unfolding encode_uint64 encode_string
  encode (uint64 v) = encode_uint64 v
  encode (string s) = encode_string s
  encode (other v) = encode_uint64 v

  -- The lines `encode(buffer, …);` in order. Their results are dropped.
  unfoldable pub encode_all : List Arg → Buffer → Option Buffer
  unfolding encode
  encode_all [] buffer = some buffer
  encode_all (a ∷ args) buffer = do (written, buffer') ← encode a buffer; encode_all args buffer'

  -- A generated function `LogEvent_*`, up to `_iio->send(buffer)`: the buffer that it sends.
  unfoldable pub log_event : ℕ → List Arg → Option Buffer
  log_event event args = do
    let buffer = set_write_offset 4 (make (to_size_t (total_length args)))
    (written, buffer') ← encode_uint64 event buffer
    encode_all args buffer'
