-- ===== src/Server/Decoder.antt =====
-- server/decoder/decoder.go. A byte slice is a list; a slice expression out of range panics.
pub mod Bounds
use distributed_logger.Base.{
  ℕ, ◌+◌, List, length, take, drop, ltb, leb, if◌then◌else◌, from_be, ◌-◌,
}

pub data Error : Type 0 where
  short_uint16 short_uint64 no_length short_string : Error

-- Go's results where the error is nil, the error, or the panic of the goroutine.
pub data Outcome {ℓ} (A : Type ℓ) : Type ℓ where
  ok : A → Outcome A
  err : Error → Outcome A
  panic : Outcome A

infixl 5 ◌>>=◌
abbrev pub ◌>>=◌ {ℓ κ} : {A : Type ℓ} {B : Type κ} → Outcome A → (A → Outcome B) → Outcome B
ok a >>= f = f a
err e >>= f = err e
panic >>= f = panic

-- `packet[n:]`
unfoldable pub slice_from : ℕ → List ℕ → Outcome (List ℕ)
slice_from n packet = if leb n (length packet) then ok (drop n packet) else panic

-- `packet[lo:hi]`
unfoldable pub slice : ℕ → ℕ → List ℕ → Outcome (List ℕ)
slice lo hi packet =
    if leb lo hi
    then (if leb hi (length packet) then ok (take (hi - lo) (drop lo packet)) else panic)
    else panic

-- `DecodeUint16`; `binary.Read` of two bytes does not fail.
unfoldable pub decode_uint16 : List ℕ → Outcome (ℕ × ℕ)
unfolding slice
decode_uint16 packet =
    if ltb (length packet) 2
    then err short_uint16
    else do bytes ← slice 0 2 packet; ok (from_be bytes, 2)

-- `DecodeUint64`
unfoldable pub decode_uint64 : List ℕ → Outcome (ℕ × ℕ)
unfolding slice
decode_uint64 packet =
    if ltb (length packet) 8
    then err short_uint64
    else do bytes ← slice 0 8 packet; ok (from_be bytes, 8)

-- An error of the length is replaced by another error.
abbrev pub or_no_length {ℓ} : {A : Type ℓ} → Outcome A → Outcome A
or_no_length (ok a) = ok a
or_no_length (err e) = err no_length
or_no_length panic = panic

-- `DecodeString`
unfoldable pub decode_string : List ℕ → Outcome (List ℕ × ℕ)
unfolding decode_uint16 slice_from slice
decode_string packet = do
  tail ← slice_from 0 packet
  (string_length, decoded) ← or_no_length (decode_uint16 tail)
  if ltb (length packet) (decoded + string_length) then err short_string else do
    value ← slice decoded (decoded + string_length) packet
    ok (value, decoded + string_length)
