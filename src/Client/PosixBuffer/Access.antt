-- ===== src/Client/PosixBuffer/Access.antt =====
-- What a read and a write of a PosixBuffer do, inside the block and past its end.
use distributed_logger.Base.{
  ap₂, subst, take-append, drop_before-overwrite, take_all, drop-overwrite, ℕ, ◌+◌, ◌-◌, ◌≤◌, ◌<◌,
  min, ◌≡◌, refl, sym, ◌∙◌, ap, none, some, List, ◌++◌, arith, mod64, length, take, drop,
  length-take, length-overwrite, take-overwrite, length-replicate, overwrite,
}
use distributed_logger.Client.PosixBuffer.{PosixBuffer, IsValid, clip, make, read_data, write_data}

-- A request that does not wrap is clipped at the room that is left.
pub clip-min :
    (size n off : ℕ)
    → size < mod64
    → off ≤ size
    → n + off < mod64
    → clip size n off ≡ min n (size - off)
clip-min size n off h k w = ground arith

pub make-IsValid : (n : ℕ) → n < mod64 → IsValid (make n)
unfolding make
make-IsValid n h = record {
  block = length-replicate n 0;
  small = h;
  read_in = omega arith;
  write_in = omega arith;
}

-- The buffer after `k` bytes have been put at its write offset.
abbrev pub written : List ℕ → ℕ → PosixBuffer → PosixBuffer
written bytes k b = record b {
  buffer = overwrite b.buffer b.write_offset (take k bytes);
  write_offset = b.write_offset + k;
}

pub written-IsValid :
    (bytes : List ℕ) (k : ℕ) (b : PosixBuffer)
    → k ≤ length bytes
    → b.write_offset + k ≤ b.size
    → IsValid b
    → IsValid (written bytes k b)
written-IsValid bytes k b h fits v = record {
  block =
      omega (arith, length-overwrite b.buffer b.write_offset (take k bytes), length-take k bytes);
  small = omega arith;
  read_in = omega arith;
  write_in = omega arith;
}

-- A write asked for `n` bytes puts down as many as there is room for.
pub write_data_lem :
    (bytes : List ℕ) (n : ℕ) (b : PosixBuffer)
    → IsValid b
    → n ≤ length bytes
    → n + b.write_offset < mod64
    → let k = min n (b.size - b.write_offset) in write_data bytes n b ≡ some (k, written bytes k b)
unfolding write_data
write_data_lem bytes n b v h w = ground (arith, clip-min b.size n b.write_offset)

pub read_data_lem :
    (n : ℕ) (b : PosixBuffer)
    → IsValid b
    → n + b.read_offset < mod64
    → let k = min n (b.size - b.read_offset) in
      read_data n b
      ≡ some (k, take k (drop b.read_offset b.buffer), record b { read_offset = b.read_offset + k })
unfolding read_data
read_data_lem n b v w = ground (arith, clip-min b.size n b.read_offset)

-- Offered a source of enough bytes, with no wrap-around of the offset, a valid buffer takes as many
-- of the bytes as it has room for, puts them right behind what was written before, leaves the rest
-- of the block and the read offset alone, and stays valid.
write_data-appends :
    (bytes : List ℕ) (n : ℕ) (b : PosixBuffer)
    → IsValid b
    → n ≤ length bytes
    → n + b.write_offset < mod64
    → let k = min n (b.size - b.write_offset) in
      (b' : PosixBuffer) × (write_data bytes n b ≡ some (k, b'))
      × (b'.write_offset ≡ b.write_offset + k)
      × (take b'.write_offset b'.buffer ≡ take b.write_offset b.buffer ++ take k bytes)
      × (drop b'.write_offset b'.buffer ≡ drop b'.write_offset b.buffer)
      × (b'.read_offset ≡ b.read_offset)
      × IsValid b'
write_data-appends bytes n b v h w = (
  written bytes k b,
  write_data_lem bytes n b v h w,
  refl,
  ap (λ m. take (b.write_offset + m) (written bytes k b).buffer) (sym len)
      ∙ take-overwrite b.buffer b.write_offset (take k bytes) room,
  ap (λ m. drop (b.write_offset + m) (written bytes k b).buffer) (sym len)
      ∙ (drop-overwrite b.buffer b.write_offset (take k bytes) room
          ∙ ap (λ m. drop (b.write_offset + m) b.buffer) len),
  refl,
  written-IsValid bytes k b (omega arith) (omega arith) v,
)
  where
    k : ℕ
    k = min n (b.size - b.write_offset)

    len : length (take k bytes) ≡ k
    len = omega (arith, length-take k bytes)

    room : b.write_offset + length (take k bytes) ≤ length b.buffer
    room = omega (arith, len, v.block, v.write_in)

-- Bytes that fit into a valid buffer whose offsets are equal are read back as they were written.
read_data-write_data :
    (bytes : List ℕ) (b : PosixBuffer)
    → IsValid b
    → b.read_offset ≡ b.write_offset
    → length bytes + b.write_offset ≤ b.size
    → (b' b'' : PosixBuffer) × (write_data bytes (length bytes) b ≡ some (length bytes, b'))
      × (read_data (length bytes) b' ≡ some (length bytes, bytes, b''))
      × (b''.read_offset ≡ b''.write_offset)
read_data-write_data bytes b v same fits = (
  b',
  record b' { read_offset = b.read_offset + k' },
  subst (λ k. write_data bytes n b ≡ some (k, written bytes k b)) all
      (write_data_lem bytes n b v (omega arith) (omega arith)),
  read_data_lem n b' (written-IsValid bytes n b (omega arith) (omega arith) v) (omega arith)
      ∙ ap₂ (λ k bs. some (k, bs, record b' { read_offset = b.read_offset + k' })) all' back,
  omega arith,
)
  where
    n : ℕ
    n = length bytes

    b' : PosixBuffer
    b' = written bytes n b

    k' : ℕ
    k' = min n (b.size - b.read_offset)

    all : min n (b.size - b.write_offset) ≡ n
    all = omega arith

    all' : k' ≡ n
    all' = omega arith

    back : take k' (drop b.read_offset b'.buffer) ≡ bytes
    back =
        rw (same, take_all n bytes (omega arith))
          (rw (drop_before-overwrite b.buffer b.write_offset bytes (omega (arith, v.block)))
            (take-append _ bytes _ (omega arith)))

-- With the read offset past the end, every read leaves the block.
read_data_past_end :
    (n : ℕ) (b : PosixBuffer)
    → length b.buffer ≡ b.size
    → b.size < b.read_offset
    → b.read_offset < mod64
    → n < mod64
    → read_data n b ≡ none
unfolding read_data
read_data_past_end n b e past small h = ground arith
