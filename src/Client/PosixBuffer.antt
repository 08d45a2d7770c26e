-- ===== src/Client/PosixBuffer.antt =====
-- client/posix_buffer/PosixBuffer.{hh,cc}: a calloc'ed block with a read and a write offset.
-- A `memcpy` that leaves its block is undefined behaviour in the source; here the call gives `none`.
-- `calloc` is taken to succeed.
pub mod Access
pub mod Contract
use distributed_logger.Base.{
  ℕ, ◌+◌, ◌≤◌, ◌<◌, ◌≡◌, ◌&&◌, Option, none, some, List, mod64, add64, sub64, length, take, drop,
  replicate, overwrite, leb, if◌then◌else◌,
}

pub record PosixBuffer : Type 0 where
  pub buffer : List ℕ
  pub size : ℕ
  pub read_offset : ℕ
  pub write_offset : ℕ

-- The constructor.
unfoldable pub make : ℕ → PosixBuffer
make size = record { buffer = replicate size 0; size = size; read_offset = 0; write_offset = 0 }

-- How many bytes `readData` and `writeData` move, asked for `n` at offset `off`.
abbrev pub clip : ℕ → ℕ → ℕ → ℕ
clip size n off = if leb size (add64 n off) then sub64 size off else n

-- The bytes copied to the caller, and how many.
unfoldable pub read_data : ℕ → PosixBuffer → Option (ℕ × List ℕ × PosixBuffer)
read_data n b =
    let k = clip b.size n b.read_offset in
    if leb (b.read_offset + k) (length b.buffer)
    then some
        (k, take k (drop b.read_offset b.buffer), record b { read_offset = add64 b.read_offset k })
    else none

unfoldable pub get_data : PosixBuffer → List ℕ
get_data b = b.buffer

unfoldable pub get_capacity : PosixBuffer → ℕ
get_capacity b = b.size

-- The source block `bytes` must hold what is copied from it too.
unfoldable pub write_data : List ℕ → ℕ → PosixBuffer → Option (ℕ × PosixBuffer)
write_data bytes n b =
    let k = clip b.size n b.write_offset in
    if leb (b.write_offset + k) (length b.buffer) && leb k (length bytes)
    then some (
      k,
      record b {
        buffer = overwrite b.buffer b.write_offset (take k bytes);
        write_offset = add64 b.write_offset k;
      },
    )
    else none

unfoldable pub get_read_offset : PosixBuffer → ℕ
get_read_offset b = b.read_offset

unfoldable pub get_write_offset : PosixBuffer → ℕ
get_write_offset b = b.write_offset

unfoldable pub set_read_offset : ℕ → PosixBuffer → PosixBuffer
set_read_offset offset b = record b { read_offset = offset }

unfoldable pub set_write_offset : ℕ → PosixBuffer → PosixBuffer
set_write_offset offset b = record b { write_offset = offset }

-- `memcpy(getData(), bytes, length bytes)`, a write that goes past the interface.
unfoldable pub store_front : List ℕ → PosixBuffer → Option PosixBuffer
store_front bytes b =
    if leb (length bytes) (length b.buffer)
    then some (record b { buffer = overwrite b.buffer 0 bytes })
    else none

-- The block has the size it was made with, and both offsets stay inside it.
pub record IsValid (b : PosixBuffer) : Type 0 where
  pub block : length b.buffer ≡ b.size
  pub small : b.size < mod64
  pub read_in : b.read_offset ≤ b.size
  pub write_in : b.write_offset ≤ b.size
