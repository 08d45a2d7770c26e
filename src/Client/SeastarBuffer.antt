-- ===== src/Client/SeastarBuffer.antt =====
-- client/seastar_buffer/SeastarBuffer.{hh,cc}: a buffer over `seastar::temporary_buffer<char>`. The
-- block of the library is the list of its bytes; what it allocates, and what it leaves behind a move,
-- are arguments. A `memcpy` that leaves a block gives `none`.
pub mod Contract
use distributed_logger.Base.{
  ℕ, ◌+◌, ◌≤◌, ◌<◌, ◌&&◌, Option, none, some, List, mod64, add64, sub64, length, take, drop,
  overwrite, leb, if◌then◌else◌,
}

pub record SeastarBuffer : Type 0 where
  pub buffer : List ℕ
  pub read_offset : ℕ
  pub write_offset : ℕ

-- The constructor.
unfoldable pub make : (ℕ → List ℕ) → ℕ → SeastarBuffer
make temporary_buffer size = record {
  buffer = temporary_buffer size;
  read_offset = 0;
  write_offset = 0;
}

unfoldable pub read_data : ℕ → SeastarBuffer → Option (ℕ × List ℕ × SeastarBuffer)
read_data n b =
    let size = length b.buffer in
    let k = if leb size (add64 n b.read_offset) then sub64 size b.read_offset else n in
    if leb (b.read_offset + k) size
    then some
        (k, take k (drop b.read_offset b.buffer), record b { read_offset = add64 b.read_offset k })
    else none

unfoldable pub get_data : SeastarBuffer → List ℕ
get_data b = b.buffer

unfoldable pub get_capacity : SeastarBuffer → ℕ
get_capacity b = length b.buffer

-- The source block `bytes` must hold what is copied from it too.
unfoldable pub write_data : List ℕ → ℕ → SeastarBuffer → Option (ℕ × SeastarBuffer)
write_data bytes n b =
    let size = length b.buffer in
    let k = if leb size (add64 n b.write_offset) then sub64 size b.write_offset else n in
    if leb (b.write_offset + k) size && leb k (length bytes)
    then some (
      k,
      record b {
        buffer = overwrite b.buffer b.write_offset (take k bytes);
        write_offset = add64 b.write_offset k;
      },
    )
    else none

unfoldable pub get_read_offset : SeastarBuffer → ℕ
get_read_offset b = b.read_offset

unfoldable pub get_write_offset : SeastarBuffer → ℕ
get_write_offset b = b.write_offset

unfoldable pub set_read_offset : ℕ → SeastarBuffer → SeastarBuffer
set_read_offset offset b = record b { read_offset = offset }

unfoldable pub set_write_offset : ℕ → SeastarBuffer → SeastarBuffer
set_write_offset offset b = record b { write_offset = offset }

-- `getBuffer` moves the block out.
unfoldable pub get_buffer : List ℕ → SeastarBuffer → List ℕ × SeastarBuffer
get_buffer moved_from b = (b.buffer, record b { buffer = moved_from })

pub record IsValid (b : SeastarBuffer) : Type 0 where
  pub small : length b.buffer < mod64
  pub read_in : b.read_offset ≤ length b.buffer
  pub write_in : b.write_offset ≤ length b.buffer
