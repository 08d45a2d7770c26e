-- ===== src/Client/Buffer.antt =====
-- The buffer contract of client/api/buffer/IBuffer.hh (`IBufferWrapper`), as a client of it sees it:
-- a block of bytes behind `getData`, a write offset, and a `writeData` that clips at the capacity.
use distributed_logger.Base.{
  ℕ, ◌+◌, ◌-◌, ◌≤◌, ◌<◌, min, ◌≡◌, Option, some, List, mod64, length, take, overwrite,
}

-- `write_data` gives `none` where the source would touch memory outside a block.
pub record IBufferWrapper : Type 1 where
  pub Buffer : Type 0
  pub IsValid : Buffer → Type 0
  pub make : ℕ → Buffer
  pub get_data : Buffer → List ℕ
  pub get_capacity : Buffer → ℕ
  pub get_read_offset : Buffer → ℕ
  pub get_write_offset : Buffer → ℕ
  pub set_write_offset : ℕ → Buffer → Buffer
  pub write_data : List ℕ → ℕ → Buffer → Option (ℕ × Buffer)
  pub make-IsValid : (n : ℕ) → n < mod64 → IsValid (make n)
  pub capacity_make : (n : ℕ) → get_capacity (make n) ≡ n
  pub offset_make : (n : ℕ) → get_write_offset (make n) ≡ 0
  pub read_make : (n : ℕ) → get_read_offset (make n) ≡ 0
  pub length_data : (b : Buffer) → IsValid b → length (get_data b) ≡ get_capacity b
  pub capacity_lt : (b : Buffer) → IsValid b → get_capacity b < mod64
  pub offset_le : (b : Buffer) → IsValid b → get_write_offset b ≤ get_capacity b
  pub set-IsValid :
      (k : ℕ) (b : Buffer) → IsValid b → k ≤ get_capacity b → IsValid (set_write_offset k b)
  pub data_set : (k : ℕ) (b : Buffer) → get_data (set_write_offset k b) ≡ get_data b
  pub capacity_set : (k : ℕ) (b : Buffer) → get_capacity (set_write_offset k b) ≡ get_capacity b
  pub read_set : (k : ℕ) (b : Buffer) → get_read_offset (set_write_offset k b) ≡ get_read_offset b
  pub offset_set : (k : ℕ) (b : Buffer) → get_write_offset (set_write_offset k b) ≡ k
  pub write_lem :
      (bytes : List ℕ) (n : ℕ) (b : Buffer)
      → IsValid b
      → n ≤ length bytes
      → n + get_write_offset b < mod64
      → let k = min n (get_capacity b - get_write_offset b) in
        (b' : Buffer) × (write_data bytes n b ≡ some (k, b'))
        × (get_data b' ≡ overwrite (get_data b) (get_write_offset b) (take k bytes))
        × (get_write_offset b' ≡ get_write_offset b + k)
        × (get_capacity b' ≡ get_capacity b)
        × (get_read_offset b' ≡ get_read_offset b)
        × IsValid b'
