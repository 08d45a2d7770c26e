-- ===== src/Client/PosixBuffer/Contract.antt =====
-- PosixBuffer against the contract of IBufferWrapper.
use distributed_logger.Base.{
  arith, overwrite, some, min, mod64, ◌+◌, ◌-◌, ◌<◌, ◌≡◌, length, ℕ, ◌≤◌, refl, List, take,
}
use distributed_logger.Client.Buffer.{IBufferWrapper}
use distributed_logger.Client.PosixBuffer.{
  PosixBuffer, IsValid, make, get_data, get_capacity, get_write_offset, get_read_offset,
  set_write_offset, write_data,
}
use distributed_logger.Client.PosixBuffer.Access.{
  make-IsValid, written, written-IsValid, write_data_lem,
}

pub set-IsValid :
    (k : ℕ) (b : PosixBuffer) → IsValid b → k ≤ get_capacity b → IsValid (set_write_offset k b)
unfolding set_write_offset get_capacity
set-IsValid k b v h = record { block = v.block; small = v.small; read_in = v.read_in; write_in = h }

pub write_lem :
    (bytes : List ℕ) (n : ℕ) (b : PosixBuffer)
    → IsValid b
    → n ≤ length bytes
    → n + get_write_offset b < mod64
    → let k = min n (get_capacity b - get_write_offset b) in
      (b' : PosixBuffer) × (write_data bytes n b ≡ some (k, b'))
      × (get_data b' ≡ overwrite (get_data b) (get_write_offset b) (take k bytes))
      × (get_write_offset b' ≡ get_write_offset b + k)
      × (get_capacity b' ≡ get_capacity b)
      × (get_read_offset b' ≡ get_read_offset b)
      × IsValid b'
unfolding get_data get_capacity get_write_offset get_read_offset
write_lem bytes n b v h w =
    let k = min n (b.size - b.write_offset) in
    (
      written bytes k b,
      write_data_lem bytes n b v h w,
      refl,
      refl,
      refl,
      refl,
      written-IsValid bytes k b (omega arith) (omega arith) v,
    )

pub capacity_make : (n : ℕ) → get_capacity (make n) ≡ n
unfolding get_capacity make
capacity_make n = refl

pub offset_make : (n : ℕ) → get_write_offset (make n) ≡ 0
unfolding get_write_offset make
offset_make n = refl

pub read_make : (n : ℕ) → get_read_offset (make n) ≡ 0
unfolding get_read_offset make
read_make n = refl

pub length_data : (b : PosixBuffer) → IsValid b → length (get_data b) ≡ get_capacity b
unfolding get_data get_capacity
length_data b v = v.block

pub capacity_lt : (b : PosixBuffer) → IsValid b → get_capacity b < mod64
unfolding get_capacity
capacity_lt b v = v.small

pub offset_le : (b : PosixBuffer) → IsValid b → get_write_offset b ≤ get_capacity b
unfolding get_capacity get_write_offset
offset_le b v = v.write_in

pub data_set : (k : ℕ) (b : PosixBuffer) → get_data (set_write_offset k b) ≡ get_data b
unfolding get_data set_write_offset
data_set k b = refl

pub capacity_set : (k : ℕ) (b : PosixBuffer) → get_capacity (set_write_offset k b) ≡ get_capacity b
unfolding get_capacity set_write_offset
capacity_set k b = refl

pub read_set :
    (k : ℕ) (b : PosixBuffer) → get_read_offset (set_write_offset k b) ≡ get_read_offset b
unfolding get_read_offset set_write_offset
read_set k b = refl

pub offset_set : (k : ℕ) (b : PosixBuffer) → get_write_offset (set_write_offset k b) ≡ k
unfolding get_write_offset set_write_offset
offset_set k b = refl

abbrev pub posix_buffer : IBufferWrapper
posix_buffer = record {
  Buffer = PosixBuffer;
  IsValid = IsValid;
  make = make;
  get_data = get_data;
  get_capacity = get_capacity;
  get_read_offset = get_read_offset;
  get_write_offset = get_write_offset;
  set_write_offset = set_write_offset;
  write_data = write_data;
  make-IsValid = make-IsValid;
  capacity_make = capacity_make;
  offset_make = offset_make;
  read_make = read_make;
  length_data = length_data;
  capacity_lt = capacity_lt;
  offset_le = offset_le;
  set-IsValid = set-IsValid;
  data_set = data_set;
  capacity_set = capacity_set;
  read_set = read_set;
  offset_set = offset_set;
  write_lem = write_lem;
}
