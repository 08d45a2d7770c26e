-- ===== src/Client/SeastarBuffer/Contract.antt =====
-- SeastarBuffer against the contract of IBufferWrapper.
use distributed_logger.Base.{
  ℕ, ◌+◌, ◌-◌, ◌^◌, ◌≤◌, ◌<◌, min, ◌≡◌, refl, sym, ◌∙◌, some, List, arith, leb, if◌then◌else◌,
  length, take, drop, All, length-take, overwrite, length-overwrite, mod64, add64, sub64,
}
use distributed_logger.Client.Buffer.{IBufferWrapper}
use distributed_logger.Client.SeastarBuffer.{
  SeastarBuffer, IsValid, make, get_data, get_capacity, get_write_offset, get_read_offset,
  set_write_offset, write_data, get_buffer,
}
use distributed_logger.Client.Logger.{Arg, log_event}
use distributed_logger.Client.Logger.Wire.{IsCounted, payload}
use distributed_logger.Client.Logger.Frame.{log_event_lem}
use distributed_logger.Client.PosixBuffer.{PosixBuffer}
use distributed_logger.Client.PosixBuffer
use distributed_logger.Client.PosixBuffer.Contract.{posix_buffer}

pub write_lem :
    (bytes : List ℕ) (n : ℕ) (b : SeastarBuffer)
    → IsValid b
    → n ≤ length bytes
    → n + get_write_offset b < mod64
    → let k = min n (get_capacity b - get_write_offset b) in
      (b' : SeastarBuffer) × (write_data bytes n b ≡ some (k, b'))
      × (get_data b' ≡ overwrite (get_data b) (get_write_offset b) (take k bytes))
      × (get_write_offset b' ≡ get_write_offset b + k)
      × (get_capacity b' ≡ get_capacity b)
      × (get_read_offset b' ≡ get_read_offset b)
      × IsValid b'
unfolding get_data get_capacity get_write_offset get_read_offset write_data
write_lem bytes n b v h w =
    let size = length b.buffer in
    let k = min n (length b.buffer - b.write_offset) in
    let block = overwrite b.buffer b.write_offset (take k bytes) in
    let same : length block ≡ length b.buffer =
      length-overwrite b.buffer b.write_offset (take k bytes)
        (omega (arith, length-take k bytes, v.write_in)) in
    let clipped : (if leb size (add64 n b.write_offset) then sub64 size b.write_offset else n) ≡ k =
      ground (arith, v.small, v.write_in, w) in
    (
      record b { buffer = block; write_offset = b.write_offset + k },
      ground (arith, clipped, v.small, v.write_in, w),
      refl,
      refl,
      same,
      refl,
      record {
        small = omega (arith, same, v.small);
        read_in = omega (arith, same, v.read_in);
        write_in = omega (arith, same, v.write_in);
      },
    )

pub length_data : (b : SeastarBuffer) → IsValid b → length (get_data b) ≡ get_capacity b
unfolding get_data get_capacity
length_data b v = refl

pub capacity_lt : (b : SeastarBuffer) → IsValid b → get_capacity b < mod64
unfolding get_capacity
capacity_lt b v = v.small

pub offset_le : (b : SeastarBuffer) → IsValid b → get_write_offset b ≤ get_capacity b
unfolding get_capacity get_write_offset
offset_le b v = v.write_in

pub set-IsValid :
    (k : ℕ) (b : SeastarBuffer) → IsValid b → k ≤ get_capacity b → IsValid (set_write_offset k b)
unfolding set_write_offset get_capacity
set-IsValid k b v h = record { small = v.small; read_in = v.read_in; write_in = h }

pub data_set : (k : ℕ) (b : SeastarBuffer) → get_data (set_write_offset k b) ≡ get_data b
unfolding get_data set_write_offset
data_set k b = refl

pub capacity_set :
    (k : ℕ) (b : SeastarBuffer) → get_capacity (set_write_offset k b) ≡ get_capacity b
unfolding get_capacity set_write_offset
capacity_set k b = refl

pub read_set :
    (k : ℕ) (b : SeastarBuffer) → get_read_offset (set_write_offset k b) ≡ get_read_offset b
unfolding get_read_offset set_write_offset
read_set k b = refl

pub offset_set : (k : ℕ) (b : SeastarBuffer) → get_write_offset (set_write_offset k b) ≡ k
unfolding get_write_offset set_write_offset
offset_set k b = refl

-- The library allocates as many bytes as it is asked for.
module _ (temporary_buffer : ℕ → List ℕ)
    (allocated : (n : ℕ) → length (temporary_buffer n) ≡ n) where
  pub make-IsValid : (n : ℕ) → n < mod64 → IsValid (make temporary_buffer n)
  unfolding make
  make-IsValid n h = record {
    small = omega (arith, allocated n, h);
    read_in = omega arith;
    write_in = omega arith;
  }

  pub capacity_make : (n : ℕ) → get_capacity (make temporary_buffer n) ≡ n
  unfolding get_capacity make
  capacity_make n = allocated n

  pub offset_make : (n : ℕ) → get_write_offset (make temporary_buffer n) ≡ 0
  unfolding get_write_offset make
  offset_make n = refl

  pub read_make : (n : ℕ) → get_read_offset (make temporary_buffer n) ≡ 0
  unfolding get_read_offset make
  read_make n = refl

  abbrev pub seastar_buffer : IBufferWrapper
  seastar_buffer = record {
    Buffer = SeastarBuffer;
    IsValid = IsValid;
    make = make temporary_buffer;
    get_data = get_data;
    get_capacity = get_capacity;
    get_read_offset = get_read_offset;
    get_write_offset = get_write_offset;
    set_write_offset = set_write_offset;
    write_data = write_data;
    make-IsValid = make-IsValid;
    capacity_make = capacity_make;
    offset_make = offset_make;
    read_make = read_make;
    length_data = length_data;
    capacity_lt = capacity_lt;
    offset_le = offset_le;
    set-IsValid = set-IsValid;
    data_set = data_set;
    capacity_set = capacity_set;
    read_set = read_set;
    offset_set = offset_set;
    write_lem = write_lem;
  }

  -- A generated function builds the same payload over a SeastarBuffer as over a PosixBuffer, in a block
  -- of the same size, whatever bytes the library allocates: `getBuffer` gives a block that holds the
  -- event and the arguments behind the four bytes of the length word.
  same_payload :
      (moved_from : List ℕ) (event : ℕ) (args : List Arg)
      → All IsCounted args
      → 4 + length (payload event args) < 2 ^ 31
      → (p : PosixBuffer) × (s : SeastarBuffer) × (log_event posix_buffer event args ≡ some p)
        × (log_event seastar_buffer event args ≡ some s)
        × (length (get_buffer moved_from s).0 ≡ PosixBuffer.get_capacity p)
        × (drop 4 (get_buffer moved_from s).0 ≡ drop 4 (PosixBuffer.get_data p))
        × (drop 4 (get_buffer moved_from s).0 ≡ payload event args)
  unfolding get_buffer get_data get_capacity
  same_payload moved_from event args counted small =
      let (p, ep, vp, cp, wp, rp, dp) = log_event_lem posix_buffer event args counted small in
      let (s, es, vs, cs, ws, rs, ds) = log_event_lem seastar_buffer event args counted small in
      (p, s, ep, es, cs ∙ sym cp, ds ∙ sym dp, ds)
