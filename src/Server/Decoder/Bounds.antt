-- ===== src/Server/Decoder/Bounds.antt =====
-- What the three decoders return, and how far they read.
use distributed_logger.Base.{
  ℕ, ◌+◌, ◌%◌, ◌≤◌, ◌<◌, ◌≡◌, refl, sym, ap, ◌∙◌, List, ◌++◌, append_assoc, arith, length, take,
  drop, length-append, take-append, drop-append, mod16, mod64, be_bytes, length-be_bytes,
  from_be-be_bytes,
}
use distributed_logger.Server.Decoder.{Outcome, ok, err, panic, decode_uint64, decode_string}

-- On success the count is `n` at most; a panic is ruled out.
abbrev pub Consumes : {A : Type 0} → ℕ → Outcome (A × ℕ) → Type 0
Consumes n (ok (a, used)) = used ≤ n
Consumes n (err e) = Unit {0}
Consumes n panic = ⊥

pub decode_uint64-Consumes : (packet : List ℕ) → Consumes (length packet) (decode_uint64 packet)
unfolding decode_uint64
decode_uint64-Consumes packet = ground arith

pub decode_string-Consumes : (packet : List ℕ) → Consumes (length packet) (decode_string packet)
unfolding decode_string
decode_string-Consumes packet = ground arith

-- Eight bytes in network order are read back, whatever follows.
pub decode_uint64-be_bytes :
    (v : ℕ) (rest : List ℕ) → v < mod64 → decode_uint64 (be_bytes 8 v ++ rest) ≡ ok (v, 8)
unfolding decode_uint64
decode_uint64-be_bytes v rest h = ground (
  arith,
  length-append (be_bytes 8 v) rest,
  length-be_bytes 8 v,
  take-append 8 (be_bytes 8 v) rest (sym (length-be_bytes 8 v)),
  from_be-be_bytes 8 v h,
)

-- A text below 64 kB behind its length is read back, whatever follows.
pub decode_string-append :
    (s rest : List ℕ)
    → length s < mod16
    → decode_string ((be_bytes 2 (length s % mod16) ++ s) ++ rest) ≡ ok (s, 2 + length s)
unfolding decode_string
decode_string-append s rest h =
    let size : List ℕ = be_bytes 2 (length s % mod16) in
    let e : length size ≡ 2 = length-be_bytes 2 (length s % mod16) in
    ground (
      arith,
      length-append (size ++ s) rest,
      length-append size s,
      e,
      ap (take 2) (append_assoc size s rest) ∙ take-append 2 size (s ++ rest) (sym e),
      ap (drop 2) (append_assoc size s rest) ∙ drop-append 2 size (s ++ rest) (sym e),
      take-append (length s) s rest refl,
      from_be-be_bytes 2 (length s % mod16) (omega arith),
    )
