-- ===== src/Client/Logger/Wire.antt =====
-- The wire form of a log, and the size that a generated function computes for it.
use distributed_logger.Base.{
  ℕ, ◌+◌, ◌%◌, ◌^◌, ◌<◌, ◌≡◌, List, [], ◌∷◌, ◌++◌, arith, length, All, length-append, mod16, mod32,
  be_bytes, length-be_bytes,
}
use distributed_logger.Client.Logger.{
  length, ◌∷◌, be_bytes, ℕ, List, Arg, uint64, string, other, add_length, total_from, total_length,
}

-- The wire form of an argument, and of an event with its arguments.
abbrev pub wire_arg : Arg → List ℕ
wire_arg (uint64 v) = be_bytes 8 v
wire_arg (string s) = be_bytes 2 (length s % mod16) ++ s
wire_arg (other v) = be_bytes 8 v

abbrev pub wire_args : List Arg → List ℕ
wire_args [] = []
wire_args (a ∷ args) = wire_arg a ++ wire_args args

abbrev pub payload : ℕ → List Arg → List ℕ
payload event args = be_bytes 8 event ++ wire_args args

-- The types for which the generator counts the bytes.
abbrev pub IsCounted : Arg → Type 0
IsCounted (uint64 v) = Unit {0}
IsCounted (string s) = Unit {0}
IsCounted (other v) = ⊥

total_from_lem :
    (t : ℕ) (args : List Arg)
    → All IsCounted args
    → t + length (wire_args args) < 2 ^ 31
    → total_from t args ≡ t + length (wire_args args)
unfolding total_from
total_from_lem t [] c h = omega arith
total_from_lem t (uint64 v ∷ args) c h =
    let e : length (wire_arg (uint64 v) ++ wire_args args) ≡ 8 + length (wire_args args) =
      omega (arith, length-append (be_bytes 8 v) (wire_args args), length-be_bytes 8 v) in
    let e' : (t + 8) % mod32 ≡ t + 8 = omega (arith, e) in
    rw e' (omega (arith, e, total_from_lem (t + 8) args c.1 (omega (arith, e))))
total_from_lem t (string s ∷ args) c h =
    let e : length ((be_bytes 2 (length s % mod16) ++ s) ++ wire_args args)
        ≡ 2 + length s + length (wire_args args) =
      omega (
        arith,
        length-append (be_bytes 2 (length s % mod16) ++ s) (wire_args args),
        length-append (be_bytes 2 (length s % mod16)) s,
        length-be_bytes 2 (length s % mod16),
      ) in
    let e' : add_length t (string s) ≡ t + (2 + length s) =
      unfold add_length in ground (arith, e) in
    rw e' (omega (arith, e, total_from_lem (t + (2 + length s)) args c.1 (omega (arith, e))))
total_from_lem t (other v ∷ args) c h = absurd c.0

-- Where the generator counts every argument, and the frame stays below 2 GB, the `int` that it
-- computes is the size of the frame: the length word and the payload.
pub total_length_lem :
    (event : ℕ) (args : List Arg)
    → All IsCounted args
    → 4 + length (payload event args) < 2 ^ 31
    → total_length args ≡ 4 + length (payload event args)
unfolding total_length
total_length_lem event args c h =
    let e : length (payload event args) ≡ 8 + length (wire_args args) =
      omega (arith, length-append (be_bytes 8 event) (wire_args args), length-be_bytes 8 event) in
    omega (arith, e, total_from_lem 12 args c (omega (arith, e)))
