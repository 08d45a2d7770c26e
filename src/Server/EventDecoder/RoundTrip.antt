-- ===== src/Server/EventDecoder/RoundTrip.antt =====
-- The generated functions of the client against the generated decoders of the server.
use distributed_logger.Base.{
  ℕ, ◌+◌, ◌%◌, ◌≤◌, ◌<◌, ◌≡◌, refl, sym, ap, ◌∙◌, List, [], ◌∷◌, ◌++◌, map, append-nil,
  append_assoc, arith, length, drop, All, length-append, length-drop, drop-append, drop-drop, mod16,
  mod64, be_bytes, length-be_bytes,
}
use distributed_logger.Client.Logger.{Arg}
use distributed_logger.Client.Logger.Wire.{wire_arg, wire_args, payload}
use distributed_logger.Server.Decoder.{Outcome, ok, err, panic, ◌>>=◌, slice_from, decode_uint64}
use distributed_logger.Server.Decoder.Bounds.{
  Consumes, decode_uint64-Consumes, decode_string-Consumes, decode_uint64-be_bytes,
  decode_string-append,
}
use distributed_logger.Server.EventDecoder.{
  ParamType, Field, number, text, decode_field, decode_fields, decode_event,
}

-- The type that the description of the function gives to an argument, and the field it arrives in. An
-- argument of another type has neither, and the hypothesis Fits leaves it out.
abbrev pub type_of : Arg → ParamType
type_of (Arg.uint64 v) = ParamType.uint64
type_of (Arg.string s) = ParamType.string
type_of (Arg.other v) = ParamType.uint64

abbrev pub field_of : Arg → Field
field_of (Arg.uint64 v) = number v
field_of (Arg.string s) = text s
field_of (Arg.other v) = number v

-- The values that the wire form can hold, of the two types that have a decoder.
abbrev pub Fits : Arg → Type 0
Fits (Arg.uint64 v) = v < mod64
Fits (Arg.string s) = length s < mod16
Fits (Arg.other v) = ⊥

decode_field-wire_arg :
    (a : Arg) (rest : List ℕ)
    → Fits a
    → decode_field (type_of a) (wire_arg a ++ rest) ≡ ok (field_of a, length (wire_arg a))
unfolding decode_field
decode_field-wire_arg (Arg.uint64 v) rest h =
    rw (decode_uint64-be_bytes v rest h, length-be_bytes 8 v)
decode_field-wire_arg (Arg.string s) rest h = rw (decode_string-append s rest h) (
    ap (λ n. ok (text s, n))
      (omega (
        arith,
        length-append (be_bytes 2 (length s % mod16)) s,
        length-be_bytes 2 (length s % mod16),
      )))
decode_field-wire_arg (Arg.other v) rest h = absurd h

pub slice_from-drop :
    (n : ℕ) (packet : List ℕ) → n ≤ length packet → slice_from n packet ≡ ok (drop n packet)
unfolding slice_from
slice_from-drop n packet h = ground arith

decode_fields-wire_args :
    (args : List Arg) (n : ℕ) (packet rest : List ℕ)
    → All Fits args
    → n ≤ length packet
    → drop n packet ≡ wire_args args ++ rest
    → decode_fields (map type_of args) n packet ≡ ok (map field_of args)
unfolding decode_fields
decode_fields-wire_args [] n packet rest f h e = refl
decode_fields-wire_args (a ∷ args) n packet rest f h e = rw (
  slice_from-drop n packet h,
  e',
  decode_field-wire_arg a (wire_args args ++ rest) f.0,
  decode_fields-wire_args args (n + length (wire_arg a)) packet rest f.1 fits later,
)
  where
    e' : drop n packet ≡ wire_arg a ++ (wire_args args ++ rest)
    e' = e ∙ append_assoc (wire_arg a) (wire_args args) rest

    fits : n + length (wire_arg a) ≤ length packet
    fits = omega (
      arith,
      ap length e',
      length-drop n packet,
      length-append (wire_arg a) (wire_args args ++ rest),
    )

    later : drop (n + length (wire_arg a)) packet ≡ wire_args args ++ rest
    later =
        sym (drop-drop (length (wire_arg a)) n (n + length (wire_arg a)) packet refl)
        ∙ (ap (drop (length (wire_arg a))) e'
            ∙ drop-append (length (wire_arg a)) (wire_arg a) (wire_args args ++ rest) refl)

-- Where every argument is a uint64_t below 2 ^ 64 or a text below 64 kB, the server reads from the payload of
-- a generated function first its event, then from the rest of the packet exactly its arguments.
pub decode_event-payload :
    (event : ℕ) (args : List Arg)
    → event < mod64
    → All Fits args
    → (decode_uint64 (payload event args) ≡ ok (event, 8))
      × (decode_event event (map type_of args) (drop 8 (payload event args))
          ≡ ok (record { event = event; fields = map field_of args }))
unfolding decode_event
decode_event-payload event args h f = (
  decode_uint64-be_bytes event (wire_args args) h,
  rw (
    drop-append 8 (be_bytes 8 event) (wire_args args) (sym (length-be_bytes 8 event)),
    decode_fields-wire_args args 0 (wire_args args) [] f (omega arith)
        (sym (append-nil (wire_args args))),
  ),
)

-- No panic.
abbrev pub IsSafe : {A : Type 0} → Outcome A → Type 0
IsSafe (ok a) = Unit {0}
IsSafe (err e) = Unit {0}
IsSafe panic = ⊥

decode_field-Consumes :
    (t : ParamType) (packet : List ℕ) → Consumes (length packet) (decode_field t packet)
unfolding decode_field
decode_field-Consumes ParamType.string packet = ground (arith, decode_string-Consumes packet)
decode_field-Consumes ParamType.uint64 packet = ground (arith, decode_uint64-Consumes packet)

Consumes->>= :
    {A B : Type 0} {k : ℕ} (m : Outcome (A × ℕ)) (f : A × ℕ → Outcome B)
    → Consumes k m
    → ((r : A × ℕ) → r.1 ≤ k → IsSafe (f r))
    → IsSafe (m >>= f)
Consumes->>= (ok (a, n)) f c h = h (a, n) c
Consumes->>= (err e) f c h = tt
Consumes->>= panic f c h = c

IsSafe->>= : {A B : Type 0} (m : Outcome A) (f : A → B) → IsSafe m → IsSafe (m >>= λ a. ok (f a))
IsSafe->>= (ok a) f c = tt
IsSafe->>= (err e) f c = tt
IsSafe->>= panic f c = c

decode_fields-IsSafe :
    (types : List ParamType) (n : ℕ) (packet : List ℕ)
    → n ≤ length packet
    → IsSafe (decode_fields types n packet)
unfolding decode_fields
decode_fields-IsSafe [] n packet h = tt
decode_fields-IsSafe (t ∷ types) n packet h = rw (slice_from-drop n packet h) (
    Consumes->>= {k = length (drop n packet)} (decode_field t (drop n packet)) _
      (decode_field-Consumes t (drop n packet))
      λ r used.
        IsSafe->>= (decode_fields types (n + r.1) packet) (λ rest. r.0 ∷ rest)
          (decode_fields-IsSafe types (n + r.1) packet (omega (arith, used, length-drop n packet))))

-- A generated decoder does not panic, whatever the bytes of the packet and the types expected.
pub decode_event-IsSafe :
    (event : ℕ) (types : List ParamType) (packet : List ℕ)
    → IsSafe (decode_event event types packet)
unfolding decode_event
decode_event-IsSafe event types packet =
    IsSafe->>= (decode_fields types 0 packet) (λ fields. record { event = event; fields = fields })
      (decode_fields-IsSafe types 0 packet (omega arith))
