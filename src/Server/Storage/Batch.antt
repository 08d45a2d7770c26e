-- ===== src/Server/Storage/Batch.antt =====
-- What a flush makes of the packets of generated functions, and of a packet that cannot be decoded.
use distributed_logger.Base.{
  ℕ, ◌≤◌, ◌<◌, ◌≡◌, refl, ap, ◌∙◌, Bool, true, some, List, [], ◌∷◌, ◌++◌, map, arith, if◌then◌else◌,
  length, All, length-append, mod64, be_bytes, length-be_bytes,
}
use distributed_logger.Client.Logger.{Arg}
use distributed_logger.Client.Logger.Wire.{wire_args, payload}
use distributed_logger.Server.Decoder.{Outcome, Error, ok, err}
use distributed_logger.Server.EventDecoder.{ParamType, Event}
use distributed_logger.Server.EventDecoder.RoundTrip.{
  type_of, field_of, Fits, decode_event-payload, slice_from-drop,
}
use distributed_logger.Server.Storage.{
  get_elem?, decode_packet, decode_batch, flush, insert_fields, inserted, undecoded, refused,
}

-- One call of a generated function.
pub record Log : Type 0 where
  pub event : ℕ
  pub args : List Arg

abbrev pub payload_of : Log → List ℕ
payload_of l = payload l.event l.args

-- The document that a log should become.
abbrev pub event_of : Log → Event
event_of l = record { event = l.event; fields = map field_of l.args }

-- A log of a function of the description, with values that the wire form can hold.
pub record IsKnown (schemas : List (List ParamType)) (l : Log) : Type 0 where
  pub number : l.event < mod64
  pub types : get_elem? schemas l.event ≡ some (map type_of l.args)
  pub values : All Fits l.args

pub decode_packet-payload :
    (schemas : List (List ParamType)) (l : Log)
    → IsKnown schemas l
    → decode_packet schemas (payload_of l) ≡ ok (event_of l ∷ [])
unfolding decode_packet
decode_packet-payload schemas l k =
    let (head, body) = decode_event-payload l.event l.args k.number k.values in
    rw (head, k.types, slice_from-drop 8 (payload_of l) long, body)
  where
    long : 8 ≤ length (payload_of l)
    long =
        omega
          (arith, length-append (be_bytes 8 l.event) (wire_args l.args), length-be_bytes 8 l.event)

-- The documents of a batch of packets of known logs are those logs, in their order.
pub decode_batch-payloads :
    (schemas : List (List ParamType)) (logs : List Log)
    → All (IsKnown schemas) logs
    → decode_batch schemas (map payload_of logs) ≡ ok (map event_of logs)
unfolding decode_batch
decode_batch-payloads schemas [] k = refl
decode_batch-payloads schemas (l ∷ logs) k =
    rw (decode_packet-payload schemas l k.0, decode_batch-payloads schemas logs k.1)

decode_batch-undecoded :
    (schemas : List (List ParamType)) (logs : List Log) (bad : List ℕ) (after : List (List ℕ))
    (e : Error)
    → All (IsKnown schemas) logs
    → decode_packet schemas bad ≡ err e
    → decode_batch schemas (map payload_of logs ++ (bad ∷ after)) ≡ err e
unfolding decode_batch
decode_batch-undecoded schemas [] bad after e k h = rw h
decode_batch-undecoded schemas (l ∷ logs) bad after e k h =
    rw (decode_packet-payload schemas l k.0, decode_batch-undecoded schemas logs bad after e k.1 h)

-- The packets of known logs become the documents of one insertion, in their order, if the database
-- takes them; one packet among or behind them that cannot be decoded keeps them all out of it, those
-- before it too, and `Flush` returns the error of that packet.
pub flush_lem :
    (schemas : List (List ParamType)) (insert_many : List Event → Bool) (l : Log) (logs : List Log)
    (bad : List ℕ) (after : List (List ℕ)) (e : Error)
    → All (IsKnown schemas) (l ∷ logs)
    → insert_many (map event_of (l ∷ logs)) ≡ true
    → decode_packet schemas bad ≡ err e
    → (flush schemas insert_many (map payload_of (l ∷ logs)) ≡ inserted (map event_of (l ∷ logs)))
      × (flush schemas insert_many (map payload_of (l ∷ logs) ++ (bad ∷ after)) ≡ undecoded e)
flush_lem schemas insert_many l logs bad after e k taken h = (
  batch_eq _ (decode_batch-payloads schemas (l ∷ logs) k)
      ∙ ap (λ t. if t then inserted docs else refused docs) taken,
  batch_eq _ (decode_batch-undecoded schemas (l ∷ logs) bad after e k h),
)
  where
    docs : List Event
    docs = map event_of (l ∷ logs)

    batch_eq :
        (batch : List (List ℕ)) {out : Outcome (List Event)}
        → decode_batch schemas batch ≡ out
        → flush schemas insert_many batch ≡ insert_fields insert_many out
    batch_eq batch eq = unfold flush in ap (insert_fields insert_many) eq
