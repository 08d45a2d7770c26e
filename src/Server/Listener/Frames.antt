-- ===== src/Server/Listener/Frames.antt =====
-- The packets that come out of whole frames.
use distributed_logger.Base.{
  ℕ, suc, ◌≤◌, ◌<◌, ◌≡◌, refl, sym, ap, ◌∙◌, ◌≢◌, inl, inr, true, false, List, [], ◌∷◌, ◌++◌,
  append-nil, append_assoc, arith, ltb, ◌==◌, if◌then◌else◌, lt→ltb, Bool-cases, length, take, All,
  mod32, be_bytes, from_be, length-be_bytes, from_be-be_bytes,
}
use distributed_logger.Server.Listener.{Read, Conn, Round, initial, run}
use distributed_logger.Server.Listener.Bytes.{
  header, body, closed, feed_all, feed_more, feed_all-append, feed_all-header, feed_all-body,
  feed_all-closed,
}
use distributed_logger.Server.Listener.Steps.{view, IsOpen, round_view}
use distributed_logger.Server.Listener.Refine.{AllFit, bytes_of, run_refines}

-- A packet behind its length, as `send` of the client frames it.
abbrev pub frame_of : List ℕ → List ℕ
frame_of packet = be_bytes 4 (length packet) ++ packet

abbrev pub frames_of : List (List ℕ) → List ℕ
frames_of [] = []
frames_of (p ∷ ps) = frame_of p ++ frames_of ps

-- The bytes of a header.
feed_all-length :
    (n : ℕ) → n < mod32 → 0 < n → feed_all (be_bytes 4 n) (header []) ≡ (body n [], [])
feed_all-length n h h0 = go (be_bytes 4 n) (length-be_bytes 4 n) (from_be-be_bytes 4 n h)
  where
    go :
        (bytes : List ℕ)
        → length bytes ≡ 4
        → from_be bytes ≡ n
        → feed_all bytes (header []) ≡ (body n [], [])
    go [] e v = absurd (omega arith)
    go (b ∷ bytes) e v = feed_all-header b bytes [] (omega arith) ∙ ground (arith, e, v)

-- The bytes of a packet.
feed_all-packet :
    (packet : List ℕ)
    → 0 < length packet
    → feed_all packet (body (length packet) [])
      ≡ (if ltb 12 (length packet) then (header [], packet ∷ []) else (closed, []))
feed_all-packet [] h = absurd (omega arith)
feed_all-packet (b ∷ bytes) h =
    feed_all-body (suc (length bytes)) b bytes [] (omega arith) ∙ ground arith

feed_all-frame :
    (packet : List ℕ)
    → 0 < length packet
    → length packet < mod32
    → feed_all (frame_of packet) (header [])
      ≡ (if ltb 12 (length packet) then (header [], packet ∷ []) else (closed, []))
feed_all-frame packet h0 h =
    feed_all-append (be_bytes 4 (length packet)) packet (header [])
    ∙ (ap (feed_more packet) (feed_all-length (length packet) h h0) ∙ feed_all-packet packet h0)

-- A packet that the server takes.
abbrev pub IsLong : List ℕ → Type 0
IsLong packet = (12 < length packet) × (length packet < mod32)

feed_all-frames :
    (packets : List (List ℕ)) (rest : List ℕ)
    → All IsLong packets
    → feed_all (frames_of packets ++ rest) (header [])
      ≡ ((feed_all rest (header [])).0, packets ++ (feed_all rest (header [])).1)
feed_all-frames [] rest h = refl
feed_all-frames (p ∷ ps) rest h =
    ap (λ bytes. feed_all bytes (header [])) (append_assoc (frame_of p) (frames_of ps) rest)
    ∙ (feed_all-append (frame_of p) (frames_of ps ++ rest) (header [])
        ∙ (ap (feed_more (frames_of ps ++ rest)) taken
            ∙ ap (λ out. (out.0, p ∷ out.1)) (feed_all-frames ps rest h.1)))
  where
    taken : feed_all (frame_of p) (header []) ≡ (header [], p ∷ [])
    taken =
        feed_all-frame p (omega (arith, h.0.0)) h.0.1
        ∙ ap (λ t. if t then (header [], p ∷ []) else (closed, [])) (lt→ltb 12 (length p) h.0.0)

initial-IsOpen : IsOpen initial
unfolding initial
initial-IsOpen = (refl, inl (refl, omega arith))

view-initial : view initial ≡ header []
unfolding initial
view-initial = refl

closed-ne-header : closed ≢ header []
closed-ne-header e = cc

round-header :
    (s : Round) → round_view s ≡ header [] → (s.goes_on ≡ true) × (view s.conn ≡ header [])
round-header s e = elim (Bool-cases s.goes_on) [
  | inl g ↦ (g, ap (λ t. if t then view s.conn else closed) (sym g) ∙ e)
  | inr g ↦ absurd (closed-ne-header (ap (λ t. if t then view s.conn else closed) (sym g) ∙ e))
]

view-ne-closed : (c : Conn) → view c ≢ closed
view-ne-closed c e = elim (Bool-cases (c.packet_length == 0)) [
  | inl z ↦ cc (
      ap
        (λ t.
          if t
          then header (take c.already_read c.header_buf)
          else body c.packet_length (take c.already_read c.read_buf))
        (sym z)
      ∙ e)
  | inr z ↦ cc (
      ap
        (λ t.
          if t
          then header (take c.already_read c.header_buf)
          else body c.packet_length (take c.already_read c.read_buf))
        (sym z)
      ∙ e)
]

round-shut : (s : Round) → round_view s ≡ closed → s.goes_on ≡ false
round-shut s e = elim (Bool-cases s.goes_on) [
  | inl g ↦ absurd (view-ne-closed s.conn (ap (λ t. if t then view s.conn else closed) (sym g) ∙ e))
  | inr g ↦ g
]

run-feed :
    (rs : List Read)
    → AllFit rs initial
    → (round_view (run rs initial), (run rs initial).enqueued) ≡ feed_all (bytes_of rs) (header [])
run-feed rs f =
    (run_refines rs initial initial-IsOpen f).0 ∙ ap (feed_all (bytes_of rs)) view-initial

-- However the network cuts the frames of packets into reads without an error, if each packet has
-- more than 12 bytes and fewer than 2 ^ 32, a fresh connection hands exactly those packets to the
-- ingester, in their order, and is then open and at the start of a header.
pub run-frames :
    (packets : List (List ℕ)) (rs : List Read)
    → All IsLong packets
    → AllFit rs initial
    → bytes_of rs ≡ frames_of packets
    → ((run rs initial).enqueued ≡ packets)
      × ((run rs initial).goes_on ≡ true)
      × (view (run rs initial).conn ≡ header [])
run-frames packets rs h f e =
    let (on, at) = round-header (run rs initial) (ap (λ out. out.0) (run-feed rs f ∙ total)) in
    (ap (λ out. out.1) (run-feed rs f ∙ total), on, at)
  where
    total : feed_all (bytes_of rs) (header []) ≡ (header [], packets)
    total =
        ap (λ bytes. feed_all bytes (header [])) (e ∙ sym (append-nil (frames_of packets)))
        ∙ (feed_all-frames packets [] h
            ∙ unfold feed_all in ap (λ ps. (header [], ps)) (append-nil packets))

-- A packet of 1 to 12 bytes ends a connection whose reads have no error: it is not handed on, and
-- nothing behind it is, while the longer packets before it are.
pub run-short_packet :
    (packets : List (List ℕ)) (short rest : List ℕ) (rs : List Read)
    → All IsLong packets
    → 0 < length short
    → length short ≤ 12
    → AllFit rs initial
    → bytes_of rs ≡ frames_of packets ++ (frame_of short ++ rest)
    → ((run rs initial).enqueued ≡ packets) × ((run rs initial).goes_on ≡ false)
run-short_packet packets short rest rs h h0 h12 f e = (
  ap (λ out. out.1) (run-feed rs f ∙ total),
  round-shut (run rs initial) (ap (λ out. out.0) (run-feed rs f ∙ total)),
)
  where
    not_long : ltb 12 (length short) ≡ false
    not_long = ground arith

    alone : feed_all (frame_of short) (header []) ≡ (closed, [])
    alone =
        feed_all-frame short h0 (omega arith)
        ∙ ap (λ t. if t then (header [], short ∷ []) else (closed, [])) not_long

    given_up : feed_all (frame_of short ++ rest) (header []) ≡ (closed, [])
    given_up =
        feed_all-append (frame_of short) rest (header [])
        ∙ (ap (feed_more rest) alone ∙ rw (feed_all-closed rest))

    total : feed_all (bytes_of rs) (header []) ≡ (closed, packets)
    total =
        ap (λ bytes. feed_all bytes (header [])) e
        ∙ (feed_all-frames packets (frame_of short ++ rest) h
            ∙ (ap (λ out. (out.0, packets ++ out.1)) given_up
                ∙ ap (λ ps. (closed, ps)) (append-nil packets)))
