-- ===== src/Server/Listener/Steps.antt =====
-- One round of `handleConnection` against the framing protocol.
use distributed_logger.Base.{
  ℕ, suc, ◌+◌, ◌≤◌, ◌<◌, ◌≡◌, sym, ◌∙◌, subst, ◌⊎◌, inl, inr, true, false, List, [], ◌∷◌, ◌++◌,
  arith, ltb, ◌==◌, if◌then◌else◌, ==_iff, Bool-cases, length, take, replicate, length-append,
  length-take, length-replicate, take_all, overwrite, length-overwrite, take-overwrite, from_be,
}
use distributed_logger.Server.Listener.{Read, Conn, Round, step, room}
use distributed_logger.Server.Listener.Bytes.{
  Protocol, header, body, closed, feed_all, check_header, feed_all-header, feed_all-body,
}

-- The bytes that have arrived of a header or of a packet.
abbrev pub view : Conn → Protocol
view c =
    if c.packet_length == 0
    then header (take c.already_read c.header_buf)
    else body c.packet_length (take c.already_read c.read_buf)

-- The buffer in use has the size of what it waits for, and is not full.
abbrev pub IsOpen : Conn → Type 0
IsOpen c =
    (length c.header_buf ≡ 4)
    × (((c.packet_length ≡ 0) × (c.already_read < 4))
        ⊎ ((0 < c.packet_length)
            × (length c.read_buf ≡ c.packet_length)
            × (c.already_read < c.packet_length)))

-- The state of the protocol after a round.
abbrev pub round_view : Round → Protocol
round_view s = if s.goes_on then view s.conn else closed

-- A round agrees with the protocol, and leaves an open connection as it has to be.
abbrev pub Agrees : Round → Protocol × List (List ℕ) → Type 0
Agrees s out = ((round_view s, s.enqueued) ≡ out) × ((s.goes_on ≡ true) → IsOpen s.conn)

abbrev pub got_bytes : List ℕ → Read
got_bytes bytes = record { bytes = bytes; failed = false }

-- The state behind a read of the header.
abbrev header_done : List ℕ → Conn → Conn
header_done buf c = record {
  packet_length = from_be buf;
  already_read = 0;
  header_buf = buf;
  read_buf = replicate (from_be buf) 0;
}

step-header_whole :
    (b : ℕ) (bytes : List ℕ) (c : Conn)
    → c.packet_length ≡ 0
    → c.already_read + suc (length bytes) ≡ 4
    → step (got_bytes (b ∷ bytes)) c ≡ record {
      conn = header_done (overwrite c.header_buf c.already_read (b ∷ bytes)) c;
      enqueued = [];
      goes_on = true;
    }
unfolding step
step-header_whole b bytes c z e = ground arith

step-header_part :
    (b : ℕ) (bytes : List ℕ) (c : Conn)
    → c.packet_length ≡ 0
    → c.already_read + suc (length bytes) < 4
    → step (got_bytes (b ∷ bytes)) c ≡ record {
      conn = record c {
        already_read = c.already_read + suc (length bytes);
        header_buf = overwrite c.header_buf c.already_read (b ∷ bytes);
      };
      enqueued = [];
      goes_on = true;
    }
unfolding step
step-header_part b bytes c z e = ground arith

header_done-Agrees :
    (buf got : List ℕ) (c : Conn)
    → length buf ≡ 4
    → got ≡ buf
    → Agrees
        (record { conn = header_done buf c; enqueued = []; goes_on = true })
        (check_header got, [])
header_done-Agrees buf got c h e = rw e (ground (arith, length-replicate {A = ℕ} (from_be buf) 0))

step-header :
    (bytes : List ℕ) (c : Conn)
    → length c.header_buf ≡ 4
    → c.packet_length ≡ 0
    → c.already_read < 4
    → c.already_read + length bytes ≤ 4
    → Agrees (step (got_bytes bytes) c) (feed_all bytes (header (take c.already_read c.header_buf)))
step-header [] c h z less fits = unfold feed_all step in ground arith
step-header (b ∷ bytes) c h z less fits =
    rw (feed_all-header b bytes (take c.already_read c.header_buf) (omega (arith, len)))
      (elim (Bool-cases (c.already_read + suc (length bytes) == 4)) [
        | inl four ↦
            let e : c.already_read + suc (length bytes) ≡ 4 = (==_iff _ _).0 four in
            rw (step-header_whole b bytes c z e) (header_done-Agrees header_buf' _ c len' (whole e))
        | inr more ↦
            let e : c.already_read + suc (length bytes) < 4 = ground (arith, fits) in
            rw (step-header_part b bytes c z e) (ground (arith, grown, len_grown, len'))
      ])
  where
    all : List ℕ
    all = b ∷ bytes

    header_buf' : List ℕ
    header_buf' = overwrite c.header_buf c.already_read all

    len : length (take c.already_read c.header_buf) ≡ c.already_read
    len = omega (arith, length-take c.already_read c.header_buf)

    grown : take (c.already_read + length all) header_buf' ≡ take c.already_read c.header_buf ++ all
    grown = take-overwrite c.header_buf c.already_read all (omega (arith, h))

    len_grown : length (take c.already_read c.header_buf ++ all) ≡ c.already_read + length all
    len_grown = omega (arith, len, length-append (take c.already_read c.header_buf) all)

    len' : length header_buf' ≡ 4
    len' = omega (arith, h, length-overwrite c.header_buf c.already_read all (omega (arith, h)))

    whole : c.already_read + length all ≡ 4 → take c.already_read c.header_buf ++ all ≡ header_buf'
    whole e = sym grown ∙ take_all (c.already_read + length all) header_buf' (omega (arith, len'))

step-body_whole :
    (b : ℕ) (bytes : List ℕ) (c : Conn)
    → 0 < c.packet_length
    → length (overwrite c.read_buf c.already_read (b ∷ bytes)) ≡ c.packet_length
    → c.already_read + suc (length bytes) ≡ c.packet_length
    → let buf = overwrite c.read_buf c.already_read (b ∷ bytes) in
      step (got_bytes (b ∷ bytes)) c ≡ (
        if ltb 12 c.packet_length
        then record {
          conn = record c { packet_length = 0; already_read = 0; read_buf = buf };
          enqueued = buf ∷ [];
          goes_on = true;
        }
        else record {
          conn = record c { already_read = c.packet_length; read_buf = buf };
          enqueued = [];
          goes_on = false;
        })
unfolding step
step-body_whole b bytes c z h e = rw h (ground arith)

step-body_part :
    (b : ℕ) (bytes : List ℕ) (c : Conn)
    → c.already_read + suc (length bytes) < c.packet_length
    → step (got_bytes (b ∷ bytes)) c ≡ record {
      conn = record c {
        already_read = c.already_read + suc (length bytes);
        read_buf = overwrite c.read_buf c.already_read (b ∷ bytes);
      };
      enqueued = [];
      goes_on = true;
    }
unfolding step
step-body_part b bytes c e = ground arith

step-body :
    (bytes : List ℕ) (c : Conn)
    → length c.header_buf ≡ 4
    → 0 < c.packet_length
    → length c.read_buf ≡ c.packet_length
    → c.already_read < c.packet_length
    → c.already_read + length bytes ≤ c.packet_length
    → Agrees
        (step (got_bytes bytes) c)
        (feed_all bytes (body c.packet_length (take c.already_read c.read_buf)))
step-body [] c h z h' less fits = unfold feed_all step in ground arith
step-body (b ∷ bytes) c h z h' less fits =
    rw (feed_all-body c.packet_length b bytes (take c.already_read c.read_buf) (omega (arith, len)))
      (elim (Bool-cases (c.already_read + suc (length bytes) == c.packet_length)) [
        | inl full ↦
            let e : c.already_read + suc (length bytes) ≡ c.packet_length = (==_iff _ _).0 full in
            rw (step-body_whole b bytes c z len' e) (ground (arith, whole e, len_grown))
        | inr more ↦
            let e : c.already_read + suc (length bytes) < c.packet_length = ground (arith, fits) in
            rw (step-body_part b bytes c e) (ground (arith, grown, len_grown, len'))
      ])
  where
    all : List ℕ
    all = b ∷ bytes

    read_buf' : List ℕ
    read_buf' = overwrite c.read_buf c.already_read all

    len : length (take c.already_read c.read_buf) ≡ c.already_read
    len = omega (arith, length-take c.already_read c.read_buf)

    grown : take (c.already_read + length all) read_buf' ≡ take c.already_read c.read_buf ++ all
    grown = take-overwrite c.read_buf c.already_read all (omega (arith, h'))

    len_grown : length (take c.already_read c.read_buf ++ all) ≡ c.already_read + length all
    len_grown = omega (arith, len, length-append (take c.already_read c.read_buf) all)

    len' : length read_buf' ≡ c.packet_length
    len' = omega (arith, h', length-overwrite c.read_buf c.already_read all (omega (arith, h')))

    whole :
        c.already_read + length all ≡ c.packet_length
        → take c.already_read c.read_buf ++ all ≡ read_buf'
    whole e = sym grown ∙ take_all (c.already_read + length all) read_buf' (omega (arith, len'))

-- Whatever bytes a read brings, as many as its slice holds at most, a round of the loop hands on the
-- packets that the framing protocol completes with them, and waits for what the protocol waits for; it
-- ends the connection where the protocol gives it up, and is else ready for the next read.
pub step_refines :
    (bytes : List ℕ) (c : Conn)
    → IsOpen c
    → length bytes ≤ room c
    → Agrees (step (record { bytes = bytes; failed = false }) c) (feed_all bytes (view c))
step_refines bytes c (h, inl (z, less)) fits =
    let v : view c ≡ header (take c.already_read c.header_buf) = ground arith in
    subst (λ p. Agrees (step (got_bytes bytes) c) (feed_all bytes p)) (sym v)
      (step-header bytes c h z less (ground (arith, fits)))
step_refines bytes c (h, inr (z, h', less)) fits =
    let v : view c ≡ body c.packet_length (take c.already_read c.read_buf) = ground arith in
    subst (λ p. Agrees (step (got_bytes bytes) c) (feed_all bytes p)) (sym v)
      (step-body bytes c h z h' less (ground (arith, fits)))
