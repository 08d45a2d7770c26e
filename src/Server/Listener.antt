-- ===== src/Server/Listener.antt =====
-- `handleConnection` of server/listener/listener.go: it cuts the bytes of a connection into packets.
pub mod Bytes
pub mod Steps
pub mod Refine
pub mod Frames
use distributed_logger.Base.{
  ℕ, ◌+◌, ◌-◌, Bool, true, false, ◌&&◌, not, List, [], ◌∷◌, ◌++◌, ltb, ◌==◌, if◌then◌else◌, length,
  replicate, overwrite, from_be,
}

-- One answer of `conn.Read`: the bytes put into the slice, and whether there is an error beside them.
pub record Read : Type 0 where
  pub bytes : List ℕ
  pub failed : Bool

-- The variables of the loop.
pub record Conn : Type 0 where
  pub packet_length : ℕ
  pub already_read : ℕ
  pub header_buf : List ℕ
  pub read_buf : List ℕ

unfoldable pub initial : Conn
initial = record { packet_length = 0; already_read = 0; header_buf = replicate 4 0; read_buf = [] }

-- The end of a round: the variables, the packets handed to `ingester.Enqueue`, and whether the loop
-- goes on.
pub record Round : Type 0 where
  pub conn : Conn
  pub enqueued : List (List ℕ)
  pub goes_on : Bool

-- What a read of the header does to the variables, if it brought bytes.
unfoldable pub take_header : List ℕ → Conn → Conn
take_header bytes c =
    if 0 == length bytes
    then c
    else (let header_buf' = overwrite c.header_buf c.already_read bytes in
        let already_read' = c.already_read + length bytes in
        if already_read' == 4
        then record {
          packet_length = from_be header_buf';
          already_read = 0;
          header_buf = header_buf';
          read_buf = replicate (from_be header_buf') 0;
        }
        else record c { already_read = already_read'; header_buf = header_buf' })

-- What a read of the packet does, if it brought bytes. A short packet breaks the loop.
unfoldable pub take_body : List ℕ → Conn → Round
take_body bytes c =
    if 0 == length bytes
    then record { conn = c; enqueued = []; goes_on = true }
    else (let read_buf' = overwrite c.read_buf c.already_read bytes in
        let already_read' = c.already_read + length bytes in
        if already_read' == c.packet_length
        then (if ltb 12 (length read_buf')
            then record {
              conn = record c { packet_length = 0; already_read = 0; read_buf = read_buf' };
              enqueued = read_buf' ∷ [];
              goes_on = true;
            }
            else record {
              conn = record c { already_read = already_read'; read_buf = read_buf' };
              enqueued = [];
              goes_on = false;
            })
        else record {
          conn = record c { already_read = already_read'; read_buf = read_buf' };
          enqueued = [];
          goes_on = true;
        })

-- One round of the loop. A round that makes no read leaves all as it is.
unfoldable pub step : Read → Conn → Round
unfolding take_header take_body
step r c =
    if c.packet_length == 0
    then record { conn = take_header r.bytes c; enqueued = []; goes_on = not r.failed }
    else if ltb c.already_read c.packet_length
    then (let s = take_body r.bytes c in record s { goes_on = s.goes_on && not r.failed })
    else record { conn = c; enqueued = []; goes_on = true }

-- The loop over the answers of `conn.Read`, to its `break` or to the end of the answers.
unfoldable pub run : List Read → Conn → Round
run [] c = record { conn = c; enqueued = []; goes_on = true }
run (r ∷ rs) c =
    let s = step r c in
    elim s.goes_on [
      | true ↦ (let t = run rs s.conn in record t { enqueued = s.enqueued ++ t.enqueued })
      | false ↦ s
    ]

-- The bytes that the slice of the next `conn.Read` can take.
abbrev pub room : Conn → ℕ
room c = if c.packet_length == 0 then 4 - c.already_read else c.packet_length - c.already_read
