-- ===== src/Examples/Seastar/Tasks.antt =====
-- What the other tasks of a shard do with its transport.
use distributed_logger.Base.{ℕ, ◌<◌, ◌≡◌, refl, ◌∙◌, Bool, true, false, some, List, arith}
use distributed_logger.Client.SeastarIo.{
  SeastarIo, initialize_connected_socket, reconnect, timer_fires, connect_completes,
  write_completes,
}
use distributed_logger.Client.SeastarIo.Trace.{Reach}
use distributed_logger.Client.SeastarIo.Trace
use distributed_logger.Client.SeastarIo.Connected.{transmit-SameStand}

-- The timer fires, and futures complete.
pub data Tasks (io : SeastarIo) : SeastarIo → Type 0 where
  here : Tasks io io
  fires : {io' : SeastarIo} → io'.timer_armed ≡ true → Tasks io io' → Tasks io (timer_fires io')
  completes :
      {io' : SeastarIo} (ok : Bool)
      → 0 < io'.connecting
      → Tasks io io'
      → Tasks io (connect_completes ok io')
  writes :
      {io' : SeastarIo} (ok : Bool) (buf : List ℕ)
      → io'.in_flight ≡ some buf
      → Tasks io io'
      → Tasks io (write_completes ok buf io')

-- They take no log and drop none, and do not shut the transport down.
pub record Passes (sent : List (List ℕ)) (io io' : SeastarIo) : Type 0 where
  pub past : Reach sent io'
  pub shutting_down : io'.shutting_down ≡ io.shutting_down
  pub dropped : io'.log_dropped_cnt ≡ io.log_dropped_cnt

connect_completes-stands :
    (ok : Bool) (io : SeastarIo)
    → ((connect_completes ok io).shutting_down ≡ io.shutting_down)
      × ((connect_completes ok io).log_dropped_cnt ≡ io.log_dropped_cnt)
unfolding connect_completes initialize_connected_socket reconnect
connect_completes-stands true io = (refl, refl)
connect_completes-stands false io = (ground arith, ground arith)

write_completes-stands :
    (ok : Bool) (buf : List ℕ) (io : SeastarIo)
    → ((write_completes ok buf io).shutting_down ≡ io.shutting_down)
      × ((write_completes ok buf io).log_dropped_cnt ≡ io.log_dropped_cnt)
unfolding write_completes
write_completes-stands true buf io =
    let s = transmit-SameStand io.wqueue _ in (s.shutting_down, s.dropped)
write_completes-stands false buf io =
    let s = transmit-SameStand io.wqueue _ in (s.shutting_down, s.dropped)

pub Tasks-Passes :
    {io io' : SeastarIo} (sent : List (List ℕ)) → Reach sent io → Tasks io io' → Passes sent io io'
unfolding timer_fires
Tasks-Passes sent past here = record { past = past; shutting_down = refl; dropped = refl }
Tasks-Passes sent past (fires e t) =
    let p = Tasks-Passes sent past t in
    record { past = Trace.fires e p.past; shutting_down = p.shutting_down; dropped = p.dropped }
Tasks-Passes sent past (completes {io'} ok h t) =
    let p = Tasks-Passes sent past t in
    let (s, d) = connect_completes-stands ok io' in
    record {
      past = Trace.completes ok h p.past;
      shutting_down = s ∙ p.shutting_down;
      dropped = d ∙ p.dropped;
    }
Tasks-Passes sent past (writes {io'} ok buf e t) =
    let p = Tasks-Passes sent past t in
    let (s, d) = write_completes-stands ok buf io' in
    record {
      past = Trace.writes ok buf e p.past;
      shutting_down = s ∙ p.shutting_down;
      dropped = d ∙ p.dropped;
    }
