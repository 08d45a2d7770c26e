-- ===== src/Client/SeastarIo/Down.antt =====
-- A SeastarIO that is not connected and does not try to connect.
use distributed_logger.Base.{
  ℕ, ◌<◌, ◌≡◌, refl, ◌∙◌, subst, inl, inr, Bool, true, false, none, some, List, [], ◌∷◌, ◌++◌,
  arith, Bool-cases, add64,
}
use distributed_logger.Client.SeastarIo.{
  SeastarIo, set_queue_max_size, timer_fires, connect_completes, shut_down, transmit,
  write_completes, is_full, send,
}

-- What may happen without a call of `connect`.
pub data Later (io : SeastarIo) : SeastarIo → Type 0 where
  here : Later io io
  limits : {io' : SeastarIo} (n : ℕ) → Later io io' → Later io (set_queue_max_size n io')
  fires : {io' : SeastarIo} → io'.timer_armed ≡ true → Later io io' → Later io (timer_fires io')
  completes :
      {io' : SeastarIo} (ok : Bool)
      → 0 < io'.connecting
      → Later io io'
      → Later io (connect_completes ok io')
  shuts_down :
      {io' : SeastarIo} → io'.transmitting ≡ false → Later io io' → Later io (shut_down io')
  writes :
      {io' : SeastarIo} (ok : Bool) (buf : List ℕ)
      → io'.in_flight ≡ some buf
      → Later io io'
      → Later io (write_completes ok buf io')
  sends :
      {io' io'' : SeastarIo} (buf : List ℕ)
      → send buf io' ≡ some io''
      → Later io io'
      → Later io io''

-- No connection, no timer, no call of `seastar::connect`, and no write under way.
pub record IsDown (io : SeastarIo) : Type 0 where
  pub unconnected : io.connected ≡ false
  pub unarmed : io.timer_armed ≡ false
  pub no_attempt : io.connecting ≡ 0
  pub no_write : io.in_flight ≡ none

-- A state that is down too, in which nothing more has been posted, sent or queued.
pub record StillDown (io : SeastarIo) (io' : SeastarIo) : Type 0 where
  pub down : IsDown io'
  pub posted : io'.log_posted_cnt ≡ io.log_posted_cnt
  pub sent : io'.log_sent_cnt ≡ io.log_sent_cnt
  pub outcomes : io'.outcomes ≡ io.outcomes
  pub queue : io'.wqueue ≡ io.wqueue

send-StillDown :
    (buf : List ℕ) (io io' : SeastarIo) → IsDown io → send buf io ≡ some io' → StillDown io io'
unfolding send
send-StillDown buf io io' d e = elim (Bool-cases (is_full buf io)) [
  | inl full ↦
      (let eq : record io { log_dropped_cnt = add64 io.log_dropped_cnt 1 } ≡ io' =
          ground (arith, d.unconnected) in
        subst (StillDown io) eq (kept (add64 io.log_dropped_cnt 1)))
  | inr room ↦
      (let eq : io ≡ io' = ground (arith, d.unconnected) in
        subst (StillDown io) eq (kept io.log_dropped_cnt))
]
  where
    kept : (n : ℕ) → StillDown io (record io { log_dropped_cnt = n })
    kept n = record {
      down = record {
        unconnected = d.unconnected;
        unarmed = d.unarmed;
        no_attempt = d.no_attempt;
        no_write = d.no_write;
      };
      posted = refl;
      sent = refl;
      outcomes = refl;
      queue = refl;
    }

others :
    {io io' : SeastarIo}
    → StillDown io io'
    → (n : ℕ) (b : Bool) → StillDown io (record io' { queue_max_size = n; shutting_down = b })
others s n b = record {
  down = record {
    unconnected = s.down.unconnected;
    unarmed = s.down.unarmed;
    no_attempt = s.down.no_attempt;
    no_write = s.down.no_write;
  };
  posted = s.posted;
  sent = s.sent;
  outcomes = s.outcomes;
  queue = s.queue;
}

-- Without a connection, an attempt at one or a write under way, a transport never connects again
-- unless `connect` is called: over any history without such a call it stays so, and nothing more is
-- posted, sent or queued, however many logs `send` is given.
pub down_stays : {io io' : SeastarIo} → IsDown io → Later io io' → StillDown io io'
unfolding set_queue_max_size shut_down
down_stays {io} d here = record {
  down = d;
  posted = refl;
  sent = refl;
  outcomes = refl;
  queue = refl;
}
down_stays d (limits {io'} n past) = others (down_stays d past) n io'.shutting_down
down_stays d (fires e past) = let s = down_stays d past in let u = s.down.unarmed in cc
down_stays d (completes ok h past) =
    let s = down_stays d past in let u = s.down.no_attempt in absurd (omega (arith, u))
down_stays d (shuts_down {io'} e past) = others (down_stays d past) io'.queue_max_size true
down_stays d (writes ok buf e past) = let s = down_stays d past in let u = s.down.no_write in cc
down_stays {io} d (sends {io'} {io''} buf e past) =
    let s = down_stays d past in
    let t = send-StillDown buf io' io'' s.down e in
    record {
      down = t.down;
      posted = t.posted ∙ s.posted;
      sent = t.sent ∙ s.sent;
      outcomes = t.outcomes ∙ s.outcomes;
      queue = t.queue ∙ s.queue;
    }

failed_write-IsDown :
    (q : List (List ℕ)) (io : SeastarIo)
    → io.timer_armed ≡ false
    → io.connecting ≡ 0
    → IsDown (transmit q (record io { transmitting = false; connected = false }))
unfolding transmit
failed_write-IsDown [] io t c = record {
  unconnected = refl;
  unarmed = t;
  no_attempt = c;
  no_write = refl;
}
failed_write-IsDown (b ∷ q) io t c = record {
  unconnected = refl;
  unarmed = t;
  no_attempt = c;
  no_write = refl;
}

-- Behind a write that fails, with no attempt at a connection under way, nothing connects again: over
-- any history without a call of `connect`, nothing more is posted, sent or written, and what is queued
-- stays queued.
pub failed_write_strands :
    (io : SeastarIo) {io' : SeastarIo} (buf : List ℕ)
    → io.timer_armed ≡ false
    → io.connecting ≡ 0
    → Later (write_completes false buf io) io'
    → StillDown (write_completes false buf io) io'
unfolding write_completes
failed_write_strands io buf t c past =
    down_stays
      (failed_write-IsDown io.wqueue (record io { outcomes = io.outcomes ++ ((false, buf) ∷ []) }) t
        c)
      past
