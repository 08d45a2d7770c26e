-- ===== src/Client/SeastarIo/Connected.antt =====
-- A `send` of a SeastarIO that has a connection.
use distributed_logger.Base.{
  ℕ, ◌≤◌, ◌≡◌, refl, ◌⊎◌, inl, inr, true, false, some, List, [], ◌∷◌, arith, Bool-cases, length,
  add64,
}
use distributed_logger.Client.SeastarIo.{SeastarIo, transmit, is_full, with_length, send}
use distributed_logger.Client.SeastarIo.Trace.{taken}
use distributed_logger.Client.SeastarIo.Steps.{pushed}

-- Two states that differ in the queue and its counters only.
pub record SameStand (io io' : SeastarIo) : Type 0 where
  pub connected : io'.connected ≡ io.connected
  pub shutting_down : io'.shutting_down ≡ io.shutting_down
  pub dropped : io'.log_dropped_cnt ≡ io.log_dropped_cnt

pub transmit-SameStand : (q : List (List ℕ)) (io : SeastarIo) → SameStand io (transmit q io)
unfolding transmit
transmit-SameStand [] io = record { connected = refl; shutting_down = refl; dropped = refl }
transmit-SameStand (b ∷ q) io = record {
  connected = ground arith;
  shutting_down = ground arith;
  dropped = ground arith;
}

-- The log is dropped and counted so, or its block is taken, and the connection stays.
pub record Takes (buf : List ℕ) (io io' : SeastarIo) : Type 0 where
  pub result : send buf io ≡ some io'
  pub connected : io'.connected ≡ true
  pub open_still : io'.shutting_down ≡ false
  pub counted :
      ((taken buf io ≡ []) × (io'.log_dropped_cnt ≡ add64 io.log_dropped_cnt 1))
      ⊎ ((taken buf io ≡ with_length buf ∷ []) × (io'.log_dropped_cnt ≡ io.log_dropped_cnt))

pub send-Takes :
    (buf : List ℕ) (io : SeastarIo)
    → 4 ≤ length buf
    → io.connected ≡ true
    → io.shutting_down ≡ false
    → (io' : SeastarIo) × Takes buf io io'
unfolding send pushed
send-Takes buf io h up going = elim (Bool-cases (is_full buf io)) [
  | inl full ↦ (
    record io { log_dropped_cnt = add64 io.log_dropped_cnt 1 },
    record {
      result = rw full refl;
      connected = up;
      open_still = going;
      counted = inl (ground (arith, full), refl);
    },
  )
  | inr room ↦ elim (Bool-cases io.transmitting) [
    | inl busy ↦ (
      pushed buf io,
      record {
        result = ground (arith, room, up, going, busy, h);
        connected = up;
        open_still = going;
        counted = inr (ground (arith, room, up, going), refl);
      },
    )
    | inr idle ↦
        (let s = transmit-SameStand (pushed buf io).wqueue (pushed buf io) in
          (
            transmit (pushed buf io).wqueue (pushed buf io),
            record {
              result = ground (arith, room, up, going, idle, h);
              connected = cc (s.connected, up);
              open_still = cc (s.shutting_down, going);
              counted = inr (ground (arith, room, up, going), s.dropped);
            },
          ))
  ]
]
