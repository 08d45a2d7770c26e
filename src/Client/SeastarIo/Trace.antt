-- ===== src/Client/SeastarIo/Trace.antt =====
-- The histories of a SeastarIO, and what it keeps of the blocks that it took.
use distributed_logger.Base.{
  ℕ, ◌+◌, ◌%◌, ◌≤◌, ◌<◌, ◌≡◌, refl, ap, Bool, true, false, ◌||◌, not, Option, none, some, List, [],
  ◌∷◌, ◌++◌, arith, if◌then◌else◌, length, length-overwrite, mod32, mod64, sub64, be_bytes,
  length-be_bytes,
}
use distributed_logger.Client.SeastarIo.{
  SeastarIo, make, set_queue_max_size, reconnect, timer_fires, connect_completes, shut_down,
  write_completes, is_full, with_length, send,
}

-- The blocks of the writes that failed.
abbrev pub refused : List (Bool × List ℕ) → List (List ℕ)
refused [] = []
refused ((true, buf) ∷ outcomes) = refused outcomes
refused ((false, buf) ∷ outcomes) = buf ∷ refused outcomes

abbrev pub count_ok : List (Bool × List ℕ) → ℕ
count_ok [] = 0
count_ok ((true, buf) ∷ outcomes) = 1 + count_ok outcomes
count_ok ((false, buf) ∷ outcomes) = count_ok outcomes

abbrev pub blocks : List (Bool × List ℕ) → List (List ℕ)
blocks [] = []
blocks (o ∷ outcomes) = o.1 ∷ blocks outcomes

abbrev pub flying : Option (List ℕ) → List (List ℕ)
flying none = []
flying (some buf) = buf ∷ []

abbrev pub total : List (List ℕ) → ℕ
total [] = 0
total (b ∷ bs) = length b + total bs

-- The block that `send` takes, if it takes one.
abbrev pub taken : List ℕ → SeastarIo → List (List ℕ)
taken buf io =
    if is_full buf io || io.shutting_down || not io.connected then [] else with_length buf ∷ []

-- What may happen to a transport from its constructor on, with the blocks that it has taken.
pub data Reach : List (List ℕ) → SeastarIo → Type 0 where
  created : Reach [] make
  limits :
      {sent : List (List ℕ)} {io : SeastarIo} (n : ℕ)
      → Reach sent io
      → Reach sent (set_queue_max_size n io)
  connects : {sent : List (List ℕ)} {io : SeastarIo} → Reach sent io → Reach sent (reconnect io)
  fires :
      {sent : List (List ℕ)} {io : SeastarIo}
      → io.timer_armed ≡ true
      → Reach sent io
      → Reach sent (timer_fires io)
  completes :
      {sent : List (List ℕ)} {io : SeastarIo} (ok : Bool)
      → 0 < io.connecting
      → Reach sent io
      → Reach sent (connect_completes ok io)
  shuts_down :
      {sent : List (List ℕ)} {io : SeastarIo}
      → io.transmitting ≡ false
      → Reach sent io
      → Reach sent (shut_down io)
  writes :
      {sent : List (List ℕ)} {io : SeastarIo} (ok : Bool) (buf : List ℕ)
      → io.in_flight ≡ some buf
      → Reach sent io
      → Reach sent (write_completes ok buf io)
  sends :
      {sent : List (List ℕ)} {io : SeastarIo} (buf : List ℕ) (io' : SeastarIo)
      → 4 ≤ length buf
      → io.queue_size + length buf < mod64
      → send buf io ≡ some io'
      → Reach sent io
      → Reach (sent ++ taken buf io) io'

-- The blocks taken so far are, in order, those whose write has completed, the one in flight and the
-- queued ones; and the counters, with `_queuesize` of the blocks not written, the refused ones too.
pub record IsTraced (sent : List (List ℕ)) (io : SeastarIo) : Type 0 where
  pub order : sent ≡ blocks io.outcomes ++ (flying io.in_flight ++ io.wqueue)
  pub idle : io.transmitting ≡ false → io.in_flight ≡ none
  pub posted : io.log_posted_cnt ≡ length sent % mod64
  pub written : io.log_sent_cnt ≡ count_ok io.outcomes % mod64
  pub counted :
      io.queue_size ≡ total (refused io.outcomes) + (total (flying io.in_flight) + total io.wqueue)
  pub in_range : io.queue_size < mod64

pub blocks-append : (xs ys : List (Bool × List ℕ)) → blocks (xs ++ ys) ≡ blocks xs ++ blocks ys
blocks-append [] ys = refl
blocks-append (x ∷ xs) ys = ap (λ l. x.1 ∷ l) (blocks-append xs ys)

pub total-append : (xs ys : List (List ℕ)) → total (xs ++ ys) ≡ total xs + total ys
total-append [] ys = omega arith
total-append (x ∷ xs) ys = omega (arith, total-append xs ys)

pub total-refused-append :
    (xs : List (Bool × List ℕ)) (ok : Bool) (buf : List ℕ)
    → total (refused (xs ++ ((ok, buf) ∷ []))) ≡ total (refused xs) + (if ok then 0 else length buf)
total-refused-append [] true buf = omega arith
total-refused-append [] false buf = omega arith
total-refused-append ((true, b) ∷ xs) ok buf = total-refused-append xs ok buf
total-refused-append ((false, b) ∷ xs) ok buf =
    let e = total-refused-append xs ok buf in
    elim ok [ true ↦ omega (arith, e) | false ↦ omega (arith, e) ]

pub count_ok-append :
    (xs : List (Bool × List ℕ)) (ok : Bool) (buf : List ℕ)
    → count_ok (xs ++ ((ok, buf) ∷ [])) ≡ count_ok xs + (if ok then 1 else 0)
count_ok-append [] true buf = omega arith
count_ok-append [] false buf = omega arith
count_ok-append ((true, b) ∷ xs) ok buf = omega (arith, count_ok-append xs ok buf)
count_ok-append ((false, b) ∷ xs) ok buf = count_ok-append xs ok buf

pub length-with_length : (buf : List ℕ) → 4 ≤ length buf → length (with_length buf) ≡ length buf
length-with_length buf h =
    let n = sub64 (length buf) 4 % mod32 in
    length-overwrite buf 0 (be_bytes 4 n) (omega (arith, length-be_bytes 4 n))
