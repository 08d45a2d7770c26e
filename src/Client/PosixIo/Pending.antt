-- ===== src/Client/PosixIo/Pending.antt =====
-- The queue of PosixIO seen as the bytes that it still has to send.
use distributed_logger.Base.{
  ℕ, ◌+◌, ◌-◌, ◌^◌, ◌≤◌, ◌<◌, ◌≡◌, refl, sym, ◌⊎◌, Bool, false, List, [], ◌∷◌, ◌++◌, append_assoc,
  arith, ltb, if◌then◌else◌, take, drop, All, take-append-drop, drop-drop, mod64,
}
use distributed_logger.Client.PosixBuffer.{PosixBuffer, IsValid}
use distributed_logger.Client.PosixIo.State.{PosixIo, Reply, Run, done, exits, fault, minus_one}
use distributed_logger.Client.PosixIo.Send.{os_write}

-- A buffer with bytes left to send.
pub record IsPending (b : PosixBuffer) : Type 0 where
  pub valid : IsValid b
  pub left : b.read_offset < b.size
  pub below_2gb : b.size < 2 ^ 31

abbrev pub rest_of : PosixBuffer → List ℕ
rest_of b = drop b.read_offset b.buffer

abbrev pub unsent_bytes : List PosixBuffer → List ℕ
unsent_bytes [] = []
unsent_bytes (b ∷ bs) = rest_of b ++ unsent_bytes bs

abbrev pub unsent_size : List PosixBuffer → ℕ
unsent_size [] = 0
unsent_size (b ∷ bs) = (b.size - b.read_offset) + unsent_size bs

-- What the sockets have accepted, and behind it what is still queued.
abbrev pub stream : PosixIo → List ℕ
stream io = io.wire ++ unsent_bytes io.queue

-- Every queued buffer has bytes left, and `_queuesize` is their number.
pub record IsGood (io : PosixIo) : Type 0 where
  pub pending : All IsPending io.queue
  pub counted : io.queue_size ≡ unsent_size io.queue
  pub in_range : io.queue_size < mod64

-- What `write` may answer: at most the bytes it was given, or -1.
abbrev pub IsTaken : Reply → PosixBuffer → Type 0
IsTaken r b = r.ret ≤ b.size - b.read_offset

abbrev pub IsAnswer : Reply → PosixBuffer → Type 0
IsAnswer r b = IsTaken r b ⊎ (r.ret ≡ minus_one)

-- A call returns, or exits where TLS is configured, and does not read or write outside a buffer's block.
abbrev pub Ends {ℓ} : {A : Type ℓ} → Bool → (A → Type 0) → Run A → Type 0
Ends plain P (done a) = P a
Ends plain P (exits n) = plain ≡ false
Ends plain P fault = ⊥

pub unsent_bytes-append :
    (xs ys : List PosixBuffer) → unsent_bytes (xs ++ ys) ≡ unsent_bytes xs ++ unsent_bytes ys
unsent_bytes-append [] ys = refl
unsent_bytes-append (x ∷ xs) ys =
    rw (unsent_bytes-append xs ys)
      (sym (append_assoc (rest_of x) (unsent_bytes xs) (unsent_bytes ys)))

pub unsent_size-append :
    (xs ys : List PosixBuffer) → unsent_size (xs ++ ys) ≡ unsent_size xs + unsent_size ys
unsent_size-append [] ys = omega arith
unsent_size-append (x ∷ xs) ys = omega (arith, unsent_size-append xs ys)

-- The bytes that a reply accepts.
abbrev pub accepted : Reply → PosixBuffer → List ℕ
accepted r b = if ltb r.ret (2 ^ 63) then take r.ret (rest_of b) else []

-- The request stays inside the block of a pending buffer.
pub os_write_lem : (r : Reply) (b : PosixBuffer) → IsPending b → os_write r b ≡ done (accepted r b)
unfolding os_write
os_write_lem r b p = ground (arith, p.valid.block, p.valid.small)

-- The buffer after `n` of its bytes have been accepted.
abbrev pub advance : ℕ → PosixBuffer → PosixBuffer
advance n b = record b { read_offset = b.read_offset + n }

pub rest_of-advance :
    (n : ℕ) (b : PosixBuffer) → take n (rest_of b) ++ rest_of (advance n b) ≡ rest_of b
rest_of-advance n b =
    rw (← drop-drop n b.read_offset (b.read_offset + n) b.buffer refl)
      (take-append-drop n (rest_of b))

pub advance-IsPending :
    (n : ℕ) (b : PosixBuffer) → b.read_offset + n < b.size → IsPending b → IsPending (advance n b)
advance-IsPending n b h p = record {
  valid = record {
    block = p.valid.block;
    small = p.valid.small;
    read_in = omega arith;
    write_in = p.valid.write_in;
  };
  left = h;
  below_2gb = p.below_2gb;
}
