-- ===== src/Client/PosixIo/Socket.antt =====
-- Calls that leave the socket of a PosixIO as it is.
use distributed_logger.Base.{
  ◌%◌, ◌≡◌, refl, subst, ◌⊎◌, inl, inr, true, ◌||◌, not, Option, arith, Bool-cases, mod32, add64,
  ◌==◌,
}
use distributed_logger.Client.PosixBuffer.{PosixBuffer, store_front}
use distributed_logger.Client.PosixIo.State.{
  PosixIo, Reply, Run, done, exits, fault, ◌>>=◌, or_fault, is_empty,
}
use distributed_logger.Client.PosixIo.Send.{
  send, write_now, os_write, is_positive, is_full, length_word,
}

pub record SameSocket (io io' : PosixIo) : Type 0 where
  pub fd : io'.fd ≡ io.fd
  pub mode : io'.async_mode ≡ io.async_mode

-- With this answer `send` does not set up a connection again: it does not write in asynchronous mode, and
-- otherwise does so only for an answer that is not positive and has an error.
abbrev pub StaysUp : Reply → PosixIo → Type 0
StaysUp r io = (io.async_mode ≡ true) ⊎ ((r.errno ≡ 0) ⊎ (is_positive (r.ret % mod32) ≡ true))

-- If the call returns, its result is such.
abbrev pub Results : {A : Type 0} → (A → Type 0) → Run A → Type 0
Results P (done a) = P a
Results P (exits n) = Unit {0}
Results P fault = Unit {0}

pub Results-bind :
    {A B : Type 0} (P : A → Type 0) (Q : B → Type 0) (m : Run A) (f : A → Run B)
    → Results P m
    → ((a : A) → P a → Results Q (f a))
    → Results Q (m >>= f)
Results-bind P Q (done a) f h k = k a h
Results-bind P Q (exits n) f h k = tt
Results-bind P Q fault f h k = tt

pub Results-map :
    {A : Type 0} (P Q : A → Type 0) (m : Run A) → Results P m → ((a : A) → P a → Q a) → Results Q m
Results-map P Q (done a) h k = k a h
Results-map P Q (exits n) h k = tt
Results-map P Q fault h k = tt

pub any-Results : {A : Type 0} (m : Run A) → Results (λ a. Unit {0}) m
any-Results (done a) = tt
any-Results (exits n) = tt
any-Results fault = tt

write_now-SameSocket :
    (r : Reply) (b : PosixBuffer) (io : PosixIo)
    → (r.errno ≡ 0) ⊎ (is_positive (r.ret % mod32) ≡ true)
    → Results (SameSocket io) (write_now r b io)
unfolding write_now
write_now-SameSocket r b io h =
    Results-bind (λ bytes. Unit {0}) (SameSocket io) (os_write r b) _ (any-Results (os_write r b))
      (λ bytes u. elim (Bool-cases (is_positive (r.ret % mod32))) [
        | inl taken ↦ rw taken (record { fd = ground arith; mode = ground arith })
        | inr refused ↦
            (let no_error : (r.errno == 0) ≡ true = ground (arith, h, refused) in
              rw (refused, no_error) (record { fd = ground arith; mode = ground arith }))
      ])

pub send-Results :
    (r : Reply) (b : PosixBuffer) (io : PosixIo)
    → StaysUp r io
    → Results (λ x. SameSocket io x.1) (send r b io)
unfolding send
send-Results r b io h = elim (Bool-cases (is_full b io)) [
  | inl full ↦ rw full (record { fd = refl; mode = refl })
  | inr room ↦ rw room (
      Results-bind (λ framed. Unit {0}) (λ x. SameSocket io x.1)
        (or_fault (store_front (length_word b) b)) _
        (any-Results (or_fault (store_front (length_word b) b)))
        (λ framed u. elim (Bool-cases (io.async_mode || not (is_empty io.queue))) [
          | inl later ↦ rw later (record { fd = refl; mode = refl })
          | inr now ↦
              (let up : (r.errno ≡ 0) ⊎ (is_positive (r.ret % mod32) ≡ true) = elim h [
                | inl async ↦ ground (arith, async, now)
                | inr e ↦ e
              ] in
                let io1 : PosixIo = record io {
                  log_posted_cnt = add64 io.log_posted_cnt 1;
                  queue_size = add64 io.queue_size b.size;
                } in
                rw now (
                  Results-bind (SameSocket io1) (λ x. SameSocket io x.1) (write_now r framed io1) _
                    (write_now-SameSocket r framed io1 up)
                    (λ io2 s. record { fd = s.fd; mode = s.mode })))
        ]))
]

pub send-SameSocket :
    (r : Reply) (b : PosixBuffer) (io io' : PosixIo) (back : Option PosixBuffer)
    → StaysUp r io
    → send r b io ≡ done (back, io')
    → SameSocket io io'
send-SameSocket r b io io' back h e =
    subst (Results (λ x. SameSocket io x.1)) e (send-Results r b io h)
