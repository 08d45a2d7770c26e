-- ===== src/Examples/Posix/Ran.antt =====
-- What calls of the generated functions make of a PosixIO.
use distributed_logger.Base.{
  ℕ, ◌+◌, ◌*◌, ◌%◌, ◌≤◌, ◌<◌, ◌≡◌, refl, sym, ap, ◌∙◌, subst, ◌⊎◌, inl, inr, Bool, Option, none,
  some, List, [], ◌∷◌, ◌++◌, append-nil, append_assoc, arith, length, All, length-append, mod64,
}
use mathlib.Core.List.{Sublistᴰ}
use mathlib.Core.List.Sublistᴰ
use distributed_logger.Client.PosixBuffer.{PosixBuffer, get_capacity, get_read_offset}
use distributed_logger.Client.PosixBuffer.Contract.{posix_buffer}
use distributed_logger.Client.Logger.{log_event}
use distributed_logger.Client.Logger.Wire.{IsCounted}
use distributed_logger.Client.Logger.Frame.{log_event_lem}
use distributed_logger.Client.PosixIo.State.{
  PosixIo, Reply, Run, done, exits, fault, ◌>>=◌, or_fault, is_plain, minus_one,
}
use distributed_logger.Client.PosixIo.Send.{send}
use distributed_logger.Client.PosixIo.Pending.{IsGood, IsAnswer, Ends}
use distributed_logger.Client.PosixIo.Accept.{IsFresh, Sends, send_lem}
use distributed_logger.Client.PosixIo.History.{
  Reach, here, next, sends, drops, IsWithin, Reach-Kept, length-frame,
}
use distributed_logger.Server.Storage.Batch.{Log, payload_of}
use distributed_logger.EndToEnd.{AllBuilt}
use distributed_logger.Examples.Posix.Logs.{
  event0_log, event1_log, frame_size_0, frame_size_1, round_logs,
}
use distributed_logger.Examples.Posix.{post_event, event0_args, event1_args, log_both}

-- A history of a transport in which the logs `made` were given to `send`, and those of `accepted` were
-- taken.
pub record Ran (io : PosixIo) (made : List Log) (io' : PosixIo) : Type 0 where
  pub sent : List PosixBuffer
  pub past : Reach io sent io'
  pub accepted : List Log
  pub built : AllBuilt accepted sent
  pub in_order : Sublistᴰ accepted made
  pub counted :
      (length sent + io'.log_dropped_cnt) % mod64 ≡ (length made + io.log_dropped_cnt) % mod64
  pub plain : is_plain io' ≡ is_plain io
  pub size_le : io'.queue_size ≤ io.queue_size + 64 * length made

Reach-append :
    {io io1 io2 : PosixIo} {s t : List PosixBuffer}
    → Reach io s io1
    → Reach io1 t io2
    → Reach io (s ++ t) io2
Reach-append {io} {io1} {s = s} p here = subst (λ l. Reach io l io1) (sym (append-nil s)) p
Reach-append {io} {s = s} p (next {sent} {more} {io'' = io2} q step) =
    subst (λ l. Reach io l io2) (append_assoc s sent more) (next (Reach-append p q) step)

built-append :
    (xs ys : List Log) (bs cs : List PosixBuffer)
    → AllBuilt xs bs
    → AllBuilt ys cs
    → AllBuilt (xs ++ ys) (bs ++ cs)
built-append [] ys [] cs h k = k
built-append [] ys (b ∷ bs) cs h k = absurd h
built-append (x ∷ xs) ys [] cs h k = absurd h
built-append (x ∷ xs) ys (b ∷ bs) cs h k = (h.0, built-append xs ys bs cs h.1 k)

pub length-built :
    (logs : List Log) (bs : List PosixBuffer) → AllBuilt logs bs → length logs ≡ length bs
length-built [] [] h = refl
length-built [] (b ∷ bs) h = absurd h
length-built (l ∷ logs) [] h = absurd h
length-built (l ∷ logs) (b ∷ bs) h = omega (arith, length-built logs bs h.1)

pub Ran-refl : (io : PosixIo) → Ran io [] io
Ran-refl io = record {
  sent = [];
  past = here;
  accepted = [];
  built = tt;
  in_order = Sublistᴰ.slnil;
  counted = omega arith;
  plain = refl;
  size_le = omega arith;
}

pub Ran-trans :
    {io io1 io2 : PosixIo} (m n : List Log) → Ran io m io1 → Ran io1 n io2 → Ran io (m ++ n) io2
Ran-trans m n p q = record {
  sent = p.sent ++ q.sent;
  past = Reach-append p.past q.past;
  accepted = p.accepted ++ q.accepted;
  built = built-append p.accepted q.accepted p.sent q.sent p.built q.built;
  in_order = Sublistᴰ.append p.in_order q.in_order;
  counted = omega (arith, p.counted, q.counted, length-append p.sent q.sent, length-append m n);
  plain = q.plain ∙ p.plain;
  size_le = omega (arith, p.size_le, q.size_le, length-append m n);
}

-- A bind of two calls.
pub Ends-bind :
    {A B : Type 0} (plain : Bool) (P : A → Type 0) (Q : B → Type 0) (m : Run A) (f : A → Run B)
    → Ends plain P m
    → ((a : A) → P a → Ends plain Q (f a))
    → Ends plain Q (m >>= f)
Ends-bind plain P Q (done a) f h k = k a h
Ends-bind plain P Q (exits n) f h k = h
Ends-bind plain P Q fault f h k = h

-- What `write` may answer to a buffer of `size` bytes.
abbrev pub IsReply : ℕ → Reply → Type 0
IsReply size r = (r.ret ≤ size) ⊎ (r.ret ≡ minus_one)

module _ (r : Reply) (l : Log) (b : PosixBuffer) (io : PosixIo) (g : IsGood io) (f : IsFresh b)
    (room : io.queue_size + b.size < mod64) (a : IsAnswer r b) (small : b.size ≤ 64)
    (made : log_event posix_buffer l.event l.args ≡ some b) where
  dropped-Ran :
      (back : PosixBuffer) (io' : PosixIo)
      → send r b io ≡ done (some back, io')
      → Sends b io (some back, io')
      → Ran io (l ∷ []) io'
  dropped-Ran back io' e (inl (n0, over, same, eq)) = record {
    sent = [];
    past = next here (drops r b back io' f room a e);
    accepted = [];
    built = tt;
    in_order = Sublistᴰ.nil-sublist (l ∷ []);
    counted = omega (arith, ap (λ (x : PosixIo). x.log_dropped_cnt) eq);
    plain = ap is_plain eq;
    size_le = omega (arith, ap (λ (x : PosixIo). x.queue_size) eq);
  }
  dropped-Ran back io' e (inr (fits, same, t)) = cc

  taken-Ran :
      (io' : PosixIo)
      → send r b io ≡ done (none, io')
      → Sends b io (none, io')
      → Ran io (l ∷ []) io'
  taken-Ran io' e (inl (n0, over, same, eq)) = cc
  taken-Ran io' e (inr (fits, same, t)) = record {
    sent = b ∷ [];
    past = next here (sends r b io' f room a e);
    accepted = l ∷ [];
    built = (made, tt);
    in_order = Sublistᴰ.refl (l ∷ []);
    counted = omega (arith, t.dropped);
    plain = simp (t.cert, t.key);
    size_le = omega (arith, t.size_le, g.counted, length-frame b f, small);
  }

  send-Ran :
      (o : Run (Option PosixBuffer × PosixIo))
      → send r b io ≡ o
      → Ends (is_plain io) (Sends b io) o
      → Ends (is_plain io) (Ran io (l ∷ [])) (o >>= λ p. done p.1)
  send-Ran (done (some back, io')) e h = dropped-Ran back io' e h
  send-Ran (done (none, io')) e h = taken-Ran io' e h
  send-Ran (exits n) e h = h
  send-Ran fault e h = h

-- One call of a generated function, with a small frame.
pub post_event-Ran :
    (r : Reply) (l : Log) (io : PosixIo)
    → All IsCounted l.args
    → 4 + length (payload_of l) ≤ 64
    → IsReply (4 + length (payload_of l)) r
    → IsGood io
    → io.queue_size + 64 < mod64
    → Ends (is_plain io) (Ran io (l ∷ [])) (post_event r l.event l.args io)
unfolding post_event get_capacity get_read_offset
post_event-Ran r l io counted small answer g room =
    let (b, eq, v, cap, off, unread, content) =
      log_event_lem posix_buffer l.event l.args counted (omega (arith, small)) in
    let f : IsFresh b = record {
      valid = v;
      unread = unread;
      room = omega (arith, cap);
      below_2gb = omega (arith, cap, small);
    } in
    let fits : io.queue_size + b.size < mod64 = omega (arith, cap, small, room) in
    let a : IsAnswer r b = omega (arith, answer, cap, unread) in
    subst
      (λ o.
        Ends (is_plain io) (Ran io (l ∷ [])) (or_fault o >>= λ c. send r c io >>= λ p. done p.1))
      (sym eq)
      (send-Ran r l b io g f fits a (omega (arith, cap, small)) eq (send r b io) refl
        (send_lem r b io g f fits a))

-- The two calls of a round.
pub log_both-Ran :
    (r0 r1 : Reply) (shard : ℕ) (host : List ℕ) (now : ℕ) (io : PosixIo)
    → length host ≤ 34
    → IsReply (22 + length host) r0
    → IsReply (30 + length host) r1
    → IsGood io
    → IsWithin io
    → io.queue_size + 128 < mod64
    → Ends (is_plain io) (Ran io (round_logs shard host now)) (log_both r0 r1 shard host now io)
unfolding log_both
log_both-Ran r0 r1 shard host now io short a0 a1 g w room =
    let e0 = frame_size_0 shard host in
    let e1 = frame_size_1 shard host now in
    Ends-bind (is_plain io) (Ran io (first ∷ [])) (Ran io (first ∷ second ∷ []))
      (post_event r0 0 (event0_args shard host) io) (post_event r1 1 (event1_args shard host now))
      (post_event-Ran r0 first io (tt, (tt, tt)) (omega (arith, e0, short)) (omega (arith, e0, a0))
        g (omega (arith, room)))
      (λ io' ran. later io' ran (post_event r1 1 (event1_args shard host now) io') (
        post_event-Ran r1 second io' (tt, (tt, (tt, tt))) (omega (arith, e1, short))
          (omega (arith, e1, a1)) (Reach-Kept g w ran.past).good
          (omega (arith, room, ran.size_le))))
  where
    first : Log
    first = event0_log shard host

    second : Log
    second = event1_log shard host now

    later :
        (io' : PosixIo)
        → Ran io (first ∷ []) io'
        → (o : Run PosixIo) → Ends (is_plain io') (Ran io' (second ∷ [])) o
        → Ends (is_plain io) (Ran io (first ∷ second ∷ [])) o
    later io' ran (done io'') h = Ran-trans (first ∷ []) (second ∷ []) ran h
    later io' ran (exits n) h = sym ran.plain ∙ h
    later io' ran fault h = h

pub length-sublist : {A : Type 0} {xs ys : List A} → Sublistᴰ xs ys → length xs ≤ length ys
length-sublist Sublistᴰ.slnil = omega arith
length-sublist (Sublistᴰ.cons h) = omega (arith, length-sublist h)
length-sublist (Sublistᴰ.cons-cons e h) = omega (arith, length-sublist h)
