-- ===== src/Examples/Seastar/Logged.antt =====
-- What a log of the Seastar client does to its transport.
use distributed_logger.Base.{
  ℕ, suc, ◌+◌, ◌*◌, ◌≤◌, ◌<◌, ◌≡◌, refl, ap, ◌∙◌, inl, inr, Bool, true, false, some, List, [], ◌∷◌,
  ◌++◌, arith, All, length, length-append, mod64, be_bytes,
}
use distributed_logger.Client.Logger.{Arg, uint64, string}
use distributed_logger.Client.Logger.Wire.{payload, IsCounted}
use distributed_logger.Client.Logger.Frame.{log_event_lem}
use distributed_logger.Client.SeastarBuffer.{get_capacity, get_buffer}
use distributed_logger.Client.SeastarBuffer.Contract.{seastar_buffer}
use distributed_logger.Client.SeastarIo.{SeastarIo, send}
use distributed_logger.Client.SeastarIo.Trace
use distributed_logger.Client.SeastarIo.Trace.{
  Reach, IsTraced, refused, count_ok, blocks, flying, total, taken, total-append,
  length-with_length,
}
use distributed_logger.Client.SeastarIo.Histories.{Reach-IsTraced}
use distributed_logger.Client.SeastarIo.Connected.{Takes, send-Takes}
use distributed_logger.Examples.Seastar.{host, post_event, log_both}
use distributed_logger.Examples.Seastar.Tasks.{Tasks, Tasks-Passes}

total-refused :
    (outcomes : List (Bool × List ℕ)) → total (refused outcomes) ≤ total (blocks outcomes)
total-refused [] = omega arith
total-refused ((true, b) ∷ outcomes) = omega (arith, total-refused outcomes)
total-refused ((false, b) ∷ outcomes) = omega (arith, total-refused outcomes)

pub count_refused :
    (outcomes : List (Bool × List ℕ))
    → count_ok outcomes + length (refused outcomes) ≡ length (blocks outcomes)
count_refused [] = refl
count_refused ((true, b) ∷ outcomes) = omega (arith, count_refused outcomes)
count_refused ((false, b) ∷ outcomes) = omega (arith, count_refused outcomes)

queue_size_le :
    (sent : List (List ℕ)) (io : SeastarIo) → IsTraced sent io → io.queue_size ≤ total sent
queue_size_le sent io t = omega (
  arith,
  t.counted,
  ap total t.order,
  total-append (blocks io.outcomes) (flying io.in_flight ++ io.wqueue),
  total-append (flying io.in_flight) io.wqueue,
  total-refused io.outcomes,
)

-- The client has made `n` logs, of at most 64 bytes each, and has not shut its transport down.
pub record Logged (n : ℕ) (sent : List (List ℕ)) (io : SeastarIo) : Type 0 where
  pub past : Reach sent io
  pub going : io.shutting_down ≡ false
  pub counted : length sent + io.log_dropped_cnt ≡ n
  pub size : total sent ≤ 64 * n

pub Tasks-Logged :
    (n : ℕ) (sent : List (List ℕ)) (io io' : SeastarIo)
    → Logged n sent io
    → Tasks io io'
    → Logged n sent io'
Tasks-Logged n sent io io' l t =
    let p = Tasks-Passes sent l.past t in
    record {
      past = p.past;
      going = p.shutting_down ∙ l.going;
      counted = omega (arith, l.counted, p.dropped);
      size = l.size;
    }

taken-counted :
    (buf : List ℕ) (n : ℕ) (sent : List (List ℕ)) (io io' : SeastarIo)
    → 4 ≤ length buf
    → length buf ≤ 64
    → 64 * suc n < mod64
    → Logged n sent io
    → Takes buf io io'
    → Logged (suc n) (sent ++ taken buf io) io'
taken-counted buf n sent io io' h small room l t =
    let le = queue_size_le sent io (Reach-IsTraced l.past) in
    let past = Trace.sends buf io' h (omega (arith, le, l.size, small, room)) t.result l.past in
    elim t.counted [
      | inl (refusal, dropped) ↦ record {
        past = past;
        going = t.open_still;
        counted =
            omega (
              arith,
              l.counted,
              dropped,
              room,
              length-append sent (taken buf io),
              ap length refusal,
            );
        size = omega (arith, l.size, total-append sent (taken buf io), ap total refusal);
      }
      | inr (accepted, dropped) ↦ record {
        past = past;
        going = t.open_still;
        counted =
            omega
              (arith, l.counted, dropped, length-append sent (taken buf io), ap length accepted);
        size = omega (
          arith,
          l.size,
          small,
          total-append sent (taken buf io),
          ap total accepted,
          length-with_length buf h,
        );
      }
    ]

-- A state with a connection behind `n` logs.
pub record Connected (n : ℕ) (io : SeastarIo) : Type 0 where
  pub connected : io.connected ≡ true
  pub sent : List (List ℕ)
  pub logged : Logged n sent io

send-Connected :
    (buf : List ℕ) (n : ℕ) (io : SeastarIo)
    → 4 ≤ length buf
    → length buf ≤ 64
    → 64 * suc n < mod64
    → Connected n io
    → (io' : SeastarIo) × (send buf io ≡ some io') × Connected (suc n) io'
send-Connected buf n io h small room c =
    let (io', t) = send-Takes buf io h c.connected c.logged.going in
    (
      io',
      t.result,
      record {
        connected = t.connected;
        sent = c.sent ++ taken buf io;
        logged = taken-counted buf n c.sent io io' h small room c.logged t;
      },
    )

module _ (temporary_buffer : ℕ → List ℕ) (allocated : (n : ℕ) → length (temporary_buffer n) ≡ n)
    (moved_from : List ℕ) where
  post_event-Connected :
      (event : ℕ) (args : List Arg) (n : ℕ) (io : SeastarIo)
      → All IsCounted args
      → length (payload event args) ≤ 60
      → 64 * suc n < mod64
      → Connected n io
      → (io' : SeastarIo) × (post_event temporary_buffer allocated moved_from event args io
          ≡ some io')
        × Connected (suc n) io'
  unfolding post_event get_capacity get_buffer
  post_event-Connected event args n io k small room c =
      let (b, eq, v, cap, off, unread, content) =
        log_event_lem (seastar_buffer temporary_buffer allocated) event args k
          (omega (arith, small)) in
      let (io', e, c') =
        send-Connected b.buffer n io (omega (arith, cap)) (omega (arith, cap, small)) room c in
      (io', rw eq e, c')

  pub log_both-Connected :
      (shard now n : ℕ) (io : SeastarIo)
      → 64 * (suc (suc n)) < mod64
      → Connected n io
      → (io' : SeastarIo) × (log_both temporary_buffer allocated moved_from shard now io ≡ some io')
        × Connected (suc (suc n)) io'
  unfolding log_both be_bytes
  log_both-Connected shard now n io room c =
      let (io1, e1, c1) =
        post_event-Connected 0 (uint64 shard ∷ string host ∷ []) n io (tt, (tt, tt)) (omega arith)
          (omega (arith, room)) c in
      let (io2, e2, c2) =
        post_event-Connected 1 (uint64 shard ∷ string host ∷ uint64 now ∷ []) (suc n) io1
          (tt, (tt, (tt, tt))) (omega arith) (omega (arith, room)) c1 in
      (io2, rw e1 e2, c2)
