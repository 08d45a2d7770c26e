-- ===== src/Server/Listener/Refine.antt =====
-- `handleConnection` against the framing protocol.
use distributed_logger.Base.{
  ℕ, ◌≤◌, ◌≡◌, refl, sym, ap, ◌∙◌, subst, inl, inr, true, false, List, [], ◌∷◌, ◌++◌, append-nil,
  arith, Bool-cases, length,
}
use distributed_logger.Server.Listener.{Read, Conn, Round, step, run, room}
use distributed_logger.Server.Listener.Bytes.{
  closed, feed_all, feed_more, feed_all-append, feed_all-closed,
}
use distributed_logger.Server.Listener.Steps.{
  got_bytes, view, IsOpen, round_view, Agrees, step_refines,
}

-- Reads without an error, each of which fits the slice that it is given.
abbrev pub AllFit : List Read → Conn → Type 0
AllFit [] c = Unit {0}
AllFit (r ∷ rs) c = (r.failed ≡ false) × (length r.bytes ≤ room c) × AllFit rs (step r c).conn

-- The bytes of the reads, one behind the other.
abbrev pub bytes_of : List Read → List ℕ
bytes_of [] = []
bytes_of (r ∷ rs) = r.bytes ++ bytes_of rs

round-open : (s : Round) → s.goes_on ≡ true → round_view s ≡ view s.conn
round-open s g = rw g

round-closed : (s : Round) → s.goes_on ≡ false → round_view s ≡ closed
round-closed s g = rw g

feed_more-closed : (ys : List ℕ) (out : List (List ℕ)) → (closed, out) ≡ feed_more ys (closed, out)
feed_more-closed ys out = rw (feed_all-closed ys, append-nil out)

pub run-cons_open :
    (r : Read) (rs : List Read) (c : Conn)
    → (step r c).goes_on ≡ true
    → run (r ∷ rs) c ≡ record (run rs (step r c).conn) {
      enqueued = (step r c).enqueued ++ (run rs (step r c).conn).enqueued;
    }
unfolding run
run-cons_open r rs c g = ground arith

pub run-cons_closed :
    (r : Read) (rs : List Read) (c : Conn) → (step r c).goes_on ≡ false → run (r ∷ rs) c ≡ step r c
unfolding run
run-cons_closed r rs c g = ground arith

-- From any open state of the loop, however a connection cuts its bytes into reads without an error
-- that fit the slices offered, the loop hands on the packets that the framing protocol finds in all
-- of them, and stays open exactly while the protocol does.
pub run_refines :
    (rs : List Read) (c : Conn)
    → IsOpen c
    → AllFit rs c
    → Agrees (run rs c) (feed_all (bytes_of rs) (view c))
run_refines [] c o f = unfold run feed_all in (refl, λ _. o)
run_refines (r ∷ rs) c o f =
    rw (feed_all-append r.bytes (bytes_of rs) (view c), ← now.0)
      (elim (Bool-cases s.goes_on) [
        | inl g ↦
            let later = run_refines rs s.conn (now.1 g) f.2 in
            rw (run-cons_open r rs c g) (
              ap (λ out. (out.0, s.enqueued ++ out.1)) later.0
                  ∙ ap (λ p. feed_more (bytes_of rs) (p, s.enqueued)) (sym (round-open s g)),
              later.1,
            )
        | inr g ↦ rw (run-cons_closed r rs c g) (
          ap (λ p. (p, s.enqueued)) (round-closed s g)
              ∙ (feed_more-closed (bytes_of rs) s.enqueued
                  ∙ ap (λ p. feed_more (bytes_of rs) (p, s.enqueued)) (sym (round-closed s g))),
          now.1,
        )
      ])
  where
    s : Round
    s = step r c

    r_eq : r ≡ got_bytes r.bytes
    r_eq = ground (arith, f.0)

    now : Agrees s (feed_all r.bytes (view c))
    now =
        subst (λ r'. Agrees (step r' c) (feed_all r.bytes (view c))) (sym r_eq)
          (step_refines r.bytes c o f.1)
