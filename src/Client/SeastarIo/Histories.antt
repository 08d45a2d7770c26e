-- ===== src/Client/SeastarIo/Histories.antt =====
-- Every state that a SeastarIO can reach.
use distributed_logger.Base.{
  ℕ, suc, ◌+◌, ◌-◌, ◌≤◌, ◌<◌, ◌≡◌, refl, sym, subst, ◌≢◌, inl, inr, true, false, ◌||◌, not, some,
  List, [], ◌∷◌, ◌++◌, append-nil, arith, Bool-cases, length, mod64, add64,
}
use distributed_logger.Client.SeastarIo.{
  SeastarIo, make, set_queue_max_size, initialize_connected_socket, reconnect, timer_fires,
  connect_completes, shut_down, transmit, is_full, with_length, send,
}
use distributed_logger.Client.SeastarIo.Trace.{
  refused, total, taken, Reach, IsTraced, created, limits, connects, fires, completes, shuts_down,
  writes, sends,
}
use distributed_logger.Client.SeastarIo.Steps.{
  set_others, reconnect-IsTraced, transmit-IsTraced, write_completes-IsTraced, pushed,
  pushed-IsTraced, idle-IsTraced,
}

ends-IsTraced :
    (sent : List (List ℕ)) {k l : List (List ℕ)} {x io' : SeastarIo}
    → k ≡ l
    → x ≡ io'
    → IsTraced (sent ++ l) x
    → IsTraced (sent ++ k) io'
ends-IsTraced sent {k} {l} {x} {io'} p q t =
    subst (λ y. IsTraced (sent ++ k) y) q (subst (λ m. IsTraced (sent ++ m) x) (sym p) t)

nothing-IsTraced :
    {sent : List (List ℕ)} {io : SeastarIo} → IsTraced sent io → IsTraced (sent ++ []) io
nothing-IsTraced {sent} {io} t = subst (λ s. IsTraced s io) (sym (append-nil sent)) t

send-IsTraced :
    (buf : List ℕ) (sent : List (List ℕ)) (io io' : SeastarIo)
    → 4 ≤ length buf
    → io.queue_size + length buf < mod64
    → send buf io ≡ some io'
    → IsTraced sent io
    → IsTraced (sent ++ taken buf io) io'
unfolding send pushed
send-IsTraced buf sent io io' h small e t = elim (Bool-cases (is_full buf io)) [
  | inl full ↦
      (let dropped : SeastarIo = record io { log_dropped_cnt = add64 io.log_dropped_cnt 1 } in
        let eq : dropped ≡ io' = ground arith in
        let no : taken buf io ≡ [] = ground arith in
        ends-IsTraced sent no eq (
          nothing-IsTraced (
            set_others io.queue_max_size io.connected io.shutting_down io.timer_armed io.connecting
              (add64 io.log_dropped_cnt 1) sent io t)))
  | inr room ↦ elim (Bool-cases (io.shutting_down || not io.connected)) [
    | inl down ↦
        (let eq : io ≡ io' = ground arith in
          let no : taken buf io ≡ [] = ground arith in
          ends-IsTraced sent no eq (nothing-IsTraced t))
    | inr up ↦ elim (Bool-cases io.transmitting) [
      | inl busy ↦
          (let eq : pushed buf io ≡ io' = ground arith in
            let yes : taken buf io ≡ with_length buf ∷ [] = ground arith in
            ends-IsTraced sent yes eq (pushed-IsTraced buf sent io h small t))
      | inr idle ↦
          (let eq : transmit (pushed buf io).wqueue (pushed buf io) ≡ io' = ground arith in
            let yes : taken buf io ≡ with_length buf ∷ [] = ground arith in
            ends-IsTraced sent yes eq (
              transmit-IsTraced (pushed buf io).wqueue (sent ++ (with_length buf ∷ []))
                (pushed buf io)
                (idle-IsTraced (sent ++ (with_length buf ∷ [])) (pushed buf io) idle
                  (pushed-IsTraced buf sent io h small t))))
    ]
  ]
]

-- In every state that a transport can reach from its constructor, however its calls and the completions
-- of its writes and connections follow each other: the blocks that `send` took are, in their order,
-- those whose write has completed, then the one in flight, then those in the queue. Each is counted as
-- posted, each that was written as sent, and `_queuesize` counts the queued bytes, those in flight, and
-- those of all writes that failed.
pub Reach-IsTraced : {sent : List (List ℕ)} {io : SeastarIo} → Reach sent io → IsTraced sent io
unfolding make set_queue_max_size reconnect timer_fires connect_completes
    initialize_connected_socket shut_down
Reach-IsTraced created = record {
  order = refl;
  idle = λ h. refl;
  posted = refl;
  written = refl;
  counted = refl;
  in_range = omega arith;
}
Reach-IsTraced (limits {sent} {io} n past) =
    set_others n io.connected io.shutting_down io.timer_armed io.connecting io.log_dropped_cnt sent
      io (Reach-IsTraced past)
Reach-IsTraced (connects {sent} {io} past) = reconnect-IsTraced sent io (Reach-IsTraced past)
Reach-IsTraced (fires {sent} {io} e past) =
    set_others io.queue_max_size io.connected io.shutting_down false (suc io.connecting)
      io.log_dropped_cnt sent io (Reach-IsTraced past)
Reach-IsTraced (completes {sent} {io} true h past) =
    set_others io.queue_max_size true io.shutting_down io.timer_armed (io.connecting - 1)
      io.log_dropped_cnt sent io (Reach-IsTraced past)
Reach-IsTraced (completes {sent} {io} false h past) =
    reconnect-IsTraced sent (record io { connecting = io.connecting - 1 })
      (set_others io.queue_max_size io.connected io.shutting_down io.timer_armed (io.connecting - 1)
        io.log_dropped_cnt sent io (Reach-IsTraced past))
Reach-IsTraced (shuts_down {sent} {io} e past) =
    set_others io.queue_max_size io.connected true io.timer_armed io.connecting io.log_dropped_cnt
      sent io (Reach-IsTraced past)
Reach-IsTraced (writes {sent} {io} ok buf e past) =
    write_completes-IsTraced ok buf sent io e (Reach-IsTraced past)
Reach-IsTraced (sends {sent} {io} buf io' h small e past) =
    send-IsTraced buf sent io io' h small e (Reach-IsTraced past)

-- Once the blocks of the writes that failed amount to a limit that is set, every later log whose
-- size does not make `_queuesize` wrap is dropped and counted as dropped, also where the queue is
-- empty and a connection is up again.
pub refused_fill_queue :
    {sent : List (List ℕ)} {io : SeastarIo} (buf : List ℕ)
    → Reach sent io
    → io.queue_max_size ≢ 0
    → io.queue_max_size ≤ total (refused io.outcomes)
    → 0 < length buf
    → io.queue_size + length buf < mod64
    → send buf io ≡ some (record io { log_dropped_cnt = add64 io.log_dropped_cnt 1 })
unfolding send
refused_fill_queue {sent} {io} buf past limit full h small =
    let t = Reach-IsTraced past in ground (arith, t.counted)
