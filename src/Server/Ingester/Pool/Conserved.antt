-- ===== src/Server/Ingester/Pool/Conserved.antt =====
-- Where the packets of a pool are.
use distributed_logger.Base.{
  ℕ, zero, suc, ◌+◌, ◌≤◌, ◌<◌, ◌≡◌, refl, ap, ◌∙◌, subst, true, some, List, [], ◌∷◌, ◌++◌, arith,
  if◌then◌else◌, length, replicate, All, All-replace, weigh, weigh-append, length-append, ℤ, pos,
  negsuc, is_positive, size_of,
}
use distributed_logger.Server.Ingester.{Worker, Signal, start, step, packet, tick}
use distributed_logger.Server.Ingester.Batches.{
  held, kept, received, step-kept, held-kept, IsBounded, step-IsBounded,
}
use distributed_logger.Server.Ingester.Pool.{
  Pool, init, enqueue, with_worker, Reach, here, enqueues, receives, ticks,
}

-- What the workers keep, by a weight of packets.
abbrev pub kept_by : (List ℕ → ℕ) → List Worker → ℕ
kept_by p [] = 0
kept_by p (w ∷ ws) = weigh p (kept w) + kept_by p ws

kept_by-append :
    (p : List ℕ → ℕ) (xs ys : List Worker) → kept_by p (xs ++ ys) ≡ kept_by p xs + kept_by p ys
kept_by-append p [] ys = omega arith
kept_by-append p (x ∷ xs) ys = omega (arith, kept_by-append p xs ys)

kept_by-start : (p : List ℕ → ℕ) (n : ℕ) → kept_by p (replicate n start) ≡ 0
unfolding start
kept_by-start p zero = refl
kept_by-start p (suc n) = omega (arith, kept_by-start p n)

-- Where the packets that `Enqueue` took are, and how full the batches and the channel.
pub record IsConserved (taken : List (List ℕ)) (p : Pool) : Type 0 where
  pub same : (q : List ℕ → ℕ) → weigh q taken ≡ weigh q p.channel + kept_by q p.workers
  pub bounded : All (IsBounded p.buffer_size) p.workers
  pub room : length p.channel ≤ p.buffer_size
  pub some_room : 0 < p.buffer_size

All-start : (n m : ℕ) → 0 < n → All (IsBounded n) (replicate m start)
unfolding start
All-start n zero h = tt
All-start n (suc m) h = (record { open_batch = λ _. h; batches = tt }, All-start n m h)

-- A round of a running worker adds to what it keeps the packets that it receives.
kept-step :
    (q : List ℕ → ℕ) (n : ℕ) (s : Signal) (w : Worker)
    → w.running ≡ true
    → weigh q (kept (step n s w)) ≡ weigh q (kept w) + weigh q (received (s ∷ []))
kept-step q n s w g =
    ap (weigh q) (step-kept n s w g)
    ∙ (weigh-append q (held w) (received (s ∷ []))
        ∙ ap (λ l. weigh q l + weigh q (received (s ∷ []))) (held-kept w g))

kept_by-replace :
    (q : List ℕ → ℕ) (n : ℕ) (s : Signal) (before behind : List Worker) (w : Worker)
    → w.running ≡ true
    → kept_by q (before ++ (step n s w ∷ behind))
      ≡ kept_by q (before ++ (w ∷ behind)) + weigh q (received (s ∷ []))
kept_by-replace q n s before behind w g = omega (
  arith,
  kept_by-append q before (step n s w ∷ behind),
  kept_by-append q before (w ∷ behind),
  kept-step q n s w g,
)

init-IsConserved :
    (num_cpu : ℕ) (workers buffer_size : ℤ) → IsConserved [] (init num_cpu workers buffer_size)
unfolding init
init-IsConserved num_cpu workers buffer_size =
    let n = if is_positive buffer_size then size_of buffer_size else 1024 in
    let m = if is_positive workers then size_of workers else num_cpu in
    let positive : 0 < n = positive_size buffer_size in
    record {
      same = λ q. omega (arith, kept_by-start q m);
      bounded = All-start n m positive;
      room = omega (arith, positive);
      some_room = positive;
    }
  where
    positive_size : (i : ℤ) → 0 < (if is_positive i then size_of i else 1024)
    positive_size (pos zero) = omega arith
    positive_size (pos (suc n)) = ground arith
    positive_size (negsuc n) = omega arith

enqueued-IsConserved :
    (taken : List (List ℕ)) (p p' : Pool) (msg : List ℕ)
    → enqueue msg p ≡ some p'
    → IsConserved taken p
    → IsConserved (taken ++ (msg ∷ [])) p'
unfolding enqueue
enqueued-IsConserved taken p p' msg e c =
    let fits : length p.channel < p.buffer_size = ground arith in
    let eq : record p { channel = p.channel ++ (msg ∷ []) } ≡ p' = ground arith in
    subst (IsConserved (taken ++ (msg ∷ []))) eq (record {
      same = λ q.
          omega
            (arith, c.same q, weigh-append q taken (msg ∷ []), weigh-append q p.channel (msg ∷ []));
      bounded = c.bounded;
      room = omega (arith, length-append p.channel (msg ∷ []), fits);
      some_room = c.some_room;
    })

worked-IsConserved :
    (taken : List (List ℕ)) (p : Pool) (before behind : List Worker) (w : Worker) (s : Signal)
    (rest : List (List ℕ))
    → p.workers ≡ before ++ (w ∷ behind)
    → w.running ≡ true
    → p.channel ≡ received (s ∷ []) ++ rest
    → IsConserved taken p
    → IsConserved taken
        (with_worker before (step p.buffer_size s w) behind (record p { channel = rest }))
worked-IsConserved taken p before behind w s rest e g from c = record {
  same = λ q. omega (
    arith,
    c.same q,
    ap (kept_by q) e,
    ap (weigh q) from,
    weigh-append q (received (s ∷ [])) rest,
    kept_by-replace q p.buffer_size s before behind w g,
  );
  bounded =
      All-replace (IsBounded p.buffer_size) before behind w (step p.buffer_size s w)
        (step-IsBounded p.buffer_size s w g c.some_room)
        (subst (All (IsBounded p.buffer_size)) e c.bounded);
  room = omega (arith, c.room, ap length from, length-append (received (s ∷ [])) rest);
  some_room = c.some_room;
}

-- However the goroutines of the listeners and the workers take turns, from `Init` on, every packet that
-- `Enqueue` took is in the channel, in an open batch of a running worker or in a batch that was
-- flushed, each as often as it was taken, and nothing else is. The channel never holds more packets
-- than the buffer size, no flushed batch is larger, and an open batch is smaller.
pub Reach-IsConserved :
    (num_cpu : ℕ) (workers buffer_size : ℤ) {taken : List (List ℕ)} {p : Pool}
    → Reach (init num_cpu workers buffer_size) taken p
    → IsConserved taken p
Reach-IsConserved c w b here = init-IsConserved c w b
Reach-IsConserved c w b (enqueues {taken} {p} {p'} msg e past) =
    enqueued-IsConserved taken p p' msg e (Reach-IsConserved c w b past)
Reach-IsConserved c w b (receives {taken} {p} before behind v msg rest fails e g from past) =
    worked-IsConserved taken p before behind v (packet msg fails) rest e g from
      (Reach-IsConserved c w b past)
Reach-IsConserved c w b (ticks {taken} {p} before behind v fails e g past) =
    worked-IsConserved taken p before behind v (tick fails) p.channel e g refl
      (Reach-IsConserved c w b past)
