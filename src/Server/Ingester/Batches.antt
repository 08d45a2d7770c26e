-- ===== src/Server/Ingester/Batches.antt =====
-- The packets that a worker receives, and the batches that it makes of them.
use distributed_logger.Base.{
  ℕ, ◌≤◌, ◌<◌, ◌≡◌, refl, sym, ap, ◌∙◌, subst, inl, inr, true, false, List, [], ◌∷◌, ◌++◌,
  append-nil, append_assoc, arith, ltb, leb, if◌then◌else◌, Bool-cases, length, All, length-append,
}
use distributed_logger.Server.Ingester.{
  Signal, packet, tick, closed, Worker, start, flush_batch, step, run,
}

abbrev pub flatten {ℓ} : {A : Type ℓ} → List (List A) → List A
flatten [] = []
flatten (xs ∷ xss) = xs ++ flatten xss

abbrev pub received : List Signal → List (List ℕ)
received [] = []
received (packet ev fails ∷ signals) = ev ∷ received signals
received (tick fails ∷ signals) = received signals
received (closed ∷ signals) = received signals

-- All that a worker has taken from the channel, in order.
abbrev pub held : Worker → List (List ℕ)
held w = flatten w.flushed ++ w.batch

pub flatten-append {ℓ} :
    {A : Type ℓ} (xss : List (List A)) (ys : List A)
    → flatten (xss ++ (ys ∷ [])) ≡ flatten xss ++ ys
flatten-append [] ys = append-nil ys
flatten-append (xs ∷ xss) ys = rw (flatten-append xss ys) (sym (append_assoc xs (flatten xss) ys))

flush-held :
    (batch : List (List ℕ)) (w : Worker) → held (flush_batch batch w) ≡ flatten w.flushed ++ batch
flush-held batch w =
    append-nil (flatten (w.flushed ++ (batch ∷ []))) ∙ flatten-append w.flushed batch

-- A round adds to what the worker holds the packet that it receives. The one flush that leaves the
-- batch in place ends the worker.
abbrev pub kept : Worker → List (List ℕ)
kept w = if w.running then held w else flatten w.flushed

pub step-kept :
    (n : ℕ) (s : Signal) (w : Worker)
    → w.running ≡ true
    → kept (step n s w) ≡ held w ++ received (s ∷ [])
unfolding step
step-kept n (packet ev fails) w g = elim (Bool-cases (leb n (length (w.batch ++ (ev ∷ []))))) [
  | inl full ↦
      rw (full, g)
        (flush-held (w.batch ++ (ev ∷ [])) w
          ∙ sym (append_assoc (flatten w.flushed) w.batch (ev ∷ [])))
  | inr more ↦ rw (more, g) (sym (append_assoc (flatten w.flushed) w.batch (ev ∷ [])))
]
step-kept n (tick true) w g = elim (Bool-cases (ltb 0 (length w.batch))) [
  | inl some_left ↦ rw some_left (flatten-append w.flushed w.batch ∙ sym (append-nil (held w)))
  | inr none_left ↦ rw (none_left, g) (sym (append-nil (held w)))
]
step-kept n (tick false) w g = elim (Bool-cases (ltb 0 (length w.batch))) [
  | inl some_left ↦ rw (some_left, g) (flush-held w.batch w ∙ sym (append-nil (held w)))
  | inr none_left ↦ rw (none_left, g) (sym (append-nil (held w)))
]
step-kept n closed w g = flatten-append w.flushed w.batch ∙ sym (append-nil (held w))

received-append :
    (s : Signal) (signals : List Signal)
    → received (s ∷ []) ++ received signals ≡ received (s ∷ signals)
received-append (packet ev fails) signals = refl
received-append (tick fails) signals = refl
received-append closed signals = refl

-- The batch is below the size of the buffer, and no flushed batch is above it.
pub record IsBounded (n : ℕ) (w : Worker) : Type 0 where
  pub open_batch : (w.running ≡ true) → length w.batch < n
  pub batches : All (λ b. length b ≤ n) w.flushed

All-snoc :
    (n : ℕ) (bs : List (List (List ℕ))) (b : List (List ℕ))
    → All (λ b. length b ≤ n) bs
    → length b ≤ n
    → All (λ b. length b ≤ n) (bs ++ (b ∷ []))
All-snoc n [] b h k = (k, tt)
All-snoc n (x ∷ bs) b h k = (h.0, All-snoc n bs b h.1 k)

pub step-IsBounded :
    (n : ℕ) (s : Signal) (w : Worker)
    → w.running ≡ true
    → 0 < n
    → IsBounded n w
    → IsBounded n (step n s w)
unfolding step
step-IsBounded n (packet ev fails) w g h b =
    let len = length-append w.batch (ev ∷ []) in
    let open' = b.open_batch g in
    elim (Bool-cases (leb n (length (w.batch ++ (ev ∷ []))))) [
      | inl full ↦ rw full (record {
        open_batch = λ _. h;
        batches = All-snoc n w.flushed _ b.batches (omega (arith, len, open'));
      })
      | inr more ↦
          rw more (record { open_batch = λ _. ground (arith, len, open'); batches = b.batches })
    ]
step-IsBounded n (tick fails) w g h b =
    let open' = b.open_batch g in
    let flushed' = All-snoc n w.flushed w.batch b.batches (omega (arith, open')) in
    elim (Bool-cases (ltb 0 (length w.batch))) [
      | inl some_left ↦ rw some_left (elim (Bool-cases fails) [
        | inl f ↦ rw f (record { open_batch = λ e. cc; batches = flushed' })
        | inr f ↦ rw f (record { open_batch = λ _. h; batches = flushed' })
      ])
      | inr none_left ↦ rw none_left b
    ]
step-IsBounded n closed w g h b = record {
  open_batch = λ e. cc;
  batches = All-snoc n w.flushed w.batch b.batches (omega (arith, b.open_batch g));
}

-- What a worker has done behind a sequence of signals, started with `w`.
pub record Worked (n : ℕ) (signals : List Signal) (w w' : Worker) : Type 0 where
  pub taken : List Signal
  pub left : List Signal
  pub split : signals ≡ taken ++ left
  pub complete : (w'.running ≡ true) → left ≡ []
  pub same_packets : kept w' ≡ held w ++ received taken
  pub bounded : IsBounded n w'

run-cons :
    (n : ℕ) (s : Signal) (signals : List Signal) (w : Worker)
    → run n (s ∷ signals) w
      ≡ (if (step n s w).running then run n signals (step n s w) else step n s w)
unfolding run
run-cons n s signals w = ground arith

pub held-kept : (w : Worker) → w.running ≡ true → held w ≡ kept w
held-kept w g = rw g

run-Worked :
    (n : ℕ) (signals : List Signal) (w : Worker)
    → w.running ≡ true
    → 0 < n
    → IsBounded n w
    → Worked n signals w (run n signals w)
run-Worked n [] w g h b =
    unfold run in
    record {
      taken = [];
      left = [];
      split = refl;
      complete = λ _. refl;
      same_packets = rw g (sym (append-nil (held w)));
      bounded = b;
    }
run-Worked n (s ∷ signals) w g h b = elim (Bool-cases w'.running) [
  | inl g' ↦
      subst (Worked n (s ∷ signals) w)
        (sym (run-cons n s signals w ∙ ap (λ t. if t then run n signals w' else w') g'))
        (going g' (run-Worked n signals w' g' h b'))
  | inr g' ↦
      subst (Worked n (s ∷ signals) w)
        (sym (run-cons n s signals w ∙ ap (λ t. if t then run n signals w' else w') g'))
        (record {
          taken = s ∷ [];
          left = signals;
          split = refl;
          complete = λ e. cc;
          same_packets = step-kept n s w g;
          bounded = b';
        })
]
  where
    w' : Worker
    w' = step n s w

    b' : IsBounded n w'
    b' = step-IsBounded n s w g h b

    going :
        {w'' : Worker} → w'.running ≡ true → Worked n signals w' w'' → Worked n (s ∷ signals) w w''
    going g' later = record {
      taken = s ∷ later.taken;
      left = later.left;
      split = ap (◌∷◌ s) later.split;
      complete = later.complete;
      same_packets =
          later.same_packets
          ∙ (ap (λ p. p ++ received later.taken) (held-kept w' g' ∙ step-kept n s w g)
              ∙ (append_assoc (held w) (received (s ∷ [])) (received later.taken)
                  ∙ ap (◌++◌ (held w)) (received-append s later.taken)));
      bounded = later.bounded;
    }

-- From the start, with a buffer of at least one packet: the worker receives the signals in their
-- order, up to one that ends it, and all while it runs. The packets that it received are those of its
-- flushed batches and, while it runs, of its open batch, in their order, each once. No batch is
-- larger than the buffer, and the open batch is smaller.
pub run_lem : (n : ℕ) (signals : List Signal) → 0 < n → Worked n signals start (run n signals start)
unfolding start
run_lem n signals h =
    run-Worked n signals start refl h (record { open_batch = λ _. h; batches = tt })
