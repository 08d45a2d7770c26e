-- ===== src/Server/System/Served.antt =====
-- Where the packets of all connections are.
use distributed_logger.Base.{
  ℕ, ◌+◌, ◌≡◌, refl, sym, ap, ◌∙◌, subst, inl, inr, true, false, List, [], ◌∷◌, ◌++◌, append-nil,
  append_assoc, arith, Bool-cases, All, All-replace, weigh, weigh-append, ℤ,
}
use distributed_logger.Server.Listener
use distributed_logger.Server.Listener.{Read, Conn, Round, initial}
use distributed_logger.Server.Listener.Refine.{run-cons_open, run-cons_closed}
use distributed_logger.Server.Ingester.Pool
use distributed_logger.Server.Ingester.Pool.{Pool, init, enqueue, with_worker}
use distributed_logger.Server.Ingester.Pool.Conserved.{kept_by, Reach-IsConserved}
use distributed_logger.Server.System.{
  Link, accept, hear, hand_on, Reach, starts, accepts, hears, hands, receives, ticks,
}

run-single : (r : Read) (c : Conn) → Listener.run (r ∷ []) c ≡ Listener.step r c
unfolding Listener.run
run-single r c = last (Listener.step r c)
  where
    last :
        (s : Round)
        → (elim s.goes_on [
          | true ↦ record { conn = s.conn; enqueued = s.enqueued ++ []; goes_on = true }
          | false ↦ s
        ])
          ≡ s
    last s = ground (arith, append-nil s.enqueued)

-- The loop over one more answer.
run-snoc :
    (rs : List Read) (r : Read) (c : Conn)
    → (Listener.run rs c).goes_on ≡ true
    → Listener.run (rs ++ (r ∷ [])) c ≡ (
        let t = Listener.run rs c in
        let s = Listener.step r t.conn in record s { enqueued = t.enqueued ++ s.enqueued })
unfolding Listener.run
run-snoc [] r c g = run-single r c
run-snoc (q ∷ rs) r c g = elim (Bool-cases (Listener.step q c).goes_on) [
  | inl on ↦
      let c' = (Listener.step q c).conn in
      let rest = ap (λ (t : Round). t.goes_on) (run-cons_open q rs c on) in
      let ih = run-snoc rs r c' (sym rest ∙ g) in
      rw (run-cons_open q (rs ++ (r ∷ [])) c on, run-cons_open q rs c on, ih)
        (ap (λ e. record (Listener.step r (Listener.run rs c').conn) { enqueued = e })
          (sym (
            append_assoc (Listener.step q c).enqueued (Listener.run rs c').enqueued
              (Listener.step r (Listener.run rs c').conn).enqueued)))
  | inr off ↦ let shut = ap (λ (t : Round). t.goes_on) (run-cons_closed q rs c off) in cc
]

-- A connection is where its loop is over the answers so far, the packet being handed on included.
abbrev pub IsRound : Link → Type 0
IsRound l =
    Listener.run l.heard initial
    ≡ record { conn = l.conn; enqueued = l.handed ++ l.waiting; goes_on = l.goes_on }

abbrev pub handed_by : (List ℕ → ℕ) → List Link → ℕ
handed_by q [] = 0
handed_by q (l ∷ links) = weigh q l.handed + handed_by q links

-- The pool's own history, of the packets that the connections have handed on.
pub record IsServed (num_cpu : ℕ) (workers buffer_size : ℤ) (links : List Link) (p : Pool)
    : Type 0 where
  pub rounds : All IsRound links
  pub taken : List (List ℕ)
  pub past : Pool.Reach (init num_cpu workers buffer_size) taken p
  pub same : (q : List ℕ → ℕ) → weigh q taken ≡ handed_by q links

module _ (q : List ℕ → ℕ) where
  handed_by-replace :
      (before behind : List Link) (l l' : Link) (n : ℕ)
      → weigh q l'.handed ≡ weigh q l.handed + n
      → handed_by q (before ++ (l' ∷ behind)) ≡ handed_by q (before ++ (l ∷ behind)) + n
  handed_by-replace [] behind l l' n h = omega (arith, h)
  handed_by-replace (k ∷ before) behind l l' n h =
      omega (arith, handed_by-replace before behind l l' n h)

hear-IsRound :
    (l : Link) (r : Read) → l.goes_on ≡ true → l.waiting ≡ [] → IsRound l → IsRound (hear r l)
unfolding hear
hear-IsRound l r on none_left h =
    let s = Listener.step r l.conn in
    run-snoc l.heard r initial (ap (λ (t : Round). t.goes_on) h ∙ on)
    ∙ (ap after h
        ∙ ap (λ (out : List (List ℕ)). record s { enqueued = out ++ s.enqueued })
            (ap (λ ms. l.handed ++ ms) none_left ∙ append-nil l.handed))
  where
    after : Round → Round
    after t = record (Listener.step r t.conn) {
      enqueued = t.enqueued ++ (Listener.step r t.conn).enqueued;
    }

hand_on-IsRound :
    (l : Link) (msg : List ℕ) (rest : List (List ℕ))
    → l.waiting ≡ msg ∷ rest
    → IsRound l
    → IsRound (hand_on msg rest l)
unfolding hand_on
hand_on-IsRound l msg rest e h =
    h
    ∙ ap (λ out. record { conn = l.conn; enqueued = out; goes_on = l.goes_on })
        (ap (λ ms. l.handed ++ ms) e ∙ sym (append_assoc l.handed (msg ∷ []) rest))

-- What holds of one connection is kept where it is replaced.
rounds-replace :
    (before behind : List Link) (l l' : Link) (links : List Link)
    → links ≡ before ++ (l ∷ behind)
    → (IsRound l → IsRound l')
    → All IsRound links
    → All IsRound (before ++ (l' ∷ behind))
rounds-replace before behind l l' links e f a =
    All-replace IsRound before behind l l' f (subst (All IsRound) e a)

pub Reach-IsServed :
    {c : ℕ} {w b : ℤ} {links : List Link} {p : Pool} → Reach c w b links p → IsServed c w b links p
unfolding accept hear hand_on
Reach-IsServed starts = record { rounds = tt; taken = []; past = Pool.here; same = λ q. refl }
Reach-IsServed (accepts past) =
    let s = Reach-IsServed past in
    record {
      rounds = (unfold Listener.run in refl, s.rounds);
      taken = s.taken;
      past = s.past;
      same = λ q. omega (arith, s.same q);
    }
Reach-IsServed (hears {links} before behind l r e on none_left past) =
    let s = Reach-IsServed past in
    record {
      rounds =
          rounds-replace before behind l (hear r l) links e (hear-IsRound l r on none_left)
            s.rounds;
      taken = s.taken;
      past = s.past;
      same = λ q. omega (
        arith,
        s.same q,
        ap (handed_by q) e,
        handed_by-replace q before behind l (hear r l) 0 (omega arith),
      );
    }
Reach-IsServed (hands {links} before behind l msg rest e next room past) =
    let s = Reach-IsServed past in
    record {
      rounds =
          rounds-replace before behind l (hand_on msg rest l) links e
            (hand_on-IsRound l msg rest next) s.rounds;
      taken = s.taken ++ (msg ∷ []);
      past = Pool.enqueues msg room s.past;
      same = λ q. omega (
        arith,
        s.same q,
        ap (handed_by q) e,
        weigh-append q s.taken (msg ∷ []),
        handed_by-replace q before behind l (hand_on msg rest l) (weigh q (msg ∷ []))
            (weigh-append q l.handed (msg ∷ [])),
      );
    }
Reach-IsServed (receives before behind v msg rest fails e on from past) =
    let s = Reach-IsServed past in
    record {
      rounds = s.rounds;
      taken = s.taken;
      past = Pool.receives before behind v msg rest fails e on from s.past;
      same = s.same;
    }
Reach-IsServed (ticks before behind v fails e on past) =
    let s = Reach-IsServed past in
    record {
      rounds = s.rounds;
      taken = s.taken;
      past = Pool.ticks before behind v fails e on s.past;
      same = s.same;
    }

-- The packets that the connections have found in the answers so far, and those that they still keep.
abbrev pub found_by : (List ℕ → ℕ) → List Link → ℕ
found_by q [] = 0
found_by q (l ∷ links) = weigh q (Listener.run l.heard initial).enqueued + found_by q links

abbrev pub waiting_by : (List ℕ → ℕ) → List Link → ℕ
waiting_by q [] = 0
waiting_by q (l ∷ links) = weigh q l.waiting + waiting_by q links

found-handed :
    (q : List ℕ → ℕ) (links : List Link)
    → All IsRound links
    → found_by q links ≡ handed_by q links + waiting_by q links
found-handed q [] a = refl
found-handed q (l ∷ links) a = omega (
  arith,
  ap (λ (t : Round). weigh q t.enqueued) a.0,
  weigh-append q l.handed l.waiting,
  found-handed q links a.1,
)

-- However the connections and the workers of a server take turns: every packet that the loop of
-- `handleConnection` finds in the answers of a connection so far is being handed on by it, or in the
-- channel, or in an open batch of a running worker, or in a batch that was flushed, over all connections
-- each as often as it was found, and nothing else is.
pub Reach-Conserves :
    {c : ℕ} {w b : ℤ} {links : List Link} {p : Pool} (q : List ℕ → ℕ)
    → Reach c w b links p
    → found_by q links ≡ waiting_by q links + (weigh q p.channel + kept_by q p.workers)
Reach-Conserves {c} {w} {b} {links} {p} q past =
    let s = Reach-IsServed past in
    let k = Reach-IsConserved c w b s.past in
    omega (arith, found-handed q links s.rounds, s.same q, k.same q)
