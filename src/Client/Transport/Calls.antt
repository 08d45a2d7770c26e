-- ===== src/Client/Transport/Calls.antt =====
-- Sequences of logs through any transport.
use distributed_logger.Base.{
  ℕ, suc, ◌+◌, ◌%◌, ◌≤◌, ◌<◌, ◌≡◌, refl, sym, ◌∙◌, subst, ◌⊎◌, inl, inr, false, Option, List, [],
  ◌∷◌, arith, length, All, mod64,
}
use distributed_logger.Client.Buffer.{IBufferWrapper}
use distributed_logger.Client.Logger.{Arg}
use distributed_logger.Client.Logger.Wire.{payload, IsCounted}
use distributed_logger.Client.Logger.Frame.{log_event_lem}
use distributed_logger.Client.PosixIo.State.{Run, done, exits, fault, ◌>>=◌, or_fault}
use distributed_logger.Client.PosixIo.Pending.{Ends}
use distributed_logger.Client.Transport.{Counters, Iio, Sends, post}

-- A call of a generated function, with what the system answers to its `send`.
pub record Call (A : Type 0) : Type 0 where
  pub answer : A
  pub event : ℕ
  pub args : List Arg

-- The size of the frame of a call.
abbrev pub size_of_call : {A : Type 0} → Call A → ℕ
size_of_call c = 4 + length (payload c.event c.args)

abbrev pub total_size : {A : Type 0} → List (Call A) → ℕ
total_size [] = 0
total_size (c ∷ calls) = size_of_call c + total_size calls

-- A limit, where one is set, is kept.
abbrev pub IsWithin : Counters → Type 0
IsWithin c = (c.limit ≡ 0) ⊎ (c.queue_size ≤ c.limit)

module _ (I : IBufferWrapper) (T : Iio I) where
  open T use {State, Answer, IsGood, plain, ready, counters, IsAllowed, send_lem}

  unfoldable pub post_all : List (Call Answer) → State → Run State
  post_all [] s = done s
  post_all (c ∷ calls) s = post I T c.answer c.event c.args s >>= post_all calls

  -- The arguments are of the types that the generator counts, the frame is below 2 GB, and the answer is
  -- one that the system may give.
  pub record IsCallable (c : Call Answer) : Type 0 where
    pub counted : All IsCounted c.args
    pub small : size_of_call c < 2147483648
    pub allowed : IsAllowed (size_of_call c) c.answer

  -- At most `n` logs were counted, each once, as posted or as dropped, and all `n` where the transport was
  -- ready; and the limit is kept.
  pub record Accounts (n bytes : ℕ) (s s' : State) : Type 0 where
    pub logs : ℕ
    pub few : logs ≤ n
    pub counted :
        ((counters s').posted + (counters s').dropped) % mod64
        ≡ ((counters s).posted + (counters s).dropped + logs) % mod64
    pub limit : (counters s').limit ≡ (counters s).limit
    pub within : IsWithin (counters s')
    pub size_le : (counters s').queue_size ≤ (counters s).queue_size + bytes
    pub good : IsGood s'
    pub plain_still : plain s' ≡ plain s
    pub ready_still : ready s' ≡ ready s
    pub all_counted : (ready s ≡ false) ⊎ (logs ≡ n)

  sends-Accounts :
      (size : ℕ) (s s' : State)
      → IsWithin (counters s)
      → (IsGood s'
          × (plain s' ≡ plain s)
          × (ready s' ≡ ready s)
          × Sends (ready s) size (counters s) (counters s'))
      → Accounts 1 size s s'
  sends-Accounts size s s' w (g, p, y, (l, inl (n0, over, dropped, posted, same))) = record {
    logs = 1;
    few = omega arith;
    counted = omega (arith, dropped, posted);
    limit = l;
    within = omega (arith, w, l, same);
    size_le = omega (arith, same);
    good = g;
    plain_still = p;
    ready_still = y;
    all_counted = inr refl;
  }
  sends-Accounts size s s' w (g, p, y, (l, inr (inl (fits, posted, dropped, le)))) = record {
    logs = 1;
    few = omega arith;
    counted = omega (arith, dropped, posted);
    limit = l;
    within = omega (arith, fits, l, le);
    size_le = le;
    good = g;
    plain_still = p;
    ready_still = y;
    all_counted = inr refl;
  }
  sends-Accounts size s s' w (g, p, y, (l, inr (inr (down, dropped, posted, same)))) = record {
    logs = 0;
    few = omega arith;
    counted = omega (arith, dropped, posted);
    limit = l;
    within = omega (arith, w, l, same);
    size_le = omega (arith, same);
    good = g;
    plain_still = p;
    ready_still = y;
    all_counted = inl down;
  }

  Accounts-trans :
      (m n a b : ℕ) (s s1 s2 : State)
      → Accounts m a s s1
      → Accounts n b s1 s2
      → Accounts (m + n) (a + b) s s2
  Accounts-trans m n a b s s1 s2 p q = record {
    logs = p.logs + q.logs;
    few = omega (arith, p.few, q.few);
    counted = omega (arith, p.counted, q.counted);
    limit = q.limit ∙ p.limit;
    within = q.within;
    size_le = omega (arith, p.size_le, q.size_le);
    good = q.good;
    plain_still = q.plain_still ∙ p.plain_still;
    ready_still = q.ready_still ∙ p.ready_still;
    all_counted = elim p.all_counted [
      | inl down ↦ inl down
      | inr first ↦ elim q.all_counted [
        | inl down ↦ inl (sym p.ready_still ∙ down)
        | inr others ↦ inr (omega (arith, first, others))
      ]
    ];
  }

  dropped_result :
      (size : ℕ) (s : State) (o : Run (Option I.Buffer × State))
      → IsWithin (counters s)
      → Ends
          (plain s)
          (λ r.
            IsGood r.1
            × (plain r.1 ≡ plain s)
            × (ready r.1 ≡ ready s)
            × Sends (ready s) size (counters s) (counters r.1))
          o
      → Ends (plain s) (Accounts 1 size s) (o >>= λ r. done r.1)
  dropped_result size s (done (back, s')) w h = sends-Accounts size s s' w h
  dropped_result size s (exits n) w h = h
  dropped_result size s fault w h = h

  post-Accounts :
      (c : Call Answer) (s : State)
      → IsCallable c
      → IsGood s
      → IsWithin (counters s)
      → (counters s).queue_size + size_of_call c < mod64
      → Ends (plain s) (Accounts 1 (size_of_call c) s) (post I T c.answer c.event c.args s)
  unfolding post
  post-Accounts c s k g w room =
      let (b, eq, v, cap, off, unread, content) =
        log_event_lem I c.event c.args k.counted (omega (arith, k.small)) in
      let sent =
        send_lem c.answer b s g v unread (omega (arith, cap)) (omega (arith, cap, k.small))
          (omega (arith, cap, room)) (subst (λ n. IsAllowed n c.answer) (sym cap) k.allowed) in
      subst
        (λ o.
          Ends (plain s) (Accounts 1 (size_of_call c) s)
            (or_fault o >>= λ x. T.send c.answer x s >>= λ r. done r.1))
        (sym eq)
        (subst (λ n. Ends (plain s) (Accounts 1 n s) (T.send c.answer b s >>= λ r. done r.1)) cap
          (dropped_result (I.get_capacity b) s (T.send c.answer b s) w sent))

  after :
      (n a b : ℕ) (s s1 : State) (o : Run State)
      → Accounts 1 a s s1
      → Ends (plain s1) (Accounts n b s1) o
      → Ends (plain s) (Accounts (1 + n) (a + b) s) o
  after n a b s s1 (done s2) p q = Accounts-trans 1 n a b s s1 s2 p q
  after n a b s s1 (exits m) p q = sym p.plain_still ∙ q
  after n a b s s1 fault p q = q

  next :
      (n a b : ℕ) (s : State) (o : Run State) (rest : State → Run State)
      → Ends (plain s) (Accounts 1 a s) o
      → ((s1 : State) → Accounts 1 a s s1 → Ends (plain s1) (Accounts n b s1) (rest s1))
      → Ends (plain s) (Accounts (1 + n) (a + b) s) (o >>= rest)
  next n a b s (done s1) rest p q = after n a b s s1 (rest s1) p (q s1 p)
  next n a b s (exits m) rest p q = p
  next n a b s fault rest p q = p

  -- Through any transport, from a good state within its limit: a sequence of calls of the generated
  -- functions whose arguments are of the types that the generator counts, with frames below 2 GB that do
  -- not make the queue size wrap, and with answers that the system may give, returns, or ends the
  -- process where the transport is not plain. Every log is counted once, as posted or as dropped, if
  -- the transport is ready, and at most once if it is not; and a queue limit that is set is kept.
  pub post_all-Accounts :
      (calls : List (Call Answer)) (s : State)
      → All IsCallable calls
      → IsGood s
      → IsWithin (counters s)
      → (counters s).queue_size + total_size calls < mod64
      → Ends (plain s) (Accounts (length calls) (total_size calls) s) (post_all calls s)
  unfolding post_all
  post_all-Accounts [] s k g w room = record {
    logs = 0;
    few = omega arith;
    counted = omega arith;
    limit = refl;
    within = w;
    size_le = omega arith;
    good = g;
    plain_still = refl;
    ready_still = refl;
    all_counted = inr refl;
  }
  post_all-Accounts (c ∷ calls) s k g w room =
      let count : 1 + length calls ≡ suc (length calls) = omega arith in
      subst (λ n. Ends (plain s) (Accounts n (total_size (c ∷ calls)) s) (post_all (c ∷ calls) s))
        count
        (next (length calls) (size_of_call c) (total_size calls) s
          (post I T c.answer c.event c.args s) (post_all calls)
          (post-Accounts c s k.0 g w (omega (arith, room)))
          (λ s1 p. post_all-Accounts calls s1 k.1 p.good p.within (omega (arith, room, p.size_le))))
