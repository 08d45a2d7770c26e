-- ===== src/Client/Transport.antt =====
-- The transport contract of client/api/iio/IIO.hh (`IIO`), as the generated functions of a client see it.
pub mod Calls
pub mod Posix
pub mod Seastar
use distributed_logger.Base.{
  ℕ, ◌+◌, ◌≤◌, ◌<◌, ◌≡◌, ◌≢◌, ◌⊎◌, Bool, false, Option, some, List, mod64, add64,
}
use distributed_logger.Client.Buffer.{IBufferWrapper}
use distributed_logger.Client.Logger.{Arg, log_event}
use distributed_logger.Client.PosixIo.State.{Run, done, ◌>>=◌, or_fault}
use distributed_logger.Client.PosixIo.Pending.{Ends}

-- What a transport shows of itself: its limit, its queue size and its three counters.
pub record Counters : Type 0 where
  pub limit : ℕ
  pub queue_size : ℕ
  pub posted : ℕ
  pub dropped : ℕ
  pub sent : ℕ

-- What `send` of a buffer of `size` bytes makes of the counters: the log is dropped, because it would
-- pass the limit; or it is posted within the limit; or it is passed over, which only a transport that is
-- not ready may do.
abbrev pub Sends : Bool → ℕ → Counters → Counters → Type 0
Sends ready size c c' =
    (c'.limit ≡ c.limit)
    × (((c.limit ≢ 0)
          × (c.limit < c.queue_size + size)
          × (c'.dropped ≡ add64 c.dropped 1)
          × (c'.posted ≡ c.posted)
          × (c'.queue_size ≡ c.queue_size))
        ⊎ ((((c.limit ≡ 0) ⊎ (c.queue_size + size ≤ c.limit))
              × (c'.posted ≡ add64 c.posted 1)
              × (c'.dropped ≡ c.dropped)
              × (c'.queue_size ≤ c.queue_size + size))
            ⊎ ((ready ≡ false)
                × (c'.dropped ≡ c.dropped)
                × (c'.posted ≡ c.posted)
                × (c'.queue_size ≡ c.queue_size))))

-- The operations, with what the system answers to a `send`, and the law of `send`: in a good state it
-- returns, or ends the process where the state is not `plain`, and leaves a good state. `none` of the
-- shutdown ends the process.
pub record Iio (I : IBufferWrapper) : Type 1 where
  pub State : Type 0
  pub Answer : Type 0
  pub send : Answer → I.Buffer → State → Run (Option I.Buffer × State)
  pub set_queue_max_size : ℕ → State → State
  pub counters : State → Counters
  pub connection_graceful_shutdown : State → Option State
  pub IsGood : State → Type 0
  pub plain : State → Bool
  pub ready : State → Bool
  pub IsAllowed : ℕ → Answer → Type 0
  pub limit_set :
      (n : ℕ) (s : State)
      → IsGood s
      → IsGood (set_queue_max_size n s) × ((counters (set_queue_max_size n s)).limit ≡ n)
  pub send_lem :
      (a : Answer) (b : I.Buffer) (s : State)
      → IsGood s
      → I.IsValid b
      → I.get_read_offset b ≡ 0
      → 4 ≤ I.get_capacity b
      → I.get_capacity b < 2147483648
      → (counters s).queue_size + I.get_capacity b < mod64
      → IsAllowed (I.get_capacity b) a
      → Ends
          (plain s)
          (λ r.
            IsGood r.1
            × (plain r.1 ≡ plain s)
            × (ready r.1 ≡ ready s)
            × Sends (ready s) (I.get_capacity b) (counters s) (counters r.1))
          (send a b s)

-- A function that the generator writes, over any buffer and any transport. What `send` returns is
-- dropped.
module _ (I : IBufferWrapper) (T : Iio I) where
  unfoldable pub post : T.Answer → ℕ → List Arg → T.State → Run T.State
  post a event args s = do
    buffer ← or_fault (log_event I event args)
    (back, s') ← T.send a buffer s
    done s'
