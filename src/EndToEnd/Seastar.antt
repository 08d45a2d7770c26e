-- ===== src/EndToEnd/Seastar.antt =====
-- From the generated functions over SeastarBuffer and SeastarIO to the server.
use distributed_logger.Base.{
  ℕ, zero, suc, ◌+◌, ◌%◌, ◌≡◌, refl, sym, ap, ap₂, ◌∙◌, subst, Bool, true, false, some, List, [],
  ◌∷◌, ◌++◌, map, arith, length, take, drop, All, length-append, length-take, mod32, mod64, sub64,
  be_bytes, length-be_bytes,
}
use distributed_logger.Client.SeastarBuffer.{SeastarBuffer, get_buffer, get_data, get_capacity}
use distributed_logger.Client.SeastarBuffer.Contract.{seastar_buffer}
use distributed_logger.Client.Logger.{log_event}
use distributed_logger.Client.Logger.Frame.{log_event_lem}
use distributed_logger.Client.SeastarIo.{SeastarIo, with_length}
use distributed_logger.Client.SeastarIo.Trace.{Reach, IsTraced, blocks, refused, flying, count_ok}
use distributed_logger.Client.SeastarIo.Histories.{Reach-IsTraced}
use distributed_logger.Server.Decoder.{ok}
use distributed_logger.Server.EventDecoder.{ParamType}
use distributed_logger.Server.Listener
use distributed_logger.Server.Listener.{Read}
use distributed_logger.Server.Listener.Refine.{AllFit, bytes_of}
use distributed_logger.Server.Listener.Frames.{frame_of, frames_of, run-frames}
use distributed_logger.Server.Storage.{decode_batch}
use distributed_logger.Server.Storage.Batch.{
  Log, payload_of, event_of, IsKnown, decode_batch-payloads,
}
use distributed_logger.EndToEnd.{IsFramed, payloads-IsLong}

-- The bytes of blocks, one behind the other.
abbrev pub bytes_in : List (List ℕ) → List ℕ
bytes_in [] = []
bytes_in (b ∷ bs) = b ++ bytes_in bs

take-All : {A : Type 0} (P : A → Type 0) (n : ℕ) (xs : List A) → All P xs → All P (take n xs)
take-All P zero xs h = tt
take-All P (suc n) [] h = tt
take-All P (suc n) (x ∷ xs) h = (h.0, take-All P n xs h.1)

length-blocks : (outcomes : List (Bool × List ℕ)) → length (blocks outcomes) ≡ length outcomes
length-blocks [] = refl
length-blocks (o ∷ outcomes) = ap suc (length-blocks outcomes)

all_ok :
    (outcomes : List (Bool × List ℕ)) → refused outcomes ≡ [] → count_ok outcomes ≡ length outcomes
all_ok [] h = refl
all_ok ((true, b) ∷ outcomes) h = omega (arith, all_ok outcomes h)
all_ok ((false, b) ∷ outcomes) h = cc

module _ (temporary_buffer : ℕ → List ℕ) (allocated : (n : ℕ) → length (temporary_buffer n) ≡ n)
    (moved_from : List ℕ) where
  -- The blocks are those that `send` takes of the buffers that the generated functions build.
  abbrev pub AllBuilt : List Log → List (List ℕ) → Type 0
  AllBuilt [] [] = Unit {0}
  AllBuilt [] (b ∷ bs) = ⊥
  AllBuilt (l ∷ logs) [] = ⊥
  AllBuilt (l ∷ logs) (b ∷ bs) =
      ((s : SeastarBuffer) × (log_event (seastar_buffer temporary_buffer allocated) l.event l.args
          ≡ some s)
        × (b ≡ with_length (get_buffer moved_from s).0))
      × AllBuilt logs bs

  block-built :
      (l : Log) (s : SeastarBuffer)
      → IsFramed l
      → log_event (seastar_buffer temporary_buffer allocated) l.event l.args ≡ some s
      → with_length (get_buffer moved_from s).0 ≡ frame_of (payload_of l)
  unfolding get_buffer get_capacity get_data
  block-built l s f e =
      let (b0, eq, v, cap, off, unread, data_eq) =
        log_event_lem (seastar_buffer temporary_buffer allocated) l.event l.args f.counted
          f.small in
      let same : b0 ≡ s = cc (e, eq) in
      let buf = (get_buffer moved_from s).0 in
      let len : length buf ≡ 4 + length (payload_of l) =
        sym (ap (λ (x : SeastarBuffer). length x.buffer) same) ∙ cap in
      let n = sub64 (length buf) 4 % mod32 in
      let four : 0 + length (be_bytes 4 n) ≡ 4 = omega (arith, length-be_bytes 4 n) in
      let size : n ≡ length (payload_of l) = omega (arith, len, f.small) in
      let body : drop 4 buf ≡ payload_of l =
        sym (ap (λ (x : SeastarBuffer). drop 4 x.buffer) same) ∙ data_eq in
      ap₂ (λ k bytes. be_bytes 4 k ++ bytes) size (ap (λ k. drop k buf) four ∙ body)

  -- The logs of the first blocks.
  built-take :
      (logs : List Log) (xs ys : List (List ℕ))
      → All IsFramed logs
      → AllBuilt logs (xs ++ ys)
      → bytes_in xs ≡ frames_of (map payload_of (take (length xs) logs))
  built-take logs [] ys f h = refl
  built-take [] (x ∷ xs) ys f h = absurd h
  built-take (l ∷ logs) (x ∷ xs) ys f ((s, e, b), h) =
      ap₂ ◌++◌ (b ∙ block-built l s f.0 e) (built-take logs xs ys f.1 h)

  length-built : (logs : List Log) (bs : List (List ℕ)) → AllBuilt logs bs → length logs ≡ length bs
  length-built [] [] h = refl
  length-built [] (b ∷ bs) h = absurd h
  length-built (l ∷ logs) [] h = absurd h
  length-built (l ∷ logs) (b ∷ bs) h = ap suc (length-built logs bs h.1)

  -- After any history of a Seastar transport in which no write failed so far and which took the buffers
  -- of some logs, let the arguments of the logs be of the types that the generator counts, their
  -- payloads longer than 12 bytes, their frames below 2 GB, and the logs known to the server's
  -- description; and let one connection carry the blocks whose writes have completed. However the
  -- network cuts these bytes into reads without an error, the server hands the payloads of the first
  -- logs to the ingester, of as many as there are completed writes, in their order, with the connection
  -- still open, it decodes from a batch of them exactly those logs, and `_logSentCnt` counts them.
  pub seastar_delivered :
      {sent : List (List ℕ)} {io : SeastarIo} (schemas : List (List ParamType)) (logs : List Log)
      (rs : List Read)
      → Reach sent io
      → refused io.outcomes ≡ []
      → AllBuilt logs sent
      → All IsFramed logs
      → All (IsKnown schemas) logs
      → AllFit rs Listener.initial
      → bytes_of rs ≡ bytes_in (blocks io.outcomes)
      → let server = Listener.run rs Listener.initial in
        let written = take (length io.outcomes) logs in
        (server.enqueued ≡ map payload_of written)
        × (server.goes_on ≡ true)
        × (decode_batch schemas server.enqueued ≡ ok (map event_of written))
        × (io.log_sent_cnt ≡ length written % mod64)
  seastar_delivered {sent} {io} schemas logs rs past none_failed built f known fit e =
      let (got, on, at) =
        run-frames (map payload_of written) rs
          (payloads-IsLong written (take-All IsFramed n logs f)) fit (e ∙ same) in
      (
        got,
        on,
        ap (decode_batch schemas) got
            ∙ decode_batch-payloads schemas written (take-All (IsKnown schemas) n logs known),
        t.written ∙ ap (λ k. k % mod64) (all_ok io.outcomes none_failed ∙ sym count),
      )
    where
      n : ℕ
      n = length io.outcomes

      written : List Log
      written = take n logs

      t : IsTraced sent io
      t = Reach-IsTraced past

      rest : List (List ℕ)
      rest = flying io.in_flight ++ io.wqueue

      len : length (blocks io.outcomes) ≡ n
      len = length-blocks io.outcomes

      same : bytes_in (blocks io.outcomes) ≡ frames_of (map payload_of written)
      same =
          built-take logs (blocks io.outcomes) rest f (subst (AllBuilt logs) t.order built)
          ∙ ap (λ k. frames_of (map payload_of (take k logs))) len

      count : length written ≡ n
      count = omega (
        arith,
        length-take n logs,
        length-built logs sent built,
        ap length t.order,
        length-append (blocks io.outcomes) rest,
        len,
      )
