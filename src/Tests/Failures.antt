-- ===== src/Tests/Failures.antt =====
-- The transport of the client where a write fails, and how it connects.
use distributed_logger.Base.{◌++◌, take, drop, ◌≡◌, refl, ◌≢◌, true, some, [], ◌∷◌, arith, length}
use distributed_logger.Client.PosixIo.State.{PosixIo, done, fault}
use distributed_logger.Client.PosixIo.Connection.{make, dial_plain}
use distributed_logger.Client.PosixIo.Drain.{on_write_opportunity}
use distributed_logger.Client.PosixIo.Pending.{unsent_bytes}
use distributed_logger.Client.PosixIo.Failures.{
  failed_write_faults, failed_write_repeats, send_all, send_all-blocked,
}
use distributed_logger.Tests.Data.{
  buffer0, idle, busy, answers, fails, queued0, queued0-IsPending, no_connection,
}

failed_write_faults_example :
    (io' : PosixIo) × (on_write_opportunity (λ _. fails) busy ≡ done io')
    × (length io'.queue ≡ 1)
    × (io'.queue_size ≡ 0)
    × (io'.fd ≡ some 5)
    × (on_write_opportunity (λ _. answers 25) io' ≡ fault)
failed_write_faults_example =
    failed_write_faults (λ _. fails) (λ _. answers 25) queued0 [] busy refl queued0-IsPending refl
      (omega arith) refl

abbrev part_sent : PosixIo
part_sent = record busy { queue = record queued0 { read_offset = 10 } ∷ []; queue_size = 15 }

failed_write_repeats_example :
    let last_byte = take 1 (drop 9 queued0.buffer) in
    (io' io'' : PosixIo) × (on_write_opportunity (λ _. fails) part_sent ≡ done io')
    × (io'.wire ≡ [])
    × (unsent_bytes io'.queue ≡ last_byte ++ unsent_bytes part_sent.queue)
    × (on_write_opportunity (λ _. answers 1) io' ≡ done io'')
    × (io''.wire ≡ [] ++ last_byte)
failed_write_repeats_example =
    failed_write_repeats (λ _. fails) (λ _. answers 1) (record queued0 { read_offset = 10 }) []
      part_sent refl
      (record {
        valid = record {
          block = refl;
          small = omega arith;
          read_in = omega arith;
          write_in = omega arith;
        };
        left = omega arith;
        below_2gb = omega arith;
      })
      (omega arith) (omega arith) refl refl

send_all-blocked_example :
    (io' : PosixIo) × (send_all ((answers 25, buffer0) ∷ (answers 25, buffer0) ∷ []) busy
      ≡ done io')
    × (io'.queue ≢ [])
    × (io'.wire ≡ [])
    × (io'.log_sent_cnt ≡ 0)
send_all-blocked_example =
    send_all-blocked ((answers 25, buffer0) ∷ (answers 25, buffer0) ∷ []) busy (λ e. cc)
      (omega arith)

-- Port 9000 is asked for, and port 7777 is dialled.
dials_7777 :
    make (104 ∷ []) 9000 [] [] [] (record no_connection { connect = true })
    ≡ done (record idle { queue_max_size = 0 })
unfolding make dial_plain
dials_7777 = refl
