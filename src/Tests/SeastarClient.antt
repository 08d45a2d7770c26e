-- ===== src/Tests/SeastarClient.antt =====
-- The Seastar client over one round, its transport connected in the second sleep.
use distributed_logger.Base.{
  ℕ, ◌*◌, ◌≡◌, refl, sym, ap, ◌∙◌, Bool, true, false, none, some, Option, inl, inr, List, [], ◌∷◌,
  arith, ltb, if◌then◌else◌, replicate, length-replicate, be_bytes,
}
use distributed_logger.Client.Logger
use distributed_logger.Client.SeastarBuffer
use distributed_logger.Client.SeastarIo
use distributed_logger.Client.SeastarIo.{SeastarIo}
use distributed_logger.Examples.Params
use distributed_logger.Examples.Params.{LoopParams}
use distributed_logger.Examples.Seastar
use distributed_logger.Examples.Seastar.{Machine, result_of, finish, run_loop}
use distributed_logger.Examples.Seastar.Tasks.{Tasks}
use distributed_logger.Examples.Seastar.Accounts.{Turns, IsLeft, Counts, run_loop-Counts}

-- The timer fires if it is armed, a connection completes if one is tried, and a write if one is made.
abbrev fire_if : Bool → SeastarIo → SeastarIo
fire_if armed x = if armed then SeastarIo.timer_fires x else x

abbrev connect_if : Bool → SeastarIo → SeastarIo
connect_if tried x = if tried then SeastarIo.connect_completes true x else x

abbrev deliver_block : Option (List ℕ) → SeastarIo → SeastarIo
deliver_block none x = x
deliver_block (some b) x = SeastarIo.write_completes true b x

abbrev deliver : SeastarIo → SeastarIo
deliver x = deliver_block x.in_flight x

fire_if-Tasks : (b : Bool) (x : SeastarIo) → x.timer_armed ≡ b → Tasks x (fire_if b x)
fire_if-Tasks true x e = Tasks.fires e Tasks.here
fire_if-Tasks false x e = Tasks.here

connect_if-Tasks : (b : Bool) (x : SeastarIo) → ltb 0 x.connecting ≡ b → Tasks x (connect_if b x)
connect_if-Tasks true x e = Tasks.completes true (ground (arith, e)) Tasks.here
connect_if-Tasks false x e = Tasks.here

deliver_block-Tasks :
    (o : Option (List ℕ)) {io : SeastarIo} (x : SeastarIo)
    → x.in_flight ≡ o
    → Tasks io x
    → Tasks io (deliver_block o x)
deliver_block-Tasks none x e t = t
deliver_block-Tasks (some b) x e t = Tasks.writes true b e t

deliver_both-Tasks : (x : SeastarIo) → Tasks x (deliver (deliver x))
deliver_both-Tasks x =
    deliver_block-Tasks (deliver x).in_flight (deliver x) refl
      (deliver_block-Tasks x.in_flight x refl Tasks.here)

abbrev params : LoopParams
unfolding Params.make
params = record Params.make { time_to_run_sec = 2 }

abbrev machine : Machine
machine = record {
  sleeps = (λ x. fire_if x.timer_armed x) ∷ (λ x. connect_if (ltb 0 x.connecting) x) ∷ [];
  start = 0;
  rounds =
      record { time = 1; now = 1; others = λ x. deliver (deliver x) }
      ∷ record { time = 9; now = 9; others = λ x. x }
      ∷ [];
  until_finished = λ x. x;
  closing = λ x. x;
}

abbrev connected : SeastarIo
connected = record SeastarIo.make { connected = true }

abbrev zeros : ℕ → List ℕ
zeros n = replicate n 0

abbrev transmitting_of : Option (Bool × SeastarIo) → Bool
transmitting_of none = true
transmitting_of (some r) = r.1.transmitting

idle_behind :
    transmitting_of
      (Seastar.loop zeros (λ n. length-replicate n 0) [] params 1 0 machine.rounds connected)
    ≡ false
unfolding Seastar.loop Seastar.log_both Seastar.post_event Logger.log_event Logger.total_length
    Logger.encode_all Logger.encode_uint64 Logger.encode_string SeastarBuffer.make
    SeastarBuffer.write_data SeastarBuffer.set_write_offset SeastarBuffer.get_buffer SeastarIo.send
    SeastarIo.transmit SeastarIo.write_completes SeastarIo.make Params.make be_bytes
idle_behind = refl

run_loop-Counts_example :
    (k : ℕ) × (last : SeastarIo) × (run_loop zeros (λ n. length-replicate n 0) [] params 1 machine
      ≡ some (some (result_of 1 (finish machine last))))
    × Turns zeros (λ n. length-replicate n 0) [] params 1 0 machine.rounds connected k last
    × IsLeft last (finish machine last)
    × Counts (2 * k) 1 (finish machine last)
unfolding Params.make Seastar.wait_connected Seastar.io_of Seastar.open_transport SeastarIo.make
    SeastarIo.reconnect SeastarIo.timer_fires SeastarIo.connect_completes
    SeastarIo.initialize_connected_socket SeastarIo.set_queue_max_size
run_loop-Counts_example =
    run_loop-Counts zeros (λ n. length-replicate n 0) [] params 1 machine refl
      (record {
        connected = connected;
        waited = refl;
        sleeping = (
          (λ x. fire_if-Tasks x.timer_armed x refl),
          ((λ x. connect_if-Tasks (ltb 0 x.connecting) x refl), tt),
        );
        timed = inr (inl refl);
        yielding = (deliver_both-Tasks, ((λ x. Tasks.here), tt));
        few = omega arith;
        finishing = λ io e up. (Tasks.here, sym (ap transmitting_of e) ∙ idle_behind);
        closing = λ x. Tasks.here;
      })
