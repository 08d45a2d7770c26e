-- ===== src/Tests/Start.antt =====
-- A server that is started with a configuration of an unknown storage.
use distributed_logger.Base.{
  ℕ, ◌≡◌, refl, true, false, none, some, List, [], ◌∷◌, arith, pos, negsuc,
}
use distributed_logger.Server.Ingester.Pool.{init}
use distributed_logger.Server.Launch.{tcp, listens, launch}
use distributed_logger.Server.Main.{Answers, runs, main}
use distributed_logger.Server.Main.Outcomes.{Explains, main-Explains}

abbrev args : List (List ℕ)
args = (b'm' ∷ []) ∷ (b'c' ∷ []) ∷ []

abbrev answers : Answers
answers = record {
  general_opens = true;
  general_reads = true;
  storage_opens = true;
  storage_reads = true;
  general = record {
    storage_config_file_name = b's' ∷ [];
    event_collector_file_name = b'e' ∷ [];
    number_of_workers = negsuc 0;
    workers_buffer_size = pos 0;
  };
  storage = λ file. record {
    storage_type = b'M' ∷ b'o' ∷ b'n' ∷ b'g' ∷ b'o' ∷ [];
    username = [];
    password = [];
    host = [];
    port = [];
    dbname = [];
    data_retention_period = b'7' ∷ [];
  };
  number = λ text. some (pos 7);
  connects = λ text. true;
  opens = λ text. true;
  creates = true;
  migrations = [];
  listener = λ file. record {
    opens = true;
    config = record { port = b'9' ∷ []; ip = b'1' ∷ []; server = []; root = []; key = [] };
    parse_cidr = λ text. none;
    number = λ text. some (pos 9);
    loads = false;
    reads_roots = false;
    takes_roots = false;
    listens_tcp = λ ip port. true;
    listens_tls = λ address. false;
  };
}

-- The name of a storage is compared by its letters' case too, and an address without a mask is none.
starts_without_storage :
    main args 4 answers
    ≡ runs (record {
      storage = none;
      pool = init 4 (negsuc 0) (pos 0);
      launched = listens (tcp none (pos 9));
    })
unfolding main launch distributed_logger.Server.Main.open_storage
    distributed_logger.Server.Main.equals
starts_without_storage = refl

main-Explains_example : Explains args 4 answers (main args 4 answers)
main-Explains_example = main-Explains args 4 answers (omega arith)
