-- ===== src/Server/Main/Outcomes.antt =====
-- What the start of the server comes to.
use distributed_logger.Base.{
  ℕ, ◌≤◌, ◌<◌, ◌≡◌, ◌≢◌, refl, ap₂, subst, ◌⊎◌, inl, inr, Bool, true, false, ◌&&◌, Option, none,
  some, List, [], ◌∷◌, ◌++◌, arith, ◌==◌, ==_iff, Bool-cases, Option-cases, length,
  length-replicate, ℤ, pos, negsuc, is_positive, size_of, if◌then◌else◌,
}
use distributed_logger.Server.Ingester.{start}
use distributed_logger.Server.Launch.{launch}
use distributed_logger.Server.Launch.Told.{Tells, launch-Tells}
use distributed_logger.Server.Ingester.Pool.{init}
use distributed_logger.Server.Main.{
  Storage, mongo, clickhouse, equals, mongo_name, clickhouse_name, StorageConfig, Answers, uri,
  mongo_init, migrate, clickhouse_init, open_storage, Outcome, returns, panics, runs, Started,
  after_open, main,
}

equals_refl : (xs : List ℕ) → equals xs xs ≡ true
unfolding equals
equals_refl [] = refl
equals_refl (x ∷ xs) = ground (arith, equals_refl xs, (==_iff x x).1 refl)

equals_sound : (xs ys : List ℕ) → equals xs ys ≡ true → xs ≡ ys
unfolding equals
equals_sound [] [] e = refl
equals_sound [] (y ∷ ys) e = cc
equals_sound (x ∷ xs) [] e = cc
equals_sound (x ∷ xs) (y ∷ ys) e =
    let head : (x == y) ≡ true = ground (arith, e) in
    let tail : equals xs ys ≡ true = ground (arith, e) in
    ap₂ (λ z zs. z ∷ zs) ((==_iff x y).0 head) (equals_sound xs ys tail)

equals_complete : (xs ys : List ℕ) → equals xs ys ≡ false → xs ≢ ys
equals_complete xs ys e p = let same = subst (λ zs. equals xs zs ≡ true) p (equals_refl xs) in cc

-- The configuration of the storage, and whether the files give one.
abbrev pub config : Answers → StorageConfig
config a = a.storage a.general.storage_config_file_name

abbrev pub reads : Answers → Bool
reads a = a.general_opens && (a.general_reads && (a.storage_opens && a.storage_reads))

-- The database is reached and prepared.
abbrev pub prepares : Answers → Bool
prepares a =
    a.opens ((config a).host ++ (b':' ∷ []) ++ (config a).port)
    && (a.creates && migrate a.migrations)

-- The storage that the server has, and what the libraries answered to its opening.
abbrev pub Prepared : Answers → Option Storage → Type 0
Prepared a none =
    ((config a).storage_type ≢ mongo_name) × ((config a).storage_type ≢ clickhouse_name)
Prepared a (some (mongo target dbname)) =
    ((config a).storage_type ≡ mongo_name)
    × (target ≡ uri (config a))
    × (dbname ≡ (config a).dbname)
    × (a.connects target ≡ true)
Prepared a (some (clickhouse address)) =
    ((config a).storage_type ≡ clickhouse_name)
    × (address ≡ (config a).host ++ (b':' ∷ []) ++ (config a).port)
    × (prepares a ≡ true)

-- What each outcome tells of the configuration and of the libraries' answers.
abbrev pub Explains : List (List ℕ) → ℕ → Answers → Outcome → Type 0
Explains args num_cpu a returns =
    (reads a ≡ false)
    ⊎ ((a.number (config a).data_retention_period ≡ none)
        ⊎ (((config a).storage_type ≡ clickhouse_name) × (prepares a ≡ false)))
Explains args num_cpu a panics =
    (length args < 2)
    ⊎ ((reads a ≡ true)
        × ((config a).storage_type ≡ mongo_name)
        × (a.connects (uri (config a)) ≡ false))
Explains args num_cpu a (runs s) =
    (2 ≤ length args)
    × (reads a ≡ true)
    × (a.number (config a).data_retention_period ≢ none)
    × Prepared a s.storage
    × (0 < length s.pool.workers)
    × (0 < s.pool.buffer_size)
    × Tells (a.listener a.general.event_collector_file_name) s.launched

or_default : (z : ℤ) (n : ℕ) → 0 < n → 0 < (if is_positive z then size_of z else n)
or_default (pos k) n h = ground (arith, h)
or_default (negsuc k) n h = h

module _ (args : List (List ℕ)) (num_cpu : ℕ) (a : Answers) (h : 0 < num_cpu)
    (named : 2 ≤ length args) (read : reads a ≡ true)
    (days : a.number (config a).data_retention_period ≢ none) where
  -- The variables behind `Init` of the ingester.
  abbrev started : Option Storage → Started
  started s = record {
    storage = s;
    pool = init num_cpu a.general.number_of_workers a.general.workers_buffer_size;
    launched = launch (a.listener a.general.event_collector_file_name);
  }

  starts : (s : Option Storage) → Prepared a s → Explains args num_cpu a (runs (started s))
  unfolding init
  starts s e = (
    named,
    read,
    days,
    e,
    omega (
      arith,
      or_default a.general.number_of_workers num_cpu h,
      length-replicate
          (if is_positive a.general.number_of_workers
            then size_of a.general.number_of_workers
            else num_cpu)
          start,
    ),
    or_default a.general.workers_buffer_size 1024 (omega arith),
    launch-Tells (a.listener a.general.event_collector_file_name),
  )

  open_storage-Explains : Explains args num_cpu a (after_open num_cpu a (open_storage a (config a)))
  unfolding open_storage mongo_init clickhouse_init
  open_storage-Explains = elim (Bool-cases (equals (config a).storage_type mongo_name)) [
    | inl is_mongo ↦
        (let same = equals_sound (config a).storage_type mongo_name is_mongo in
          elim (Bool-cases (a.connects (uri (config a)))) [
            | inl connected ↦
                rw (is_mongo, connected)
                  (starts (some (mongo (uri (config a)) (config a).dbname))
                    (same, refl, refl, connected))
            | inr refused ↦ rw (is_mongo, refused) (inr (read, same, refused))
          ])
    | inr not_mongo ↦ elim (Bool-cases (equals (config a).storage_type clickhouse_name)) [
      | inl is_clickhouse ↦
          (let same = equals_sound (config a).storage_type clickhouse_name is_clickhouse in
            elim (Bool-cases (prepares a)) [
              | inl prepared ↦
                  rw (not_mongo, is_clickhouse, prepared)
                    (starts (some (clickhouse ((config a).host ++ (b':' ∷ []) ++ (config a).port)))
                      (same, refl, prepared))
              | inr failed ↦ rw (not_mongo, is_clickhouse, failed) (inr (inr (same, failed)))
            ])
      | inr not_clickhouse ↦
          rw (not_mongo, not_clickhouse)
            (starts none (
              equals_complete (config a).storage_type mongo_name not_mongo,
              equals_complete (config a).storage_type clickhouse_name not_clickhouse,
            ))
    ]
  ]

-- On a machine with at least one processor, `main` returns before the workers are started only where a
-- file is not read, the retention period is no number, or the ClickHouse storage is not opened, prepared
-- and migrated; and it panics there only without an argument or where the MongoDB driver refuses the URI.
-- It starts only with an argument, with both files read and with a retention period that is a number;
-- then with at least one worker, with room for at least one packet, whatever numbers are configured,
-- and with the configured storage opened, prepared and migrated, or with none if the configured type is
-- neither mongo nor clickhouse. The listener listens only where its file is opened: where a certificate
-- and a key are named, with these and the roots loaded, for clients with certificates, at the
-- configured address; else with a port that is a number, at the address that net.ParseCIDR reads or at
-- all of them. Its launch ends only where its file is not opened, the port is no number, a socket or a
-- certificate is refused or the roots are not read; and it panics only where tls.Listen fails.
pub main-Explains :
    (args : List (List ℕ)) (num_cpu : ℕ) (a : Answers)
    → 0 < num_cpu
    → Explains args num_cpu a (main args num_cpu a)
unfolding main
main-Explains [] num_cpu a h = inl (omega arith)
main-Explains (program ∷ []) num_cpu a h = inl (omega arith)
main-Explains (program ∷ file ∷ rest) num_cpu a h = elim (Bool-cases (reads a)) [
  | inl read ↦ elim (Option-cases (a.number (config a).data_retention_period)) [
    | inl missing ↦ rw (read, missing) (inr (inl missing))
    | inr (days, e) ↦
        rw (read, e)
          (open_storage-Explains (program ∷ file ∷ rest) num_cpu a h (omega arith) read (λ m. cc))
  ]
  | inr unread ↦ rw unread (inl unread)
]
