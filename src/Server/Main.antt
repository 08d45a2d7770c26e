-- ===== src/Server/Main.antt =====
-- server/main/main.go, and the Init functions of tools/codegen/templates/ that it calls.
pub mod Outcomes
use distributed_logger.Base.{
  ℕ, Bool, true, false, ◌&&◌, not, Option, none, some, List, [], ◌∷◌, ◌++◌, ◌==◌, if◌then◌else◌, ℤ,
}
use distributed_logger.Client.PosixIo.State.{is_empty}
use distributed_logger.Server.Ingester.Pool.{Pool, init}
use distributed_logger.Server.Launch.{Replies, Launched, launch}

-- The test of two strings.
unfoldable pub equals : List ℕ → List ℕ → Bool
equals [] [] = true
equals [] (y ∷ ys) = false
equals (x ∷ xs) [] = false
equals (x ∷ xs) (y ∷ ys) = let rest = equals xs ys in (x == y) && rest

abbrev pub mongo_name : List ℕ
mongo_name = b'm' ∷ b'o' ∷ b'n' ∷ b'g' ∷ b'o' ∷ []

abbrev pub clickhouse_name : List ℕ
clickhouse_name = b'c' ∷ b'l' ∷ b'i' ∷ b'c' ∷ b'k' ∷ b'h' ∷ b'o' ∷ b'u' ∷ b's' ∷ b'e' ∷ []

pub record StorageConfig : Type 0 where
  pub storage_type : List ℕ
  pub username : List ℕ
  pub password : List ℕ
  pub host : List ℕ
  pub port : List ℕ
  pub dbname : List ℕ
  pub data_retention_period : List ℕ

pub record GeneralConfig : Type 0 where
  pub storage_config_file_name : List ℕ
  pub event_collector_file_name : List ℕ
  pub number_of_workers : ℤ
  pub workers_buffer_size : ℤ

-- What the libraries answer: whether the two files are opened and read, what json.Unmarshal leaves of
-- them, the number that strconv.Atoi reads, whether the MongoDB driver takes an URI, and whether the
-- ClickHouse driver opens a connection, creates the table and runs each of the migrations; and, for the
-- name of its file, those that the listener meets.
pub record Answers : Type 0 where
  pub general_opens : Bool
  pub general_reads : Bool
  pub storage_opens : Bool
  pub storage_reads : Bool
  pub general : GeneralConfig
  pub storage : List ℕ → StorageConfig
  pub number : List ℕ → Option ℤ
  pub connects : List ℕ → Bool
  pub opens : List ℕ → Bool
  pub creates : Bool
  pub migrations : List Bool
  pub listener : List ℕ → Replies

-- A storage, by what it was opened with: the URI and the database, or the address.
pub data Storage : Type 0 where
  mongo : List ℕ → List ℕ → Storage
  clickhouse : List ℕ → Storage

-- What `Init` of a storage gives: an error, a panic, or the variable of the storage; `none` is nil.
pub data Opened : Type 0 where
  fails panicked : Opened
  opened : Option Storage → Opened

-- `uri` of the MongoDB storage.
unfoldable pub uri : StorageConfig → List ℕ
uri c =
    let place = c.host ++ (b':' ∷ []) ++ c.port ++ (b'/' ∷ []) ++ c.dbname in
    let scheme = b'm' ∷ b'o' ∷ b'n' ∷ b'g' ∷ b'o' ∷ b'd' ∷ b'b' ∷ b':' ∷ b'/' ∷ b'/' ∷ [] in
    if not (is_empty c.username) && not (is_empty c.password)
    then scheme
      ++ c.username
      ++ (b':' ∷ [])
      ++ c.password
      ++ (b'@' ∷ [])
      ++ place
      ++ (b'?' ∷ b'a' ∷ b'u' ∷ b't' ∷ b'h' ∷ b'S' ∷ b'o' ∷ b'u' ∷ b'r' ∷ b'c' ∷ b'e' ∷ b'=' ∷ b'a'
          ∷ b'd' ∷ b'm' ∷ b'i' ∷ b'n' ∷ [])
    else scheme ++ place

unfoldable pub mongo_init : Answers → StorageConfig → Opened
mongo_init a c = if a.connects (uri c) then opened (some (mongo (uri c) c.dbname)) else panicked

-- `Migrate`, which stops at the first statement that fails.
unfoldable pub migrate : List Bool → Bool
migrate [] = true
migrate (ok ∷ statements) = let rest = migrate statements in if ok then rest else false

unfoldable pub clickhouse_init : Answers → StorageConfig → Opened
clickhouse_init a c =
    let address = c.host ++ (b':' ∷ []) ++ c.port in
    if a.opens address && (a.creates && migrate a.migrations)
    then opened (some (clickhouse address))
    else fails

-- The choice of the storage in `main`.
unfoldable pub open_storage : Answers → StorageConfig → Opened
open_storage a c =
    if equals c.storage_type mongo_name
    then mongo_init a c
    else if equals c.storage_type clickhouse_name
    then clickhouse_init a c
    else opened none

-- What `main` comes to: it returns, it panics, or the workers are started and the
-- listener is launched.
pub record Started : Type 0 where
  pub storage : Option Storage
  pub pool : Pool
  pub launched : Launched

pub data Outcome : Type 0 where
  returns panics : Outcome
  runs : Started → Outcome

abbrev pub after_open : ℕ → Answers → Opened → Outcome
after_open num_cpu a fails = returns
after_open num_cpu a panicked = panics
after_open num_cpu a (opened s) = runs (record {
  storage = s;
  pool = init num_cpu a.general.number_of_workers a.general.workers_buffer_size;
  launched = launch (a.listener a.general.event_collector_file_name);
})

-- The text of the retention period has to be a number, which nothing uses.
abbrev pub after_number : ℕ → Answers → StorageConfig → Option ℤ → Outcome
after_number num_cpu a c none = returns
after_number num_cpu a c (some days) = after_open num_cpu a (open_storage a c)

-- `main`, with `os.Args` and what `runtime.NumCPU` answers.
unfoldable pub main : List (List ℕ) → ℕ → Answers → Outcome
main [] num_cpu a = panics
main (program ∷ []) num_cpu a = panics
main (program ∷ file ∷ rest) num_cpu a =
    if a.general_opens && (a.general_reads && (a.storage_opens && a.storage_reads))
    then (let c = a.storage a.general.storage_config_file_name in
        after_number num_cpu a c (a.number c.data_retention_period))
    else returns
