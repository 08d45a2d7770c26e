-- ===== src/Server/System.antt =====
-- The server with all of its connections: each is a goroutine that runs `handleConnection` of
-- server/listener/listener.go, and the ingester's workers take from the channel that they fill. A
-- connection that the channel blocks keeps its packet until there is room.
pub mod Served
pub mod Running
pub mod Stored
use distributed_logger.Base.{ℕ, ◌≡◌, Bool, true, some, List, [], ◌∷◌, ◌++◌, ℤ}
use distributed_logger.Server.Listener.{Read, Conn, Round, step, initial}
use distributed_logger.Server.Ingester.{Worker, packet, tick}
use distributed_logger.Server.Ingester
use distributed_logger.Server.Ingester.Pool.{Pool, init, enqueue, with_worker}

-- A connection: the variables of its loop, the packet that it is handing to `Enqueue`, and whether the
-- loop goes on; and, of its past, the answers of `conn.Read` and the packets that it has handed on.
pub record Link : Type 0 where
  pub heard : List Read
  pub conn : Conn
  pub waiting : List (List ℕ)
  pub handed : List (List ℕ)
  pub goes_on : Bool

-- What `ln.Accept` gives.
unfoldable pub accept : Link
accept = record { heard = []; conn = initial; waiting = []; handed = []; goes_on = true }

-- A round of the loop.
unfoldable pub hear : Read → Link → Link
hear r l =
    let s = step r l.conn in
    record l {
      heard = l.heard ++ (r ∷ []);
      conn = s.conn;
      waiting = s.enqueued;
      goes_on = s.goes_on;
    }

-- `Enqueue` has taken the first packet.
unfoldable pub hand_on : List ℕ → List (List ℕ) → Link → Link
hand_on msg rest l = record l { waiting = rest; handed = l.handed ++ (msg ∷ []) }

-- What the goroutines of a server do from its start on, in any order. `fails` tells whether a flush made
-- in this round returns an error.
pub data Reach (num_cpu : ℕ) (workers buffer_size : ℤ) : List Link → Pool → Type 0 where
  starts : Reach num_cpu workers buffer_size [] (init num_cpu workers buffer_size)
  accepts :
      {links : List Link} {p : Pool}
      → Reach num_cpu workers buffer_size links p
      → Reach num_cpu workers buffer_size (accept ∷ links) p
  hears :
      {links : List Link} {p : Pool} (before behind : List Link) (l : Link) (r : Read)
      → links ≡ before ++ (l ∷ behind)
      → l.goes_on ≡ true
      → l.waiting ≡ []
      → Reach num_cpu workers buffer_size links p
      → Reach num_cpu workers buffer_size (before ++ (hear r l ∷ behind)) p
  hands :
      {links : List Link} {p p' : Pool} (before behind : List Link) (l : Link) (msg : List ℕ)
      (rest : List (List ℕ))
      → links ≡ before ++ (l ∷ behind)
      → l.waiting ≡ msg ∷ rest
      → enqueue msg p ≡ some p'
      → Reach num_cpu workers buffer_size links p
      → Reach num_cpu workers buffer_size (before ++ (hand_on msg rest l ∷ behind)) p'
  receives :
      {links : List Link} {p : Pool} (before behind : List Worker) (w : Worker) (msg : List ℕ)
      (rest : List (List ℕ)) (fails : Bool)
      → p.workers ≡ before ++ (w ∷ behind)
      → w.running ≡ true
      → p.channel ≡ msg ∷ rest
      → Reach num_cpu workers buffer_size links p
      → Reach num_cpu workers buffer_size links (
          with_worker before
            (Ingester.step p.buffer_size (packet msg fails) w)
            behind
            (record p { channel = rest }))
  ticks :
      {links : List Link} {p : Pool} (before behind : List Worker) (w : Worker) (fails : Bool)
      → p.workers ≡ before ++ (w ∷ behind)
      → w.running ≡ true
      → Reach num_cpu workers buffer_size links p
      → Reach num_cpu workers buffer_size links
          (with_worker before (Ingester.step p.buffer_size (tick fails) w) behind p)
