-- ===== src/Server/Launch.antt =====
-- LaunchListener of server/listener/listener.go, up to its loop, with server/config/config.go.
pub mod Told
use distributed_logger.Base.{
  ℕ, ◌≡◌, refl, sym, ap, subst, ◌↔◌, ◌⊎◌, inl, inr, not, Bool, true, false, ◌&&◌, ◌||◌, Option,
  none, some, List, [], ◌∷◌, ◌++◌, arith, Bool-cases, Option-cases, if◌then◌else◌, ℤ,
}
use distributed_logger.Client.PosixIo.State.{is_empty}

-- The fields of `Config`: those of its listener, and the names of its certificates' files.
pub record Config : Type 0 where
  pub port : List ℕ
  pub ip : List ℕ
  pub server : List ℕ
  pub root : List ℕ
  pub key : List ℕ

-- What the libraries answer: whether the file is opened and what json.Unmarshal leaves of it; what
-- net.ParseCIDR and strconv.Atoi read; whether the certificate and the file of the roots are loaded, and
-- the roots taken from it; and whether a socket listens.
pub record Replies : Type 0 where
  pub opens : Bool
  pub config : Config
  pub parse_cidr : List ℕ → Option (List ℕ)
  pub number : List ℕ → Option ℤ
  pub loads : Bool
  pub reads_roots : Bool
  pub takes_roots : Bool
  pub listens_tcp : Option (List ℕ) → ℤ → Bool
  pub listens_tls : List ℕ → Bool

-- What the loop of `Accept` stands on: a socket at an address, `none` being all addresses, or one that
-- asks each client for a certificate, with or without roots to verify it.
pub data Listening : Type 0 where
  tcp : Option (List ℕ) → ℤ → Listening
  tls : List ℕ → Bool → Listening

pub data Launched : Type 0 where
  ends crashes : Launched
  listens : Listening → Launched

-- The error of `ListenTCP` is lost in a variable of the block. The listener is a nil pointer then, whose
-- `Accept` gives an error, so that the loop ends.
abbrev pub listen_tcp : Replies → Option (List ℕ) → Option ℤ → Launched
listen_tcp r ip none = ends
listen_tcp r ip (some port) = if r.listens_tcp ip port then listens (tcp ip port) else ends

-- The error of `tls.Listen` is lost in the same way, but the listener is a nil interface, whose `Accept`
-- panics.
abbrev pub listen_tls : Replies → List ℕ → Launched
listen_tls r address =
    if r.listens_tls address then listens (tls address r.takes_roots) else crashes

unfoldable pub launch : Replies → Launched
launch r =
    let c = r.config in
    if r.opens
    then (if is_empty c.server || is_empty c.key
        then listen_tcp r (r.parse_cidr c.ip) (r.number c.port)
        else if r.loads && r.reads_roots
        then listen_tls r (c.ip ++ (b':' ∷ []) ++ c.port)
        else ends)
    else ends
