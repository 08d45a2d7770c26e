-- ===== src/Client/SeastarTlsIo/Credentials.antt =====
-- The histories of a SeastarTLS_IO.
use distributed_logger.Base.{ℕ, ◌-◌, ◌<◌, ◌≡◌, subst, Bool, true, false, some, List, arith}
use distributed_logger.Client.SeastarIo.{
  SeastarIo, set_queue_max_size, shut_down, write_completes, send,
}
use distributed_logger.Client.SeastarIo.Down
use distributed_logger.Client.SeastarIo.Down.{IsDown, StillDown, down_stays}
use distributed_logger.Client.SeastarTlsIo.{
  SeastarTlsIo, BuilderReply, build_client_credentials, timer_fires, credentials_complete,
  connect_completes,
}

-- An inherited call or completion.
abbrev pub inherit : (SeastarIo → SeastarIo) → SeastarTlsIo → SeastarTlsIo
inherit f t = record t { io = f t.io }

-- What may happen without a call of `connect`.
pub data Later (t : SeastarTlsIo) : SeastarTlsIo → Type 0 where
  here : Later t t
  limits : {t' : SeastarTlsIo} (n : ℕ) → Later t t' → Later t (inherit (set_queue_max_size n) t')
  fires : {t' : SeastarTlsIo} → t'.io.timer_armed ≡ true → Later t t' → Later t (timer_fires t')
  builds :
      {t' : SeastarTlsIo} (r : BuilderReply)
      → 0 < t'.building
      → Later t t'
      → Later t (credentials_complete r t')
  completes :
      {t' : SeastarTlsIo} (ok : Bool)
      → 0 < t'.io.connecting
      → Later t t'
      → Later t (connect_completes ok t')
  shuts_down :
      {t' : SeastarTlsIo} → t'.io.transmitting ≡ false → Later t t' → Later t (inherit shut_down t')
  writes :
      {t' : SeastarTlsIo} (ok : Bool) (buf : List ℕ)
      → t'.io.in_flight ≡ some buf
      → Later t t'
      → Later t (inherit (write_completes ok buf) t')
  sends :
      {t' : SeastarTlsIo} {io' : SeastarIo} (buf : List ℕ)
      → send buf t'.io ≡ some io'
      → Later t t'
      → Later t (record t' { io = io' })

-- Where nothing is under way, each step is one of those that SeastarIO has.
inherited :
    {t t' : SeastarTlsIo}
    → IsDown t.io
    → t.building ≡ 0
    → Later t t'
    → Down.Later t.io t'.io × (t'.building ≡ 0)
inherited d b here = (Down.here, b)
inherited d b (limits n past) = let (p, b') = inherited d b past in (Down.limits n p, b')
inherited d b (fires e past) =
    let (p, b') = inherited d b past in let u = (down_stays d p).down.unarmed in cc
inherited d b (builds r h past) = let (p, b') = inherited d b past in absurd (omega (arith, b'))
inherited d b (completes ok h past) =
    let (p, b') = inherited d b past in
    let u = (down_stays d p).down.no_attempt in absurd (omega (arith, u))
inherited d b (shuts_down e past) = let (p, b') = inherited d b past in (Down.shuts_down e p, b')
inherited d b (writes ok buf e past) =
    let (p, b') = inherited d b past in (Down.writes ok buf e p, b')
inherited d b (sends buf e past) = let (p, b') = inherited d b past in (Down.sends buf e p, b')

-- Credentials that cannot be built are not tried again: with no connection and nothing else under way,
-- over any history without a call of `connect`, the transport stays unconnected, and nothing is
-- posted, sent or queued.
pub failed_credentials_strand :
    (t : SeastarTlsIo) {t' : SeastarTlsIo} (r : BuilderReply)
    → build_client_credentials r t ≡ false
    → t.building ≡ 1
    → IsDown t.io
    → Later (credentials_complete r t) t'
    → StillDown t.io t'.io
unfolding credentials_complete
failed_credentials_strand t {t'} r e b d past =
    down_stays d (inherited d given (subst (λ s. Later s t') gone past)).0
  where
    t1 : SeastarTlsIo
    t1 = record t { building = t.building - 1 }

    gone : credentials_complete r t ≡ t1
    gone = ground (arith, e)

    given : t1.building ≡ 0
    given = omega (arith, b)
