-- ===== src/Client/PosixIo/OneSocket.antt =====
-- Histories in which no call sets up a connection again.
use distributed_logger.Base.{◌≡◌, refl, ap, ◌∙◌, subst, inl, inr, Bool, List, arith}
use distributed_logger.Client.PosixBuffer.{PosixBuffer}
use distributed_logger.Client.PosixIo.State.{PosixIo, ConnectReply, is_plain}
use distributed_logger.Client.PosixIo.Connection.{set_async_mode, fix_async_mode}
use distributed_logger.Client.PosixIo.Pending.{IsGood, Ends}
use distributed_logger.Client.PosixIo.Accept.{Sends, send_lem}
use distributed_logger.Client.PosixIo.Flush.{on_write_opportunity_lem}
use distributed_logger.Client.PosixIo.History.{
  Step, sends, drops, writes, switches, Reach, here, next, IsWithin, Reach-Kept,
}
use distributed_logger.Client.PosixIo.Socket.{StaysUp, send-SameSocket}

-- A call that accepts a log does not meet an answer for which it would connect again.
abbrev pub Stays : {io io' : PosixIo} {sent : List PosixBuffer} → Step io sent io' → Type 0
Stays {io} (sends r b io' f h a e) = StaysUp r io
Stays (drops r b back io' f h a e) = Unit {0}
Stays (writes replies io' a e) = Unit {0}
Stays (switches mode r) = Unit {0}

abbrev pub AllStay : {io io' : PosixIo} {sent : List PosixBuffer} → Reach io sent io' → Type 0
AllStay here = Unit {0}
AllStay (next past step) = AllStay past × Stays step

set_async_mode-fd :
    (mode : Bool) (r : ConnectReply) (io : PosixIo) → (set_async_mode mode r io).fd ≡ io.fd
unfolding set_async_mode fix_async_mode
set_async_mode-fd mode r io = ground arith

Step-fd :
    {io io' : PosixIo} {sent : List PosixBuffer} (step : Step io sent io')
    → IsGood io
    → Stays step
    → io'.fd ≡ io.fd
Step-fd {io} (sends r b io' f h a e) g up = (send-SameSocket r b io io' _ up e).fd
Step-fd {io} (drops r b back io' f h a e) g up =
    elim (subst (Ends (is_plain io) (Sends b io)) e (send_lem r b io g f h a)) [
      | inl (n0, over, same, eq) ↦ ap (λ (x : PosixIo). x.fd) eq
      | inr (fits, same, t) ↦ cc
    ]
Step-fd {io} (writes replies io' a e) g up =
    let (io1, eq, m) = on_write_opportunity_lem replies io g a in
    let same : io' ≡ io1 = cc in ap (λ (x : PosixIo). x.fd) same ∙ m.fd
Step-fd {io} (switches mode r) g up = set_async_mode-fd mode r io

-- The socket is the same behind such a history.
pub AllStay-fd :
    {io io' : PosixIo} {sent : List PosixBuffer} (past : Reach io sent io')
    → IsGood io
    → IsWithin io
    → AllStay past
    → io'.fd ≡ io.fd
AllStay-fd here g w up = refl
AllStay-fd (next past step) g w up =
    Step-fd step (Reach-Kept g w past).good up.1 ∙ AllStay-fd past g w up.0
