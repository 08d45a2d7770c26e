-- ===== src/Server/Listener/Bytes.antt =====
-- The framing protocol, a byte at a time: what a listener has to compute, however the bytes arrive.
use distributed_logger.Base.{
  ℕ, suc, ◌+◌, ◌≤◌, ◌≡◌, refl, sym, ap, ◌∙◌, List, [], ◌∷◌, ◌++◌, append-nil, append_assoc, arith,
  ltb, ◌==◌, if◌then◌else◌, length, length-append, from_be,
}

-- A header or a packet of which some bytes have arrived, or a connection that was given up.
pub data Protocol : Type 0 where
  header : List ℕ → Protocol
  body : ℕ → List ℕ → Protocol
  closed : Protocol

-- A header that has grown by a byte. A length of 0 asks for the next header.
abbrev pub check_header : List ℕ → Protocol
check_header got =
    if length got == 4
    then (if from_be got == 0 then header [] else body (from_be got) [])
    else header got

-- A packet that has grown by a byte, with the packets that are then complete.
abbrev pub check_body : ℕ → List ℕ → Protocol × List (List ℕ)
check_body n got =
    if length got == n
    then (if ltb 12 n then (header [], got ∷ []) else (closed, []))
    else (body n got, [])

unfoldable pub feed : ℕ → Protocol → Protocol × List (List ℕ)
feed b (header got) = (check_header (got ++ (b ∷ [])), [])
feed b (body n got) = check_body n (got ++ (b ∷ []))
feed b closed = (closed, [])

unfoldable pub feed_all : List ℕ → Protocol → Protocol × List (List ℕ)
feed_all [] p = (p, [])
feed_all (b ∷ bs) p =
    let (p', out) = feed b p in let (p'', more) = feed_all bs p' in (p'', out ++ more)

-- What more bytes make of a state and the packets so far.
abbrev pub feed_more : List ℕ → Protocol × List (List ℕ) → Protocol × List (List ℕ)
feed_more ys out = ((feed_all ys out.0).0, out.1 ++ (feed_all ys out.0).1)

pub feed_all-append :
    (xs ys : List ℕ) (p : Protocol) → feed_all (xs ++ ys) p ≡ feed_more ys (feed_all xs p)
unfolding feed_all
feed_all-append [] ys p = refl
feed_all-append (x ∷ xs) ys p = rw (feed_all-append xs ys (feed x p).0) (
    ap (λ out. ((feed_all ys (feed_all xs (feed x p).0).0).0, out))
      (sym (append_assoc (feed x p).1 _ _)))

-- A byte with which no packet is complete.
feed_all-cons :
    (b : ℕ) (bytes : List ℕ) (p p' : Protocol)
    → feed b p ≡ (p', [])
    → feed_all (b ∷ bytes) p ≡ feed_all bytes p'
unfolding feed_all
feed_all-cons b bytes p p' e = rw e

feed_all-one : (b : ℕ) (p : Protocol) → feed_all (b ∷ []) p ≡ feed b p
unfolding feed_all
feed_all-one b p = ap (λ out. ((feed b p).0, out)) (append-nil (feed b p).1)

-- Bytes that do not go past the header are collected.
pub feed_all-header :
    (b : ℕ) (bytes got : List ℕ)
    → length got + suc (length bytes) ≤ 4
    → feed_all (b ∷ bytes) (header got) ≡ (check_header (got ++ (b ∷ bytes)), [])
unfolding feed
feed_all-header b [] got h = feed_all-one b (header got)
feed_all-header b (c ∷ bytes) got h =
    let len = length-append got (b ∷ []) in
    let wait : check_header (got ++ (b ∷ [])) ≡ header (got ++ (b ∷ [])) = ground (arith, len) in
    feed_all-cons b (c ∷ bytes) (header got) (header (got ++ (b ∷ []))) (ap (λ p. (p, [])) wait)
    ∙ (feed_all-header c bytes (got ++ (b ∷ [])) (omega (arith, len))
        ∙ ap (λ g. (check_header g, [])) (append_assoc got (b ∷ []) (c ∷ bytes)))

-- Bytes that do not go past the packet are collected.
pub feed_all-body :
    (n b : ℕ) (bytes got : List ℕ)
    → length got + suc (length bytes) ≤ n
    → feed_all (b ∷ bytes) (body n got) ≡ check_body n (got ++ (b ∷ bytes))
unfolding feed
feed_all-body n b [] got h = feed_all-one b (body n got)
feed_all-body n b (c ∷ bytes) got h =
    let len = length-append got (b ∷ []) in
    let wait : check_body n (got ++ (b ∷ [])) ≡ (body n (got ++ (b ∷ [])), []) =
      ground (arith, len) in
    feed_all-cons b (c ∷ bytes) (body n got) (body n (got ++ (b ∷ []))) wait
    ∙ (feed_all-body n c bytes (got ++ (b ∷ [])) (omega (arith, len))
        ∙ ap (check_body n) (append_assoc got (b ∷ []) (c ∷ bytes)))

-- A connection that was given up stays so.
pub feed_all-closed : (bytes : List ℕ) → feed_all bytes closed ≡ (closed, [])
unfolding feed_all feed
feed_all-closed [] = refl
feed_all-closed (b ∷ bytes) = rw (feed_all-closed bytes)
