-- ===== src/Server/Launch/Told.antt =====
-- What the launch of the listener comes to.
use distributed_logger.Base.{
  ◌≡◌, refl, sym, ap, subst, ◌⊎◌, inl, inr, not, Bool, true, false, ◌&&◌, ◌||◌, none, some, [], ◌∷◌,
  ◌++◌, arith, Bool-cases, Option-cases, ℤ,
}
use distributed_logger.Client.PosixIo.State.{is_empty}
use distributed_logger.Server.Launch.{
  Config, Replies, tcp, tls, Launched, ends, crashes, listens, launch,
}

-- Both a certificate and a key are named.
abbrev pub is_secure : Config → Bool
is_secure c = not (is_empty c.server || is_empty c.key)

-- What each outcome tells of the configuration and of the libraries' answers.
abbrev pub Tells : Replies → Launched → Type 0
Tells r ends =
    (r.opens ≡ false)
    ⊎ (((is_secure r.config ≡ false)
          × ((r.number r.config.port ≡ none)
              ⊎ ((port : ℤ) × (r.number r.config.port ≡ some port)
                  × (r.listens_tcp (r.parse_cidr r.config.ip) port ≡ false))))
        ⊎ ((is_secure r.config ≡ true) × (r.loads && r.reads_roots ≡ false)))
Tells r crashes =
    (r.opens ≡ true)
    × (is_secure r.config ≡ true)
    × (r.loads && r.reads_roots ≡ true)
    × (r.listens_tls (r.config.ip ++ (b':' ∷ []) ++ r.config.port) ≡ false)
Tells r (listens (tcp ip port)) =
    (r.opens ≡ true)
    × (is_secure r.config ≡ false)
    × (r.number r.config.port ≡ some port)
    × (ip ≡ r.parse_cidr r.config.ip)
    × (r.listens_tcp ip port ≡ true)
Tells r (listens (tls address roots)) =
    (r.opens ≡ true)
    × (is_secure r.config ≡ true)
    × (r.loads && r.reads_roots ≡ true)
    × (address ≡ r.config.ip ++ (b':' ∷ []) ++ r.config.port)
    × (r.listens_tls address ≡ true)
    × (roots ≡ r.takes_roots)

told : (r : Replies) (l : Launched) → launch r ≡ l → Tells r l → Tells r (launch r)
told r l e t = subst (Tells r) (sym e) t

pub launch-Tells : (r : Replies) → Tells r (launch r)
unfolding launch
launch-Tells r = elim (Bool-cases r.opens) [
  | inr closed ↦ told r ends (ground (arith, closed)) (inl closed)
  | inl found ↦ elim (Bool-cases (is_empty r.config.server || is_empty r.config.key)) [
    | inl plain ↦ elim (Option-cases (r.number r.config.port)) [
      | inl missing ↦
          told r ends (ground (arith, found, plain, missing))
            (inr (inl (ap not plain, inl missing)))
      | inr (port, e) ↦ elim (Bool-cases (r.listens_tcp (r.parse_cidr r.config.ip) port)) [
        | inl up ↦
            told r (listens (tcp (r.parse_cidr r.config.ip) port))
              (ground (arith, found, plain, e, up)) (found, ap not plain, e, refl, up)
        | inr refused ↦
            told r ends (ground (arith, found, plain, e, refused))
              (inr (inl (ap not plain, inr (port, e, refused))))
      ]
    ]
    | inr secure ↦ elim (Bool-cases (r.loads && r.reads_roots)) [
      | inr unread ↦
          told r ends (ground (arith, found, secure, unread)) (inr (inr (ap not secure, unread)))
      | inl loaded ↦
          let address = r.config.ip ++ (b':' ∷ []) ++ r.config.port in
          elim (Bool-cases (r.listens_tls address)) [
            | inl up ↦
                told r (listens (tls address r.takes_roots))
                  (ground (arith, found, secure, loaded, up))
                  (found, ap not secure, loaded, refl, up, refl)
            | inr refused ↦
                told r crashes (ground (arith, found, secure, loaded, refused))
                  (found, ap not secure, loaded, refused)
          ]
    ]
  ]
]
