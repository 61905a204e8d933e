-- ===== src/Proxy/Session/Startup/Secured.antt =====
-- `start_session` of crates/proxy/src/session.rs: the loop ends, and what it lets through.
use dbsec.Prelude.{
  ℕ, zero, suc, ◌+◌, ◌≤◌, ◌<◌, ◌≡◌, refl, sym, ap, Bool, true, false, not, ◌&&◌, Option, none, some,
  [], ◌∷◌, if◌then◌else◌, length, length-append, Result, ok, err, ok-injective, some-injective,
  Bytes, arith, inl, inr, Bool-cases, Option-cases, Result-cases,
}
use dbsec.Pgwire.Frames.{Startup, tls, gss_enc, cancel, protocol, startup_body_len}
use dbsec.Proxy.{Error}
use dbsec.Proxy.Session.{read_exact}
use dbsec.Proxy.Session.Framed.{read_exact-eq-some}
use dbsec.Proxy.Session.Startup.{
  Client, read_startup_message, kind_of, answer, request_tls, opened, dispatch, negotiate, enough,
  start_session,
}

opened-secure :
    (msg msg' : Bytes) (c c' : Client) → opened true msg c ≡ ok (some (msg', c')) → c'.secure ≡ true
unfolding opened
opened-secure msg msg' c c' h = elim (Bool-cases c.secure) [
  | inl e ↦
      let same = ap (λ p. p.1) (some-injective (ok-injective (rw (opened, e) at h))) in
      sym (ap (λ (k : Client). k.secure) same)
  | inr e ↦ let refused = rw (opened, e) at h in absurd (cc)
]

dispatch-secure :
    (again : Client → Result Error (Option (Bytes × Client))) (kind : Startup) (msg msg' : Bytes)
    (c c' : Client)
    → ((d : Client) → again d ≡ ok (some (msg', c')) → c'.secure ≡ true)
    → dispatch true again kind msg c ≡ ok (some (msg', c'))
    → c'.secure ≡ true
unfolding dispatch
dispatch-secure again tls msg msg' c c' k h = elim (Result-cases (request_tls true c)) [
  | inr (x, e) ↦ let failed = rw (dispatch, e) at h in absurd (cc)
  | inl (d, e) ↦ k d (rw (dispatch, e) at h)
]
dispatch-secure again gss_enc msg msg' c c' k h = k (answer b'N' c) h
dispatch-secure again cancel msg msg' c c' k h = opened-secure msg msg' c c' h
dispatch-secure again (protocol version) msg msg' c c' k h = opened-secure msg msg' c c' h

negotiate-secure :
    (fuel : ℕ) (c c' : Client) (msg : Bytes)
    → negotiate true fuel c ≡ ok (some (msg, c'))
    → c'.secure ≡ true
unfolding negotiate
negotiate-secure zero c c' msg h = let left = h in absurd (cc)
negotiate-secure (suc fuel) c c' msg h = elim (Result-cases (read_startup_message c.unread)) [
  | inr (x, e) ↦ let failed = rw (negotiate, e) at h in absurd (cc)
  | inl (none, e) ↦ let left = rw (negotiate, e) at h in absurd (cc)
  | inl (some (m, rest), e) ↦
      dispatch-secure (negotiate true fuel) (kind_of m) m msg (record c { unread = rest }) c'
        (λ d. negotiate-secure fuel d c' msg) (rw (negotiate, e) at h)
]

-- Where the proxy accepts TLS, a session is opened only inside TLS: whatever a client sends, a
-- startup or cancel request is passed on only if the handshake came first.
pub start_session-secure :
    (c c' : Client) (msg : Bytes) → start_session true c ≡ ok (some (msg, c')) → c'.secure ≡ true
unfolding start_session
start_session-secure c c' msg h = negotiate-secure (enough c) c c' msg h

-- what a client can still make the loop read
abbrev measure : Client → ℕ
measure c =
    length c.unread
    + (if c.secure then 0 else elim c.inside [ err e ↦ 0 | ok inside ↦ length inside ])

read_startup_message-shorter :
    (input : Bytes) {msg rest : Bytes}
    → read_startup_message input ≡ ok (some (msg, rest))
    → length rest < length input
unfolding read_startup_message
read_startup_message-shorter (a ∷ b ∷ c ∷ d ∷ input) {rest = rest} h =
    elim (Result-cases (startup_body_len (a ∷ b ∷ c ∷ d ∷ []))) [
      | inr (x, e) ↦ let failed = rw (read_startup_message, e) at h in absurd (cc)
      | inl (n, e) ↦ elim (Option-cases (read_exact n input)) [
        | inl f ↦ let failed = rw (read_startup_message, e, f) at h in absurd (cc)
        | inr ((body, rest'), f) ↦
            let same : rest' ≡ rest =
              ap (λ p. p.1)
                (some-injective (ok-injective (rw (read_startup_message, e, f) at h))) in
            let split = (read_exact-eq-some n input f).1 in
            rw (← same, ← split) (omega (arith, length-append body rest'))
      ]
    ]
read_startup_message-shorter _ h = absurd (cc)

request_tls-measure :
    (acceptor : Bool) (c d : Client) → request_tls acceptor c ≡ ok d → measure d ≤ measure c
unfolding request_tls answer
request_tls-measure acceptor c d h = elim (Bool-cases (acceptor && not c.secure)) [
  | inr e ↦ rw (← ok-injective (rw (request_tls, e) at h)) (omega arith)
  | inl e ↦ elim (Result-cases c.inside) [
    | inr (x, f) ↦ let failed = rw (request_tls, e, f) at h in absurd (cc)
    | inl (inside, f) ↦
        let plain : c.secure ≡ false = ground (arith, e) in
        rw (← ok-injective (rw (request_tls, e, f) at h), plain, f) (omega arith)
  ]
]

dispatch-same :
    (acceptor : Bool) (again again' : Client → Result Error (Option (Bytes × Client)))
    (kind : Startup) (msg : Bytes) (c : Client)
    → ((d : Client) → measure d ≤ measure c → again d ≡ again' d)
    → dispatch acceptor again kind msg c ≡ dispatch acceptor again' kind msg c
unfolding dispatch answer
dispatch-same acceptor again again' tls msg c k = elim (Result-cases (request_tls acceptor c)) [
  | inr (x, e) ↦ rw (dispatch, e) refl
  | inl (d, e) ↦ rw (dispatch, e) (k d (request_tls-measure acceptor c d e))
]
dispatch-same acceptor again again' gss_enc msg c k = k (answer b'N' c) (omega arith)
dispatch-same acceptor again again' cancel msg c k = refl
dispatch-same acceptor again again' (protocol version) msg c k = refl

negotiate-fuel :
    (acceptor : Bool) (fuel fuel' : ℕ) (c : Client)
    → measure c < fuel
    → measure c < fuel'
    → negotiate acceptor fuel c ≡ negotiate acceptor fuel' c
unfolding negotiate
negotiate-fuel acceptor zero fuel' c l l' = absurd (omega arith)
negotiate-fuel acceptor (suc fuel) zero c l l' = absurd (omega arith)
negotiate-fuel acceptor (suc fuel) (suc fuel') c l l' =
    elim (Result-cases (read_startup_message c.unread)) [
      | inr (x, e) ↦ rw (negotiate, e) refl
      | inl (none, e) ↦ rw (negotiate, e) refl
      | inl (some (m, rest), e) ↦
          let less = read_startup_message-shorter c.unread e in
          rw (negotiate, e)
            (dispatch-same acceptor (negotiate acceptor fuel) (negotiate acceptor fuel') (kind_of m)
              m (record c { unread = rest })
              (λ d le. negotiate-fuel acceptor fuel fuel' d (omega arith) (omega arith)))
    ]

-- The loop over a client's requests ends by itself, with TLS and without: more turns than the fuel
-- that is given lead to the same result.
pub start_session-fuel :
    (acceptor : Bool) (c : Client) (fuel : ℕ)
    → enough c ≤ fuel
    → start_session acceptor c ≡ negotiate acceptor fuel c
unfolding start_session enough
start_session-fuel acceptor c fuel l =
    negotiate-fuel acceptor (enough c) fuel c (omega arith) (omega arith)
