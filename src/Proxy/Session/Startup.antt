-- ===== src/Proxy/Session/Startup.antt =====
-- `start_session`, `read_startup_message` and `startup_settings` of crates/proxy/src/session.rs. What
-- a TLS handshake makes of a socket is an argument, and reaching the server is left out.
pub mod Secured
use dbsec.Prelude.{
  ℕ, zero, suc, ◌+◌, Bool, true, false, not, ◌&&◌, Option, none, some, [], ◌∷◌, ◌++◌, if◌then◌else◌,
  length, take, drop, Result, ok, err, Bytes, from_be, i32_of,
}
use dbsec.Pgwire.Frames.{Startup, tls, gss_enc, cancel, protocol, startup_kind, startup_body_len}
use dbsec.Proxy.{Error, pgwire, io, plaintext_rejected}
use dbsec.Proxy.Session.{read_exact}

-- A client's socket: whether it is a TLS stream, what is left to read, what the client sends inside
-- TLS if a handshake with it succeeds in time, and what it was sent.
pub record Client : Type 0 where
  pub secure : Bool
  pub unread : Bytes
  pub inside : Result Error Bytes
  pub sent : Bytes

-- `none` where the client left before a whole length field; a message is all of its bytes.
unfoldable pub read_startup_message : Bytes → Result Error (Option (Bytes × Bytes))
unfolding read_exact
read_startup_message (a ∷ b ∷ c ∷ d ∷ input) = elim (startup_body_len (a ∷ b ∷ c ∷ d ∷ [])) [
  | err e ↦ err (pgwire e)
  | ok body_len ↦ elim (read_exact body_len input) [
    | none ↦ err io
    | some (body, rest) ↦ ok (some (a ∷ b ∷ c ∷ d ∷ body, rest))
  ]
]
read_startup_message _ = ok none

-- what the message asks for: its second four bytes
unfoldable pub kind_of : Bytes → Startup
kind_of msg = startup_kind (i32_of (from_be (take 4 (drop 4 msg))))

unfoldable pub answer : ℕ → Client → Client
answer byte c = record c { sent = c.sent ++ byte ∷ [] }

-- `acceptor` says whether the proxy accepts TLS.
module _ (acceptor : Bool) where
  unfoldable pub request_tls : Client → Result Error Client
  unfolding answer
  request_tls c =
      if acceptor && not c.secure
      then elim c.inside [
        | err e ↦ err e
        | ok inside ↦ ok (record c { secure = true; unread = inside; sent = c.sent ++ b'S' ∷ [] })
      ]
      else ok (answer b'N' c)

  -- a message that starts a session or cancels a query
  unfoldable pub opened : Bytes → Client → Result Error (Option (Bytes × Client))
  opened msg c = if acceptor && not c.secure then err plaintext_rejected else ok (some (msg, c))

  -- what a message leads to, with `again` for another turn of the loop
  unfoldable pub dispatch :
      (Client → Result Error (Option (Bytes × Client)))
      → Startup
      → Bytes
      → Client
      → Result Error (Option (Bytes × Client))
  unfolding request_tls opened
  dispatch again tls msg c = elim (request_tls c) [ err e ↦ err e | ok c' ↦ again c' ]
  dispatch again gss_enc msg c = again (answer b'N' c)
  dispatch again cancel msg c = opened msg c
  dispatch again (protocol version) msg c = opened msg c

  -- The loop over the client's requests, on fuel: each message is taken from what is left to read,
  -- which a handshake replaces once.
  unfoldable pub negotiate : ℕ → Client → Result Error (Option (Bytes × Client))
  unfolding dispatch kind_of
  negotiate zero c = ok none
  negotiate (suc fuel) c = elim (read_startup_message c.unread) [
    | err e ↦ err e
    | ok none ↦ ok none
    | ok (some (msg, rest)) ↦
        dispatch (negotiate fuel) (kind_of msg) msg (record c { unread = rest })
  ]

unfoldable pub enough : Client → ℕ
enough c = suc (
    length c.unread
    + (if c.secure then 0 else elim c.inside [ err e ↦ 0 | ok inside ↦ length inside ]))

-- `none` where the client left before it opened a session
unfoldable pub start_session : Bool → Client → Result Error (Option (Bytes × Client))
unfolding negotiate enough
start_session acceptor c = negotiate acceptor (enough c) c
