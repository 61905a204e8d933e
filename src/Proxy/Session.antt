-- ===== src/Proxy/Session.antt =====
-- crates/proxy/src/session.rs: the relay of one direction, frame by frame. A socket that is read is
-- the bytes that its peer sends before it closes, or before the proxy is told to shut down, which
-- the relay treats alike; a socket that is written is what it was given. A write fails on a socket
-- that was shut down, and other faults of the network are left out.
pub mod Sides
pub mod Framed
pub mod Live
pub mod Transparent
pub mod Startup
pub mod Settings
mod Tests
use dbsec.Prelude.{
  ℕ, ◌+◌, ◌-◌, Bool, true, false, Option, none, some, List, [], ◌∷◌, ◌++◌, leb, ltb, if◌then◌else◌,
  length, take, drop, Result, ok, err, Bytes, be32,
}
use dbsec.Pgwire.{max_message_len, max_pre_auth_message_len}
use dbsec.Pgwire.Frames.{frame_body_len}
use dbsec.Proxy.{
  Error, pgwire, io, frame_too_large, pre_auth_frame_too_large, FrameAction, relay, replace_body,
  reply, refuse_and_close,
}

-- a socket's half that is written
pub record Half : Type 0 where
  pub written : Bytes
  pub closed : Bool

unfoldable pub write_all : Bytes → Half → Result Error Half
write_all bytes h = if h.closed then err io else ok (record h { written = h.written ++ bytes })

-- `AsyncWriteExt::shutdown`
unfoldable pub shut_down : Half → Half
shut_down h = record h { closed = true }

-- the two sockets that one relay writes
pub record Writers : Type 0 where
  pub forward : Half
  pub back : Half

-- Whether a relay goes on, or how it ended.
pub data Progress : Type 0 where
  going : Progress
  ended : Result Error (Unit {0}) → Progress

-- `read_exact`
unfoldable pub read_exact : ℕ → Bytes → Option (Bytes × Bytes)
read_exact n input = if leb n (length input) then some (take n input, drop n input) else none

-- `read_exact` of a header, as its type, its length field and what is behind it
unfoldable pub read_header : Bytes → Option (ℕ × Bytes × Bytes)
read_header (t ∷ a ∷ b ∷ c ∷ d ∷ rest) = some (t, a ∷ b ∷ c ∷ d ∷ [], rest)
read_header _ = none

-- `max_body` of `BodyLimit::UntilAuthenticated`
unfoldable pub until_authenticated : Bool → ℕ
until_authenticated true = max_message_len
until_authenticated false = max_pre_auth_message_len

unfoldable pub encode_frame_header : ℕ → ℕ → Result Error Bytes
encode_frame_header msg_type body_len =
    if leb (body_len + 4) max_message_len
    then ok (msg_type ∷ be32 (body_len + 4))
    else err (frame_too_large msg_type body_len max_message_len)

-- a write to the forward socket, after which the relay goes on
unfoldable pub forwarded : Bytes → Writers → Progress × Writers
unfolding write_all
forwarded bytes w = elim (write_all bytes w.forward) [
  | err e ↦ (ended (err e), w)
  | ok h ↦ (going, record w { forward = h })
]

unfoldable pub answered : Bytes → Writers → Progress × Writers
unfolding write_all
answered bytes w = elim (write_all bytes w.back) [
  | err e ↦ (ended (err e), w)
  | ok h ↦ (going, record w { back = h })
]

-- a refusal goes to the receiver, and both sockets are shut down
unfoldable pub refused_and_closed : Bytes → Writers → Progress × Writers
unfolding write_all shut_down
refused_and_closed frames w = elim (write_all frames w.forward) [
  | err e ↦ (ended (err e), w)
  | ok h ↦ (ended (ok tt), record { forward = shut_down h; back = shut_down w.back })
]

-- What is done with a frame; header and body are those that were read.
unfoldable pub act : ℕ → Bytes → Bytes → FrameAction → Writers → Progress × Writers
unfolding forwarded answered refused_and_closed encode_frame_header
act msg_type header body relay w = forwarded (header ++ body) w
act msg_type header body (replace_body new) w = elim (encode_frame_header msg_type (length new)) [
  | err e ↦ (ended (err e), w)
  | ok new_header ↦ forwarded (new_header ++ new) w
]
act msg_type header body (reply []) w = (going, w)
act msg_type header body (reply (b ∷ frames)) w = answered (b ∷ frames) w
act msg_type header body (refuse_and_close frames) w = refused_and_closed frames w

-- Where a relay is: what it has not read, what its transform keeps, and its sockets.
pub record Relay (T : Type 0) : Type 0 where
  pub unread : Bytes
  pub state : T
  pub writers : Writers

module _ {T : Type 0} (transform : ℕ → Bytes → T → Result Error FrameAction × T) where
  unfoldable pub acted :
      ℕ → Bytes → Bytes → Bytes → Result Error FrameAction × T → Writers → Progress × Relay T
  unfolding act
  acted msg_type header body rest (err e, t) w =
      (ended (err e), record { unread = rest; state = t; writers = w })
  acted msg_type header body rest (ok action, t) w =
      let (p, w') = act msg_type header body action w in
      (p, record { unread = rest; state = t; writers = w' })

  unfoldable pub with_body : ℕ → Bytes → ℕ → Bytes → Relay T → Progress × Relay T
  unfolding read_exact acted
  with_body msg_type header body_len rest r = elim (read_exact body_len rest) [
    | none ↦ (ended (err io), r)
    | some (body, rest') ↦
        acted msg_type header body rest' (transform msg_type body r.state) r.writers
  ]

  -- the header's type and length, and the limit that holds when the frame is read
  unfoldable pub with_header : ℕ → ℕ → Bytes → Bytes → Relay T → Progress × Relay T
  unfolding with_body
  with_header max_body msg_type len_field rest r = elim (frame_body_len msg_type len_field) [
    | err e ↦ (ended (err (pgwire e)), r)
    | ok (kind, body_len) ↦
        if ltb max_body body_len
        then (ended (err (pre_auth_frame_too_large kind body_len max_body)), r)
        else with_body kind (msg_type ∷ len_field) body_len rest r
  ]

  -- One round of `relay`: a frame, or the end of the input, where the peer is told so.
  unfoldable pub round : ℕ → Relay T → Progress × Relay T
  unfolding read_header with_header shut_down
  round max_body r = elim (read_header r.unread) [
    | none ↦ (
      ended (ok tt),
      record r { writers = record r.writers { forward = shut_down r.writers.forward } },
    )
    | some (msg_type, len_field, rest) ↦ with_header max_body msg_type len_field rest r
  ]
