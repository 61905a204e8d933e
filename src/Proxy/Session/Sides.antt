-- ===== src/Proxy/Session/Sides.antt =====
-- `run` of crates/proxy/src/session.rs once a session has started: the two relays take their rounds
-- in any order. Each write holds its socket's lock for a whole frame, so a round is one step.
use dbsec.Prelude.{ℕ, ◌≡◌, Option, none, some, Result, ◌>>◌, Bytes}
use dbsec.Pgwire.{max_message_len}
use dbsec.Proxy.{Error, FrameAction}
use dbsec.Proxy.Session.{Half, Progress, going, Relay, round}

-- `join_relays`: what the relay that ended first returned, and the other one's result if it ended
-- before the drain deadline.
unfoldable pub join_relays :
    Result Error (Unit {0}) → Option (Result Error (Unit {0})) → Result Error (Unit {0})
join_relays ended (some rest) = ended >> rest
join_relays ended none = ended

-- What the two relays share, and how far each is.
pub record Session (T : Type 0) : Type 0 where
  pub client_in : Bytes
  pub upstream_in : Bytes
  pub to_client : Half
  pub to_upstream : Half
  pub client_relay : Progress
  pub upstream_relay : Progress
  pub state : T

-- The closures of the two relays, and the limit on the bodies that the client sends.
pub record Sides (T : Type 0) : Type 0 where
  pub from_client : ℕ → Bytes → T → Result Error FrameAction × T
  pub from_upstream : ℕ → Bytes → T → Result Error FrameAction × T
  pub client_limit : T → ℕ

module _ {T : Type 0} where
  unfoldable pub after_client : Progress × Relay T → Session T → Session T
  after_client (p, r) s = record {
    client_in = r.unread;
    upstream_in = s.upstream_in;
    to_client = r.writers.back;
    to_upstream = r.writers.forward;
    client_relay = p;
    upstream_relay = s.upstream_relay;
    state = r.state;
  }

  unfoldable pub after_upstream : Progress × Relay T → Session T → Session T
  after_upstream (p, r) s = record {
    client_in = s.client_in;
    upstream_in = r.unread;
    to_client = r.writers.forward;
    to_upstream = r.writers.back;
    client_relay = s.client_relay;
    upstream_relay = p;
    state = r.state;
  }

  abbrev pub client_side : Session T → Relay T
  client_side s = record {
    unread = s.client_in;
    state = s.state;
    writers = record { forward = s.to_upstream; back = s.to_client };
  }

  abbrev pub upstream_side : Session T → Relay T
  upstream_side s = record {
    unread = s.upstream_in;
    state = s.state;
    writers = record { forward = s.to_client; back = s.to_upstream };
  }

  module _ (sides : Sides T) where
    unfoldable pub client_round : Session T → Session T
    unfolding after_client
    client_round s =
        after_client (round sides.from_client (sides.client_limit s.state) (client_side s)) s

    unfoldable pub upstream_round : Session T → Session T
    unfolding after_upstream
    upstream_round s =
        after_upstream (round sides.from_upstream max_message_len (upstream_side s)) s

    pub data Step (s : Session T) : Session T → Type 0 where
      client_step : s.client_relay ≡ going → Step s (client_round s)
      upstream_step : s.upstream_relay ≡ going → Step s (upstream_round s)

    pub data Reach (start : Session T) : Session T → Type 0 where
      here : Reach start start
      later : {s t : Session T} → Reach start s → Step s t → Reach start t
