-- ===== src/Proxy/Session/Tests.antt =====
-- A session of a few frames, and the theorems on it there.
use dbsec.Prelude.{
  List, bytes_eq, take, ◌≡◌, refl, true, false, Option, none, some, [], ◌∷◌, ◌++◌, ok, err, Bytes,
  codes, arith,
}
use dbsec.Pgwire.Frames.{frame_body_len, startup_body_len, startup_kind}
use dbsec.Proxy.{reject, plaintext_rejected}
use dbsec.Proxy.Portals.{no_session}
use dbsec.Proxy.Rows.{Described}
use dbsec.Proxy.Rows.Columns.{Store}
use dbsec.Proxy.Rows.Frames.{RowDecryptor}
use dbsec.Proxy.Rows.Frames.Tests.{texts, session}
use dbsec.Proxy.Arrays.Text.{ascii_lower}
use dbsec.Proxy.Session.{
  going, round, read_header, with_header, with_body, read_exact, acted, act, forwarded, write_all,
  until_authenticated,
}
use dbsec.Proxy.Session.Sides.{
  Session, Reach, here, later, client_step, upstream_step, client_round, upstream_round,
  after_client,
}
use dbsec.Proxy.Session.Framed.{Framed}
use dbsec.Proxy.Session.Live.{Shared, sides, session-Framed, from_client}
use dbsec.Proxy.Session.Startup.{
  Client, start_session, negotiate, enough, read_startup_message, kind_of, dispatch, request_tls,
  answer, opened,
}
use dbsec.Proxy.Session.Settings.{
  eq_ignore_ascii_case, startup_settings, parameters, startup_settings-moved,
}
use dbsec.Proxy.Session.Startup.Secured.{start_session-secure}
use dbsec.Proxy.Session.Transparent.{session-transparent}
use dbsec.Proxy.Writes.{QueryRewriter}
use dbsec.Proxy.Writes.Tests.{rewriting}

abbrev query_rewriter : QueryRewriter (Unit {0}) Store (Described Store)
query_rewriter = record {
  sql = tt;
  keys = session.keys;
  portals = no_session (Described Store);
  tx_status = b'I';
  on_unprotected = reject;
  awaiting_sync = false;
}

-- A Query of the text `q` that the rewriting refuses, and a row that no description covers.
abbrev start_with :
    Option (QueryRewriter (Unit {0}) Store (Described Store))
    → Option (RowDecryptor Store)
    → Session (Shared (Unit {0}) Store)
start_with rewriter decryptor = record {
  client_in = b'Q' ∷ 0 ∷ 0 ∷ 0 ∷ 6 ∷ b'q' ∷ 0 ∷ [];
  upstream_in = b'D' ∷ 0 ∷ 0 ∷ 0 ∷ 6 ∷ 0 ∷ 0 ∷ [];
  to_client = record { written = []; closed = false };
  to_upstream = record { written = []; closed = false };
  client_relay = going;
  upstream_relay = going;
  state = record {
    portals = no_session (Described Store);
    keys = session.keys;
    tx_status = b'I';
    authenticated = false;
    rewriter = rewriter;
    decryptor = decryptor;
  };
}

abbrev protected : Session (Shared (Unit {0}) Store)
protected = start_with (some query_rewriter) (some session)

abbrev plain : Session (Shared (Unit {0}) Store)
plain = start_with none none

both_rounds :
    Reach
      (sides rewriting texts)
      protected
      (upstream_round (sides rewriting texts) (client_round (sides rewriting texts) protected))
unfolding client_round after_client
both_rounds = later (later here (client_step refl)) (upstream_step refl)

session-Framed_example :
    Framed
      (upstream_round
        (sides rewriting texts)
        (client_round (sides rewriting texts) protected)).to_client.written
    × Framed
        (upstream_round
          (sides rewriting texts)
          (client_round (sides rewriting texts) protected)).to_upstream.written
session-Framed_example = session-Framed rewriting texts protected refl refl both_rounds

-- the session after a round of the client's relay
abbrev relayed : Session (Shared (Unit {0}) Store)
relayed = record plain {
  client_in = [];
  to_upstream = record { written = b'Q' ∷ 0 ∷ 0 ∷ 0 ∷ 6 ∷ b'q' ∷ 0 ∷ []; closed = false };
}

client-relayed : client_round (sides rewriting texts) plain ≡ relayed
unfolding client_round after_client round read_header with_header with_body read_exact acted act
    forwarded write_all frame_body_len from_client until_authenticated
client-relayed = refl

Reach-relayed : Reach (sides rewriting texts) plain relayed
Reach-relayed = rw (← client-relayed) (later here (client_step refl))

session-transparent_example :
    (relayed.to_upstream.written ++ relayed.client_in ≡ plain.client_in)
    × (relayed.to_client.written ++ relayed.upstream_in ≡ plain.upstream_in)
session-transparent_example =
    session-transparent rewriting texts plain refl refl refl refl Reach-relayed refl refl

-- A client that asks for TLS in the clear, and sends its startup message inside.
abbrev ssl_message : Bytes
ssl_message = 0 ∷ 0 ∷ 0 ∷ 8 ∷ 4 ∷ 210 ∷ 22 ∷ 47 ∷ []

abbrev startup_message : Bytes
startup_message = 0 ∷ 0 ∷ 0 ∷ 9 ∷ 0 ∷ 3 ∷ 0 ∷ 0 ∷ 0 ∷ []

abbrev client : Client
client = record { secure = false; unread = ssl_message; inside = ok startup_message; sent = [] }

abbrev accepted : Client
accepted = record { secure = true; unread = []; inside = ok startup_message; sent = codes "S" }

starts : start_session true client ≡ ok (some (startup_message, accepted))
unfolding start_session negotiate enough read_startup_message kind_of dispatch request_tls answer
    opened read_exact startup_body_len startup_kind
starts = refl

rejects : start_session true (record client { unread = startup_message }) ≡ err plaintext_rejected
unfolding start_session negotiate enough read_startup_message kind_of dispatch request_tls answer
    opened read_exact startup_body_len startup_kind
rejects = refl

start_session-secure_example : accepted.secure ≡ true
start_session-secure_example = start_session-secure client accepted startup_message starts

-- The parameters of a client that names its user, moves search_path and names it again.
abbrev moved : List (Bytes × Bytes)
moved =
    (codes "user", codes "app")
    ∷ (codes "Search_Path", codes "tenant7")
    ∷ (codes "search_path", codes "public")
    ∷ []

startup_settings-moved_example :
    (startup_settings (λ t. true) (take 8 startup_message ++ parameters moved)).search_path_trusted
    ≡ false
unfolding eq_ignore_ascii_case ascii_lower bytes_eq
startup_settings-moved_example =
    startup_settings-moved (λ t. true) (take 8 startup_message) ((codes "user", codes "app") ∷ [])
      ((codes "search_path", codes "public") ∷ []) (codes "Search_Path") (codes "tenant7") refl
      (ground arith) refl refl
