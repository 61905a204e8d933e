-- ===== src/Lib.antt =====
-- dbsec: field-level encryption for PostgreSQL columns, as a library and as a wire proxy.
--
-- The program. crates/pgwire reads and writes the frames of the PostgreSQL protocol. crates/core
-- turns a column's value into what is stored and back: an envelope sealed with AES-256-GCM whose
-- associated data binds it to its column and, if asked, to its row, and in front of it, for a
-- searchable column, a blind index. crates/proxy relays a client's session, rewrites what it
-- writes and opens what it reads; the two directions share the session's prepared statements,
-- portals and expected responses.
--
-- The files. `Prelude` has the shared notation, lists over the native numbers, results, byte
-- strings and machine words, and `NameMap` is the map from names (a Rust HashMap).
--
-- `Pgwire` models crates/pgwire/src/lib.rs: `Pgwire.Frames` has startup_kind, startup_body_len and
-- frame_body_len; `Pgwire.Cursor` has take, take_cstr, take_i16, take_nullable and push_nullable,
-- where a function on `&mut &[u8]` is a function from the bytes left to the result and the bytes
-- it leaves; `Pgwire.Rows` has parse_row_description, parse_data_row and encode_data_row;
-- `Pgwire.Messages` has parse_parse, parse_bind, format_code and the result formats, and
-- `Pgwire.Messages.Encode` has encode_parse and encode_bind.
--
-- `Core` models crates/core. `Core.Crypto` has the interfaces to other crates, AES-256-GCM
-- (deterministic, accepting exactly what it made, with a 16-byte tag, and failing on nothing
-- within its limits) and HMAC-SHA256 (32 bytes long). `Core.Envelope` and `Core.Cipher` model the
-- format, the associated data and `Cipher` of envelope.rs, with the random nonce as an argument;
-- `Core.Ciphers` models the cache `Ciphers` and the trait `KeySource` of keys.rs, where what a key
-- source answers may differ from one question to the next, and `Core.Keys` the key file of
-- keys.rs; `Core.BlindIndex` is blind_index.rs. `Core.Transform`, `Core.Fpe` and `Core.Token` are
-- the three transforms of transform.rs, with FF1 a third interface in `Core.Crypto`. `Core.Policy`
-- is the validation of policy.rs, `Core.Protector` is protector.rs with the construction of a
-- policy's columns, `Core.Mask` is mask.rs, `Core.RowKeys` is rowkey.rs and `Core.Ident` is
-- ident.rs.
--
-- `Proxy` models the relay of crates/proxy/src between its two sockets. Of portal.rs,
-- `Proxy.Params` has the actions on parameters and the result formats, `Proxy.Portals` the state
-- and the calls of the write path, `Proxy.Portals.Answers` those of the read path, and
-- `Proxy.Portals.Sessions` a session as a sequence of both, in any order: each call takes the lock
-- once, so this covers every interleaving of the two relays. A description (`Positions`) is a
-- parameter, since the file only passes it on.
--
-- `Proxy.Rows` models the read path, rows.rs: the column map, Described::new and rederived, and
-- RowContext::publish are in `Proxy.Rows`, one value of a row in `Proxy.Rows.Cells`, decrypt_row
-- in `Proxy.Rows.Decrypt`, and RowDecryptor::on_frame in `Proxy.Rows.Frames`, over the state of
-- `Proxy.Portals`. A transform is a record of functions over a state, the trait FieldTransform,
-- and `Proxy.Rows.Columns` gives that of an EncryptTransform, whose state is the caches.
-- `Proxy.Responses` has error_response and frame of encrypt/unprotected.rs.
--
-- `Proxy.Writes` models the write path, encrypt/frame.rs: the actions of a Bind are in
-- `Proxy.Writes`, and QueryRewriter::on_frame in `Proxy.Writes.Frames`, over the same state. The
-- rewriting of a statement's text is a parameter, `rewrite_sql`. `Proxy.Arrays` and
-- `Proxy.Arrays.Text` model the two array codecs of encrypt/array.rs and index_array.
-- `Proxy.Lexer` models encrypt/lexer.rs: statement_ranges there, and reassemble, render_validated
-- and parse_sql in `Proxy.Lexer.Reassembly`, over a record of the functions of sqlparser.
--
-- `Proxy.Session` models session.rs: one round of relay there, the two relays and their
-- interleavings as a step relation in `Proxy.Session.Sides`, the closures that run gives them in
-- `Proxy.Session.Live`, which composes the write path and the read path, and start_session with
-- read_startup_message in `Proxy.Session.Startup`, and startup_settings in
-- `Proxy.Session.Settings`. A socket that is read is the bytes that come before it closes.
--
-- Numbers. Lengths and counters are native numbers; a field of the wire is written out in bytes,
-- an i16 or i32 is read through two's complement, the invocation counter and the ids wrap around
-- at 2^64. Loops are structural, but for the one over the elements of a text array, the one over a
-- query and the two over a client's startup messages and their parameters, which run on fuel: one
-- more than the length of what is read, which is enough since each round reads something.
--
-- Not modelled: TLS, timeouts and faults of the network, configuration and start-up; the log; the
-- rewriting of SQL, which works on the syntax trees of another crate; the Vault client; the derive
-- macro; locks and their poisoning.
mod Prelude
pub mod Core
pub mod NameMap
pub mod Pgwire
pub mod Proxy
