-- ===== src/Proxy/Writes/Tests.antt =====
-- The write path of a session, and the theorems on it at a concrete one.
use mathlib.Core.List.{Memᴰ}
use dbsec.Prelude.{
  ◌≡◌, refl, true, false, Option, none, some, [], ◌∷◌, ◌++◌, ok, Bytes, codes, bytes_eq, arith,
}
use dbsec.NameMap.{get, insert, remove, contains_key}
use dbsec.Core.BlindIndex.{compute, prepend}
use dbsec.Core.Cipher.{with_budget, encrypt, seal_with, choose}
use dbsec.Core.Ciphers.{seal, active}
use dbsec.Core.Crypto.Toy.{toy, toy_encrypt, toy_hmac, toy_mac}
use dbsec.Core.Envelope.{RowKey, aad_with_row}
use dbsec.Core.RowKeys.{canonical, canonical_text}
use dbsec.Core.Samples.{id_one, nonce, source, cold, searchable_column, stored_index}
use dbsec.Core.Transform.{seal_value, blind_index, index_key_of}
use dbsec.Pgwire.Cursor.{push_all, wire_count, take_cstr, take_i16, take_times, take_nullable}
use dbsec.Pgwire.Messages.{BindMessage, parse_bind, param_format, format_code, result_format_codes}
use dbsec.Pgwire.Messages.Encode.{encode_bind}
use dbsec.Proxy.{replace_body, reply, reject}
use dbsec.Proxy.Params.{param, seal_param, value_format}
use dbsec.Proxy.Portals
use dbsec.Proxy.Portals.{Statement, Tracked, idle, check_name, room}
use dbsec.Proxy.Rows.Cells.{hex_text_form}
use dbsec.Proxy.Rows.Columns.{Store, Keyring, encrypting}
use dbsec.Proxy.Rows.Decrypt.{Values, value_at, set_value}
use dbsec.Proxy.Rows.Tests.{libs}
use dbsec.Proxy.Writes.{
  Rewriting, refuse, QueryRewriter, ready_for_query, encode_param, is_binary, key_of_param,
  bind_row_key, param_value, bind_param, bind_params,
}
use dbsec.Proxy.Writes.Discards.{run, run_discards}
use dbsec.Proxy.Writes.Frames.{on_frame, handle, bind, bind_message, bind_actions}
use dbsec.Proxy.Writes.Frames.Binds.{Carries, on_frame-Bind}

abbrev keyring : Keyring
keyring = record {
  mac = toy_hmac;
  gcm = toy;
  keys = source id_one;
  later = source id_one;
  next_nonce = λ n. n;
}

abbrev pub rewriting : Rewriting (Unit {0}) Store
rewriting = record {
  rewrite_sql = λ sql q s. (ok (refuse (codes "no")), q, s);
  transform_at = λ id. encrypting keyring id true;
  hex = libs.hex;
  texts = libs.texts;
  row_key_message = λ index column fault. codes "row key";
  unindexed_message = λ columns. codes "array";
}

abbrev insert_email : Statement (Unit {0})
insert_email = record {
  id = 0;
  params = (0, seal_param 0 (param 1 25 (codes "id"))) ∷ [];
  described = none;
}

abbrev session : QueryRewriter (Unit {0}) Store (Unit {0})
session = record {
  sql = tt;
  keys = record { transforms = λ at. searchable_column; ciphers = cold; nonce = nonce };
  portals = record {
    statements = ([], insert_email) ∷ [];
    portals = [];
    pending = [];
    next_statement_id = 1;
    next_execute_id = 0;
    copy_in = idle;
  };
  tx_status = b'I';
  on_unprotected = reject;
  awaiting_sync = false;
}

abbrev message : BindMessage
message = record {
  portal = [];
  statement = [];
  param_formats = [];
  params = some (codes "hi") ∷ some (codes "7") ∷ [];
  result_formats = 0 ∷ 0 ∷ [];
}

abbrev bind_head : Bytes
bind_head = 0 ∷ 0 ∷ 0 ∷ 0 ∷ 0 ∷ 2 ∷ []

abbrev bind_body : Bytes
bind_body = bind_head ++ (0 ∷ 0 ∷ 0 ∷ 2 ∷ codes "hi" ++ (0 ∷ 0 ∷ 0 ∷ 1 ∷ codes "7" ++ 0 ∷ 0 ∷ []))

-- 98 bytes: the prefix, the index and the envelope of two bytes
abbrev sent_body : Bytes
sent_body =
    bind_head
    ++ (0 ∷ 0 ∷ 0 ∷ 84 ∷ (codes "\\x" ++ stored_index) ++ (0 ∷ 0 ∷ 0 ∷ 1 ∷ codes "7" ++ 0 ∷ 0 ∷ []))

parse-bind_body : parse_bind bind_body ≡ ok message
unfolding parse_bind take_cstr take_i16 take_times take_nullable
parse-bind_body = refl

seals-bind : (on_frame rewriting b'B' bind_body session).0 ≡ ok (replace_body sent_body)
unfolding on_frame handle bind bind_message bind_actions bind_params bind_param param_value
    bind_row_key key_of_param encode_param is_binary hex_text_form value_at set_value encrypting
    seal_value seal active with_budget encrypt seal_with choose aad_with_row toy_encrypt blind_index
    index_key_of compute prepend toy_mac canonical canonical_text value_format parse_bind take_cstr
    take_i16 take_times take_nullable param_format format_code result_format_codes encode_bind
    push_all wire_count Portals.bind check_name room get insert remove contains_key bytes_eq
seals-bind = refl

abbrev sent_values : Values
sent_values = some (codes "\\x" ++ stored_index) ∷ some (codes "7") ∷ []

on_frame-Bind_example :
    (values : Values) × (s : Store) × (key : Option RowKey) × (sealed : Bytes) × Carries message
      sent_body values
    × (bind_row_key rewriting (param 1 25 (codes "id")) message ≡ ok key)
    × (((encrypting keyring 0 true).seal (codes "hi") key s).0 ≡ ok sealed)
    × (value_at values 0
        ≡ some (
            encode_param libs.hex sealed
              (encrypting keyring 0 true).wire
              (is_binary (param_format message 0))))
unfolding get bytes_eq value_at
on_frame-Bind_example =
    on_frame-Bind rewriting bind_body sent_body session message insert_email 0 0
      (param 1 25 (codes "id")) (codes "hi") refl parse-bind_body refl (tt, tt) (Memᴰ.head refl)
      refl seals-bind refl

abbrev refused_session : QueryRewriter (Unit {0}) Store (Unit {0})
refused_session = record session { awaiting_sync = true }

run_discards_example :
    run rewriting ((b'B', bind_body) ∷ (b'E', []) ∷ (b'S', []) ∷ []) refused_session
    ≡ (ok (reply []) ∷ ok (reply []) ∷ ok (reply (ready_for_query b'I')) ∷ [], session)
run_discards_example =
    run_discards rewriting ((b'B', bind_body) ∷ (b'E', []) ∷ []) [] refused_session refl (
      (λ e. absurd (omega arith), λ e. absurd (omega arith)),
      ((λ e. absurd (omega arith), λ e. absurd (omega arith)), tt),
    )
