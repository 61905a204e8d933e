-- ===== src/Pgwire/Messages.antt =====
-- Parse and Bind: `parse_parse`, `parse_bind` and the format codes; what encodes them is in
-- `Encode`.
pub mod Encode
pub mod RoundTrip
pub mod Formats
mod Tests
use dbsec.Prelude.{
  ℕ, Option, none, some, List, [], ◌∷◌, ◌++◌, length, get_elem?, Result, ok, err, Bytes, be16,
  be_i16, ℤ, pos,
}
use dbsec.Pgwire.{Error}
use dbsec.Pgwire.Cursor.{
  Cursor, take_cstr, take_i16, take_nullable, take_times, rounds, push_all, wire_count, pure, ◌>>=◌,
}

pub record ParseMessage : Type 0 where
  pub statement : Bytes
  pub query : Bytes
  pub param_types : Bytes

parse_message : Cursor (Bytes × Bytes)
parse_message = do statement ← take_cstr; query ← take_cstr; pure (statement, query)

pub parse_parse : Bytes → Result Error ParseMessage
unfolding parse_message
parse_parse body = elim (parse_message body) [
  | ok ((statement, query), rest) ↦
      ok (record { statement = statement; query = query; param_types = rest })
  | err e ↦ err e
]

pub record BindMessage : Type 0 where
  pub portal : Bytes
  pub statement : Bytes
  pub param_formats : List ℤ
  pub params : List (Option Bytes)
  pub result_formats : Bytes

-- What `parse_bind` reads before the section that it keeps raw.
pub record BindHead : Type 0 where
  pub portal : Bytes
  pub statement : Bytes
  pub param_formats : List ℤ
  pub params : List (Option Bytes)

bind_head : Cursor BindHead
bind_head = do
  portal ← take_cstr
  statement ← take_cstr
  format_count ← take_i16
  param_formats ← take_times (rounds format_count) take_i16
  param_count ← take_i16
  params ← take_times (rounds param_count) take_nullable
  pure (record {
    portal = portal;
    statement = statement;
    param_formats = param_formats;
    params = params;
  })

unfoldable pub parse_bind : Bytes → Result Error BindMessage
unfolding bind_head
parse_bind body = elim (bind_head body) [
  | ok (head, rest) ↦ ok (record {
    portal = head.portal;
    statement = head.statement;
    param_formats = head.param_formats;
    params = head.params;
    result_formats = rest;
  })
  | err e ↦ err e
]

-- The shorthand of a format-code section: none for all text, one for all, or one for each value.
unfoldable pub format_code : List ℤ → ℕ → ℤ
format_code [] index = pos 0
format_code (only ∷ []) index = only
format_code (c ∷ d ∷ codes) index = elim (get_elem? (c ∷ d ∷ codes) index) [
  | none ↦ pos 0
  | some code ↦ code
]

unfoldable pub param_format : BindMessage → ℕ → ℤ
unfolding format_code
param_format m index = format_code m.param_formats index

codes_section : Cursor (List ℤ)
codes_section = do count ← take_i16; take_times (rounds count) take_i16

-- The bytes behind the codes are not looked at.
unfoldable pub result_format_codes : BindMessage → Result Error (List ℤ)
unfolding codes_section
result_format_codes m = elim (codes_section m.result_formats) [
  | ok (codes, rest) ↦ ok codes
  | err e ↦ err e
]
