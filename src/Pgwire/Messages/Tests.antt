-- ===== src/Pgwire/Messages/Tests.antt =====
-- Runs of the message parsers, and the theorems on them at concrete messages.
use dbsec.Prelude.{◌≡◌, refl, none, some, [], ◌∷◌, arith, ok, err, Bytes, codes, pos}
use dbsec.Pgwire.{malformed_backend}
use dbsec.Pgwire.Cursor.{take_cstr, take_i16, take_times, take_nullable, push_all, wire_count}
use dbsec.Pgwire.Messages.{BindMessage, BindHead, parse_parse, parse_bind}
use dbsec.Pgwire.Messages.Encode.{encode_bind}
use dbsec.Pgwire.Messages.RoundTrip.{encode, parse_bind-encode_bind}

abbrev head : BindHead
head = record {
  portal = codes "p";
  statement = codes "s";
  param_formats = pos 1 ∷ [];
  params = some (codes "a") ∷ none ∷ [];
}

abbrev body : Bytes
body =
    b'p' ∷ 0 ∷ b's' ∷ 0 ∷ 0 ∷ 1 ∷ 0 ∷ 1 ∷ 0 ∷ 2 ∷ 0 ∷ 0 ∷ 0 ∷ 1 ∷ b'a' ∷ 255 ∷ 255 ∷ 255 ∷ 255 ∷ 0
    ∷ 0 ∷ []

encode-head : encode head (0 ∷ 0 ∷ []) ≡ ok body
unfolding encode_bind push_all wire_count
encode-head = refl

parse_refuses :
    (parse_parse (codes "no terminator") ≡ err malformed_backend)
    × (parse_bind (b'p' ∷ 0 ∷ b's' ∷ 0 ∷ 0 ∷ 1 ∷ []) ≡ err malformed_backend)
unfolding parse_parse parse_bind take_cstr take_i16 take_times take_nullable
parse_refuses = (refl, refl)

parse_bind-encode_bind_example :
    parse_bind body
    ≡ ok (record {
      portal = codes "p";
      statement = codes "s";
      param_formats = pos 1 ∷ [];
      params = some (codes "a") ∷ none ∷ [];
      result_formats = 0 ∷ 0 ∷ [];
    })
parse_bind-encode_bind_example =
    parse_bind-encode_bind head (0 ∷ 0 ∷ [])
      (record {
        portal_has_no_nul = omega arith;
        statement_has_no_nul = omega arith;
        formats_are_i16 = omega arith;
      })
      encode-head

abbrev bound : BindMessage
bound = record {
  portal = [];
  statement = [];
  param_formats = [];
  params = [];
  result_formats = 0 ∷ 1 ∷ 0 ∷ 1 ∷ 9 ∷ [];
}
