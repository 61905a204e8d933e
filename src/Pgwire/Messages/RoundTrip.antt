-- ===== src/Pgwire/Messages/RoundTrip.antt =====
-- Parse and Bind bodies of crates/pgwire/src/lib.rs: encoding, then parsing.
use dbsec.Prelude.{
  ◌^◌, ◌<◌, ◌≡◌, ◌↔◌, refl, ap, List, [], ◌∷◌, ◌++◌, append_assoc, length, Result, ok, Bytes, All,
  be16, be_i16, IsI16, ℤ,
}
use dbsec.Pgwire.{Error}
use dbsec.Pgwire.Cursor.{take_i16, take_nullable, push_all, wire_count}
use dbsec.Pgwire.Cursor.Laws.{
  Reads, Reads-bind, Reads-map, Reads-take_times, take_i16-be16, take_i16-be_i16, take_cstr-append,
  flat_map, HasNoNul, FitsI32, nullable_bytes, take_nullable-nullable_bytes, push_all-eq-ok,
  push_all-FitsI32, wire_count-eq-ok,
}
use dbsec.Pgwire.Messages.{BindHead, parse_message, parse_parse, bind_head, parse_bind}
use dbsec.Pgwire.Messages.Encode.{encode_parse, encode_bind, formats_bytes}
use dbsec.Prelude.{>>=-eq-ok}

Reads-parse_message :
    (s q : Bytes)
    → HasNoNul s
    → HasNoNul q
    → Reads parse_message ((s ++ 0 ∷ []) ++ (q ++ 0 ∷ [])) (s, q)
unfolding parse_message
Reads-parse_message s q hs hq =
    Reads-bind _ (take_cstr-append s hs) (Reads-map (λ t. (s, t)) (take_cstr-append q hq))

-- A Parse body whose statement name and query hold no NUL byte parses to what was encoded, the
-- parameter types untouched.
pub parse_parse-encode_parse :
    (s q types : Bytes)
    → HasNoNul s
    → HasNoNul q
    → parse_parse (encode_parse s q types)
      ≡ ok (record { statement = s; query = q; param_types = types })
unfolding parse_parse encode_parse
parse_parse-encode_parse s q types hs hq =
    let bytes : s ++ (0 ∷ (q ++ (0 ∷ types))) ≡ ((s ++ 0 ∷ []) ++ (q ++ 0 ∷ [])) ++ types =
      simp append_assoc in
    rw (bytes, parse_parse, (Reads-parse_message s q hs hq).at types)

-- The bytes of a Bind body in front of the result formats.
abbrev pub bind_bytes : BindHead → Bytes
bind_bytes b =
    (b.portal ++ 0 ∷ [])
    ++ ((b.statement ++ 0 ∷ [])
        ++ (be16 (length b.param_formats)
            ++ (flat_map be_i16 b.param_formats
                ++ (be16 (length b.params) ++ flat_map nullable_bytes b.params))))

-- The counts and lengths of a Bind fit their wire fields.
pub record FitsBind (b : BindHead) : Type 0 where
  pub formats_fit : length b.param_formats < 2 ^ 15
  pub params_fit : length b.params < 2 ^ 15
  pub values_fit : All FitsI32 b.params

pub record IsBindHead (b : BindHead) : Type 0 where
  pub portal_has_no_nul : HasNoNul b.portal
  pub statement_has_no_nul : HasNoNul b.statement
  pub formats_are_i16 : All IsI16 b.param_formats

abbrev pub encode : BindHead → Bytes → Result Error Bytes
encode b result_formats = encode_bind b.portal b.statement b.param_formats b.params result_formats

Reads-bind_head : (b : BindHead) → FitsBind b → IsBindHead b → Reads bind_head (bind_bytes b) b
unfolding bind_head
Reads-bind_head b f h = Reads-bind _ (take_cstr-append b.portal h.portal_has_no_nul) (
    Reads-bind _ (take_cstr-append b.statement h.statement_has_no_nul) (
      Reads-bind _ (take_i16-be16 (length b.param_formats) f.formats_fit) (
        Reads-bind _
          (Reads-take_times take_i16 be_i16 IsI16 take_i16-be_i16 b.param_formats h.formats_are_i16)
          (Reads-bind _ (take_i16-be16 (length b.params) f.params_fit) (
            Reads-map _ (
              Reads-take_times take_nullable nullable_bytes FitsI32 take_nullable-nullable_bytes
                b.params f.values_fit))))))

formats_bytes-flat_map : (fs : List ℤ) → formats_bytes fs ≡ flat_map be_i16 fs
formats_bytes-flat_map [] = refl
formats_bytes-flat_map (f ∷ fs) = ap (λ (m : Bytes). be_i16 f ++ m) (formats_bytes-flat_map fs)

names_bytes :
    (b : BindHead) (rest : Bytes)
    → (((b.portal ++ (0 ∷ (b.statement ++ (0 ∷ []))))
            ++ ((be16 (length b.param_formats) ++ formats_bytes b.param_formats)
                ++ be16 (length b.params)))
          ++ flat_map nullable_bytes b.params)
        ++ rest
      ≡ bind_bytes b ++ rest
names_bytes b rest = rw formats_bytes-flat_map (simp append_assoc)

encode-FitsBind :
    (b : BindHead) (rest : Bytes) → FitsBind b → encode b rest ≡ ok (bind_bytes b ++ rest)
unfolding encode_bind
encode-FitsBind b rest f =
    rw
      (
        (wire_count-eq-ok (length b.param_formats) (length b.param_formats)).1
            (f.formats_fit, refl),
        (wire_count-eq-ok (length b.params) (length b.params)).1 (f.params_fit, refl),
        push_all-FitsI32 _ b.params f.values_fit,
      )
      (ap ok (names_bytes b rest))

FitsBind-encode :
    (b : BindHead) (rest : Bytes) {body : Bytes} → encode b rest ≡ ok body → FitsBind b
unfolding encode_bind
FitsBind-encode b rest h =
    let (n, e₁, h₁) = >>=-eq-ok (wire_count (length b.param_formats)) _ h in
    let (m, e₂, h₂) = >>=-eq-ok (wire_count (length b.params)) _ h₁ in
    let (out, e₃, h₃) = >>=-eq-ok (push_all _ b.params) _ h₂ in
    record {
      formats_fit = ((wire_count-eq-ok _ n).0 e₁).0;
      params_fit = ((wire_count-eq-ok _ m).0 e₂).0;
      values_fit = push_all-eq-ok _ b.params e₃;
    }

-- A Bind is encoded exactly when its counts fit an i16 and its values' lengths an i32; the body is
-- then the head's bytes with the raw result-format section behind them.
pub encode_bind-eq-ok :
    (b : BindHead) (rest body : Bytes)
    → (encode b rest ≡ ok body) ↔ (FitsBind b × (body ≡ bind_bytes b ++ rest))
encode_bind-eq-ok b rest body = (
  λ h. let fits = FitsBind-encode b rest h in (fits, cc (h, encode-FitsBind b rest fits)),
  λ h. rw h.1 (encode-FitsBind b rest h.0),
)

-- A Bind body that was encoded, from names with no NUL byte and i16 formats, parses to the portal,
-- statement, formats and parameters that were encoded, the result-format section untouched.
pub parse_bind-encode_bind :
    (b : BindHead) (rest : Bytes) {body : Bytes}
    → IsBindHead b
    → encode b rest ≡ ok body
    → parse_bind body
      ≡ ok (record {
        portal = b.portal;
        statement = b.statement;
        param_formats = b.param_formats;
        params = b.params;
        result_formats = rest;
      })
unfolding parse_bind
parse_bind-encode_bind b rest {body} h e =
    let (fits, bytes) = (encode_bind-eq-ok b rest body).0 e in
    rw (bytes, parse_bind, (Reads-bind_head b fits h).at rest)
