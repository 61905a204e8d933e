-- ===== src/Proxy/Lexer/Reassembly.antt =====
-- `reassemble`, `render_validated` and the parsing functions of crates/proxy/src/encrypt/lexer.rs.
-- What sqlparser does with a text is a parameter.
use dbsec.Prelude.{
  ℕ, Bool, true, false, Option, none, some, List, [], ◌∷◌, ◌++◌, ◌==◌, if◌then◌else◌, length, drop,
  Result, ok, err, ◌>>=◌, Bytes, codes,
}
use dbsec.Proxy.{Error, rewrite_diverged}
use dbsec.Proxy.Lexer.{Range, slice, statement_ranges}

-- sqlparser, with the PostgreSQL dialect: its statements, tokens and errors.
pub record Sqlparser (Statement Tokens Fault : Type 0) : Type 0 where
  pub to_string : Statement → Bytes
  pub tokenize_with_location : Bytes → Result Fault Tokens
  pub parse_statements : Tokens → Result Fault (List Statement)
  pub parse_text : Bytes → Result Fault (List Statement)
  pub same_statement : Statement → Statement → Bool

-- `Vec::join("; ")`
unfoldable pub join_statements : List Bytes → Bytes
join_statements [] = []
join_statements (t ∷ []) = t
join_statements (t ∷ u ∷ ts) = t ++ (codes "; " ++ join_statements (u ∷ ts))

module _ {Statement Tokens Fault : Type 0} (sqlparser : Sqlparser Statement Tokens Fault) where
  -- Where the tokens do not parse, the text with a `;` behind it may.
  unfoldable pub parse_tokens : Tokens → Bytes → Result Fault (List Statement)
  parse_tokens tokens text = elim (sqlparser.parse_statements tokens) [
    | ok statements ↦ ok statements
    | err fault ↦ elim (sqlparser.parse_text (text ++ codes ";")) [
      | ok statements ↦ ok statements
      | err _ ↦ err fault
    ]
  ]

  unfoldable pub parse_sql : Bytes → Result Fault (List Statement)
  unfolding parse_tokens
  parse_sql text = sqlparser.tokenize_with_location text >>= λ tokens. parse_tokens tokens text

  unfoldable pub only_is : Statement → List Statement → Bool
  only_is statement [] = false
  only_is statement (s ∷ []) = sqlparser.same_statement s statement
  only_is statement (s ∷ t ∷ ss) = false

  unfoldable pub render_validated : Statement → Result Error Bytes
  unfolding only_is
  render_validated statement = elim (parse_sql (sqlparser.to_string statement)) [
    | ok reparsed ↦
        if only_is statement reparsed
        then ok (sqlparser.to_string statement)
        else err rewrite_diverged
    | err _ ↦ err rewrite_diverged
  ]

  render_all : List Statement → Result Error (List Bytes)
  render_all [] = ok []
  render_all (s ∷ ss) = render_validated s >>= λ text. render_all ss >>= λ texts. ok (text ∷ texts)

  -- a statement's text: rendered if it changed, else as the client wrote it
  unfoldable pub text_of : Bytes → Range → Statement → Bool → Result Error Bytes
  unfolding slice
  text_of sql range statement true = render_validated statement
  text_of sql range statement false = ok (slice sql range.start range.stop)

  -- The loop over the zipped lists: what is put behind `cursor`.
  unfoldable pub splice : Bytes → ℕ → List Range → List Statement → List Bool → Result Error Bytes
  unfolding text_of
  splice sql cursor (r ∷ ranges) (s ∷ statements) (c ∷ changed) = do
    text ← text_of sql r s c
    rest ← splice sql r.stop ranges statements changed
    ok (slice sql cursor r.start ++ (text ++ rest))
  splice sql cursor ranges statements changed = ok (drop cursor sql)

  -- the ranges, if there is one for each statement
  unfoldable pub aligned : Bytes → ℕ → Option (List Range)
  aligned sql count = elim (statement_ranges sql) [
    | none ↦ none
    | some ranges ↦ if length ranges == count then some ranges else none
  ]

  unfoldable pub reassemble : Bytes → List Statement → List Bool → Result Error Bytes
  unfolding aligned render_all join_statements splice
  reassemble sql statements changed = elim (aligned sql (length statements)) [
    | none ↦ render_all statements >>= λ texts. ok (join_statements texts)
    | some ranges ↦ splice sql 0 ranges statements changed
  ]
