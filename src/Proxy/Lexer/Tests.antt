-- ===== src/Proxy/Lexer/Tests.antt =====
-- The statement lexer at concrete texts, those of its own tests among them.
use dbsec.Prelude.{
  ◌≡◌, refl, Option, none, some, [], ◌∷◌, codes, Bytes, List, ok, bytes_eq, bytes_eq_iff, true,
  false, starts_with,
}
use dbsec.Proxy.Lexer.{
  Range, Scan, statement_ranges, closed, scan, move, skip_quoted, next_is, skip_dollar_quoted,
  skip_block_comment, line_end, position_of, push_statement, round, from_start,
}
use dbsec.Proxy.Lexer.Ends.{Ends, statement_ranges-Ends}
use dbsec.Proxy.Lexer.Reassembly.{
  Sqlparser, parse_sql, parse_tokens, render_validated, only_is, text_of, splice, aligned,
  reassemble,
}
use dbsec.Proxy.Lexer.Spliced.{joined, cut, edited, reassemble-refines}
use dbsec.Proxy.Lexer.Sent.{Sent, reassemble-Sent}
use dbsec.Proxy.Lexer.White.{trim, trim_start, trim_end}

-- SELECT ';', ";", $q$;$q$, E'\'; ' /* ; */ -- ;(newline); SELECT 2
abbrev hiding : Bytes
hiding = codes "SELECT ';', \";\", $q$;$q$, E'\\'; ' /* ; */ -- ;\n; SELECT 2"

ranges_of_hiding :
    statement_ranges hiding
    ≡ some (record { start = 0; stop = 46 } ∷ record { start = 49; stop = 57 } ∷ [])
unfolding statement_ranges closed scan trim trim_start trim_end starts_with move skip_quoted next_is
    skip_dollar_quoted skip_block_comment line_end position_of push_statement round
ranges_of_hiding = refl

unterminated : statement_ranges (codes "SELECT 1 /* oops") ≡ none
unfolding statement_ranges closed scan trim trim_start trim_end starts_with move skip_quoted next_is
    skip_dollar_quoted skip_block_comment line_end position_of push_statement round
unterminated = refl

ranges_of_tagged :
    statement_ranges (codes "SELECT $tag1$a;b$tag1$") ≡ some (record { start = 0; stop = 22 } ∷ [])
unfolding statement_ranges closed scan trim trim_start trim_end starts_with move skip_quoted next_is
    skip_dollar_quoted skip_block_comment line_end position_of push_statement round
ranges_of_tagged = refl

ranges_of_placeholders :
    statement_ranges (codes "SELECT $1 AND $2; SELECT 2")
    ≡ some (record { start = 0; stop = 16 } ∷ record { start = 18; stop = 26 } ∷ [])
unfolding statement_ranges closed scan trim trim_start trim_end starts_with move skip_quoted next_is
    skip_dollar_quoted skip_block_comment line_end position_of push_statement round
ranges_of_placeholders = refl

-- A parser for which every text is one statement, and a query whose second statement changed.
abbrev sqlparser : Sqlparser Bytes Bytes (Unit {0})
sqlparser = record {
  to_string = λ s. s;
  tokenize_with_location = λ t. ok t;
  parse_statements = λ t. ok (t ∷ []);
  parse_text = λ t. ok (t ∷ []);
  same_statement = bytes_eq;
}

abbrev two : Bytes
two = codes "/* a */ SELECT 1 ;\n SELECT 2;"

abbrev statements : List Bytes
statements = codes "SELECT 1" ∷ codes "SELECT 3" ∷ []

abbrev ranges : List Range
ranges = record { start = 0; stop = 16 } ∷ record { start = 20; stop = 28 } ∷ []

ranges_of_two : statement_ranges two ≡ some ranges
unfolding statement_ranges closed scan trim trim_start trim_end starts_with move skip_quoted next_is
    skip_dollar_quoted skip_block_comment line_end position_of push_statement round
ranges_of_two = refl

sent_for_two :
    reassemble sqlparser two statements (false ∷ true ∷ [])
    ≡ ok (codes "/* a */ SELECT 1 ;\n SELECT 3;")
unfolding reassemble aligned splice text_of render_validated only_is parse_sql parse_tokens bytes_eq
sent_for_two = rw (reassemble, aligned, ranges_of_two) refl

statement_ranges-Ends_example :
    (o : Option Scan) × Ends two from_start o × (statement_ranges two ≡ closed two o)
statement_ranges-Ends_example = statement_ranges-Ends two

reassemble-refines_example :
    (joined (cut two ranges).segments (cut two ranges).rest ≡ two)
    × (reassemble sqlparser two statements (false ∷ true ∷ [])
        ≡ edited sqlparser
            (cut two ranges).segments
            (cut two ranges).rest
            statements
            (false ∷ true ∷ []))
reassemble-refines_example =
    reassemble-refines sqlparser two statements (false ∷ true ∷ []) ranges_of_two refl

reassemble-Sent_example :
    Sent sqlparser
      (cut two ranges).segments
      (cut two ranges).rest
      statements
      (false ∷ true ∷ [])
      (codes "/* a */ SELECT 1 ;\n SELECT 3;")
reassemble-Sent_example =
    reassemble-Sent sqlparser (λ s t. (bytes_eq_iff s t).0) two statements (false ∷ true ∷ [])
      ranges_of_two refl sent_for_two
