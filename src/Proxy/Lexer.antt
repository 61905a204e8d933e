-- ===== src/Proxy/Lexer.antt =====
-- crates/proxy/src/encrypt/lexer.rs: the text of a query is split at its statements, and put
-- together again around the ones that were rewritten. A position is a byte index; what is behind it
-- is the bytes from there on. sqlparser is a parameter.
pub mod Reassembly
pub mod Skips
pub mod Ranges
pub mod Ends
pub mod Spliced
pub mod Sent
mod White
mod Tests
use dbsec.Prelude.{
  is_empty, ℕ, zero, suc, ◌+◌, ◌-◌, Bool, true, false, not, ◌&&◌, ◌||◌, Option, none, some, List,
  [], ◌∷◌, ◌++◌, ◌==◌, leb, ltb, if◌then◌else◌, length, take, drop, get_elem?, Result, ok, err,
  ◌>>=◌, Bytes, starts_with,
}
use dbsec.Proxy.Lexer.White.{trim, trim_start}

unfoldable pub is_ident_byte : ℕ → Bool
is_ident_byte b =
    (leb b'0' b && leb b b'9')
    || ((leb b'a' b && leb b b'z') || ((leb b'A' b && leb b b'Z') || b == b'_'))

-- `&text[start..stop]`
unfoldable pub slice : Bytes → ℕ → ℕ → Bytes
slice text start stop = take (stop - start) (drop start text)

is_escape_letter : Option ℕ → Bool
is_escape_letter none = false
is_escape_letter (some b) = b == b'e' || b == b'E'

not_identifier : Option ℕ → Bool
unfolding is_ident_byte
not_identifier none = true
not_identifier (some b) = not (is_ident_byte b)

-- A quoted string with an E in front, of which no identifier is a part.
unfoldable pub backslash_escapes : Bytes → ℕ → ℕ → Bool
unfolding is_escape_letter not_identifier
backslash_escapes text quote start =
    (quote == b'\'' && ltb 0 start)
    && (is_escape_letter (get_elem? text (start - 1))
        && (start == 1 || not_identifier (get_elem? text (start - 2))))

-- the position behind the closing quote, for the bytes behind the position `at`
unfoldable pub quoted_end : ℕ → Bool → ℕ → Bytes → Option ℕ
quoted_end quote escapes at [] = none
quoted_end quote escapes at (b ∷ []) =
    if b == b'\\' && escapes then none else if b == quote then some (at + 1) else none
quoted_end quote escapes at (b ∷ c ∷ bs) =
    let two = quoted_end quote escapes (at + 2) bs in
    let one = quoted_end quote escapes (at + 1) (c ∷ bs) in
    if b == b'\\' && escapes
    then two
    else if b == quote
    then if c == quote then two else some (at + 1)
    else one

unfoldable pub skip_quoted : Bytes → ℕ → ℕ → Option ℕ
unfolding backslash_escapes quoted_end
skip_quoted text quote start =
    quoted_end quote (backslash_escapes text quote start) (start + 1) (drop (start + 1) text)

all_tag_bytes : Bytes → Bool
unfolding is_ident_byte
all_tag_bytes [] = true
all_tag_bytes (b ∷ bs) = (is_ident_byte b || leb 128 b) && all_tag_bytes bs

unfoldable pub is_dollar_tag : Bytes → Bool
unfolding all_tag_bytes
is_dollar_tag [] = true
is_dollar_tag (b ∷ bs) = not (leb b'0' b && leb b b'9') && all_tag_bytes (b ∷ bs)

-- `position`
unfoldable pub position_of : ℕ → Bytes → Option ℕ
position_of byte [] = none
position_of byte (b ∷ bs) =
    if b == byte then some 0 else elim (position_of byte bs) [ none ↦ none | some n ↦ some (n + 1) ]

-- the position behind the closing tag
unfoldable pub body_end : Bytes → ℕ → Bytes → Option ℕ
body_end tag at [] = none
body_end tag at (b ∷ bs) =
    let later = body_end tag (at + 1) bs in
    if starts_with (b ∷ bs) tag then some (at + length tag) else later

-- the length of the tag between the two dollar signs, if one opens a body
tag_length : Bytes → Option ℕ
unfolding position_of is_dollar_tag
tag_length behind = elim (position_of b'$' behind) [
  | none ↦ none
  | some n ↦ if is_dollar_tag (take n behind) then some n else none
]

unfoldable pub skip_dollar_quoted : Bytes → ℕ → Option ℕ
unfolding tag_length body_end
skip_dollar_quoted text start = elim (tag_length (drop (start + 1) text)) [
  | none ↦ some (start + 1)
  | some n ↦ body_end (slice text start (start + n + 2)) (start + n + 2) (drop (start + n + 2) text)
]

-- the position behind the comment; it starts with the opening mark, so the depth is never 0 at a
-- closing one
unfoldable pub comment_end : ℕ → ℕ → Bytes → Option ℕ
comment_end depth at [] = none
comment_end depth at (b ∷ []) = none
comment_end depth at (b ∷ c ∷ bs) =
    let nested = comment_end (depth + 1) (at + 2) bs in
    let closed = comment_end (depth - 1) (at + 2) bs in
    let one = comment_end depth (at + 1) (c ∷ bs) in
    if b == b'/' && c == b'*'
    then nested
    else if b == b'*' && c == b'/'
    then if depth - 1 == 0 then some (at + 2) else closed
    else one

unfoldable pub skip_block_comment : Bytes → ℕ → Option ℕ
unfolding comment_end
skip_block_comment text start = comment_end 0 start (drop start text)

-- `Range<usize>`
pub record Range : Type 0 where
  pub start : ℕ
  pub stop : ℕ

unfoldable pub push_statement : List Range → Bytes → ℕ → ℕ → List Range
unfolding slice
push_statement ranges sql start stop =
    let text = slice sql start stop in
    let from = start + (length text - length (trim_start text)) in
    if is_empty (trim text)
    then ranges
    else ranges ++ record { start = from; stop = from + length (trim text) } ∷ []

-- the ranges so far, where the statement starts, and the position in it
pub record Scan : Type 0 where
  pub ranges : List Range
  pub start : ℕ
  pub at : ℕ

unfoldable pub move : Scan → Option ℕ → Option Scan
move s none = none
move s (some at) = some (record s { at = at })

unfoldable pub line_end : ℕ → Option ℕ → ℕ → ℕ
line_end at none stop = stop
line_end at (some n) stop = at + n

unfoldable pub next_is : ℕ → Bytes → Bool
next_is byte [] = false
next_is byte (b ∷ bs) = b == byte

-- One round of the loop, at the byte `b` with `rest` behind it.
unfoldable pub round : Bytes → Scan → ℕ → Bytes → Option Scan
round sql s b rest =
    if b == b'\'' || b == b'"'
    then move s (skip_quoted sql b s.at)
    else if b == b'$'
    then move s (skip_dollar_quoted sql s.at)
    else if b == b'-' && next_is b'-' rest
    then move s (some (line_end s.at (position_of b'\n' (b ∷ rest)) (length sql)))
    else if b == b'/' && next_is b'*' rest
    then move s (skip_block_comment sql s.at)
    else if b == b';'
    then some (record {
      ranges = push_statement s.ranges sql s.start s.at;
      start = s.at + 1;
      at = s.at + 1;
    })
    else move s (some (s.at + 1))

-- The loop, on fuel: each round moves on, so one more than the length of the text is enough.
unfoldable pub scan : Bytes → ℕ → Scan → Option Scan
unfolding round
scan sql zero s = none
scan sql (suc fuel) s = elim (drop s.at sql) [
  | [] ↦ some s
  | b ∷ rest ↦ elim (round sql s b rest) [ none ↦ none | some t ↦ scan sql fuel t ]
]

-- the last statement ends with the text
unfoldable pub closed : Bytes → Option Scan → Option (List Range)
unfolding push_statement
closed sql none = none
closed sql (some s) = some (push_statement s.ranges sql s.start (length sql))

abbrev pub from_start : Scan
from_start = record { ranges = []; start = 0; at = 0 }

unfoldable pub statement_ranges : Bytes → Option (List Range)
unfolding scan closed
statement_ranges sql = closed sql (scan sql (suc (length sql)) from_start)
