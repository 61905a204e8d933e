-- ===== src/Proxy/Lexer/Spliced.antt =====
-- `reassemble` of crates/proxy/src/encrypt/lexer.rs against an abstract description: a query is a
-- row of statements with the text between them, and only the statements that changed are replaced.
use dbsec.Prelude.{
  ℕ, zero, suc, ◌+◌, ◌-◌, ◌≤◌, ◌≡◌, Bool, true, false, some, List, [], ◌∷◌, ◌++◌, length, take,
  drop, take-append-drop, Result, ok, ◌>>=◌, Bytes, arith, refl, sym, ap, ◌∙◌, ==_iff,
}
use dbsec.Proxy.{Error}
use dbsec.Proxy.Lexer.{Range, slice, statement_ranges}
use dbsec.Proxy.Lexer.Ranges.{Ordered, statement_ranges-Ordered}
use dbsec.Proxy.Lexer.Reassembly.{Sqlparser, render_validated, text_of, splice, aligned, reassemble}

-- A statement's text, and the text between it and the statement in front.
pub record Segment : Type 0 where
  pub gap : Bytes
  pub text : Bytes

pub record Query : Type 0 where
  pub segments : List Segment
  pub rest : Bytes

-- the text of a query
abbrev pub joined : List Segment → Bytes → Bytes
joined [] rest = rest
joined (g ∷ segments) rest = g.gap ++ (g.text ++ joined segments rest)

abbrev segments_from : Bytes → ℕ → List Range → List Segment
segments_from sql cursor [] = []
segments_from sql cursor (r ∷ ranges) =
    record { gap = slice sql cursor r.start; text = slice sql r.start r.stop }
    ∷ segments_from sql r.stop ranges

abbrev end_from : ℕ → List Range → ℕ
end_from cursor [] = cursor
end_from cursor (r ∷ ranges) = end_from r.stop ranges

-- a query cut at the ranges of its statements
abbrev pub cut : Bytes → List Range → Query
cut sql ranges = record {
  segments = segments_from sql 0 ranges;
  rest = drop (end_from 0 ranges) sql;
}

drop-nil : (n : ℕ) → ◌≡◌ {A = Bytes} (drop n []) []
drop-nil zero = refl
drop-nil (suc n) = refl

drop-drop : (n m : ℕ) (xs : Bytes) → drop m (drop n xs) ≡ drop (n + m) xs
drop-drop zero m xs = ap (λ n. drop n xs) (omega arith)
drop-drop (suc n) m [] = drop-nil m ∙ sym (drop-nil (suc n + m))
drop-drop (suc n) m (x ∷ xs) =
    let moved : suc (n + m) ≡ suc n + m = omega arith in
    drop-drop n m xs ∙ ap (λ k. drop k (x ∷ xs)) moved

slice-append-drop :
    (sql : Bytes) (start stop : ℕ)
    → start ≤ stop
    → slice sql start stop ++ drop stop sql ≡ drop start sql
unfolding slice
slice-append-drop sql start stop l =
    let at_stop : start + (stop - start) ≡ stop = omega arith in
    ap (◌++◌ (take (stop - start) (drop start sql)))
      (ap (λ n. drop n sql) (sym at_stop) ∙ sym (drop-drop start (stop - start) sql))
    ∙ take-append-drop (stop - start) (drop start sql)

joined-segments_from :
    (sql : Bytes) (cursor : ℕ) (ranges : List Range) (high : ℕ)
    → Ordered cursor ranges high
    → joined (segments_from sql cursor ranges) (drop (end_from cursor ranges) sql) ≡ drop cursor sql
joined-segments_from sql cursor [] high h = refl
joined-segments_from sql cursor (r ∷ ranges) high h =
    ap (λ t. slice sql cursor r.start ++ (slice sql r.start r.stop ++ t))
      (joined-segments_from sql r.stop ranges high h.2)
    ∙ ap (◌++◌ (slice sql cursor r.start)) (slice-append-drop sql r.start r.stop (omega (arith, h)))
    ∙ slice-append-drop sql cursor r.start h.0

module _ {Statement Tokens Fault : Type 0} (sqlparser : Sqlparser Statement Tokens Fault) where
  -- The abstract edit: each statement that changed is replaced by its rendering, if that is one.
  abbrev pub edited : List Segment → Bytes → List Statement → List Bool → Result Error Bytes
  edited (g ∷ segments) rest (s ∷ statements) (true ∷ changed) = do
    text ← render_validated sqlparser s
    later ← edited segments rest statements changed
    ok (g.gap ++ (text ++ later))
  edited (g ∷ segments) rest (s ∷ statements) (false ∷ changed) = do
    later ← edited segments rest statements changed
    ok (g.gap ++ (g.text ++ later))
  edited segments rest statements changed = ok (joined segments rest)

  splice-edited :
      (sql : Bytes) (cursor : ℕ) (ranges : List Range) (statements : List Statement)
      (changed : List Bool) (high : ℕ)
      → Ordered cursor ranges high
      → splice sqlparser sql cursor ranges statements changed
        ≡ edited
            (segments_from sql cursor ranges)
            (drop (end_from cursor ranges) sql)
            statements
            changed
  unfolding splice text_of
  splice-edited sql cursor [] statements changed high h = refl
  splice-edited sql cursor (r ∷ ranges) [] changed high h =
      ap ok (sym (joined-segments_from sql cursor (r ∷ ranges) high h))
  splice-edited sql cursor (r ∷ ranges) (s ∷ statements) [] high h =
      ap ok (sym (joined-segments_from sql cursor (r ∷ ranges) high h))
  splice-edited sql cursor (r ∷ ranges) (s ∷ statements) (true ∷ changed) high h =
      rw (splice-edited sql r.stop ranges statements changed high h.2) refl
  splice-edited sql cursor (r ∷ ranges) (s ∷ statements) (false ∷ changed) high h =
      rw (splice-edited sql r.stop ranges statements changed high h.2) refl

  -- A query whose ranges are as many as its statements is the text that its segments, cut at the
  -- ranges, join to, and `reassemble` is the abstract edit of them: the text between the statements
  -- and each statement that did not change stay byte for byte, and one that changed is replaced by
  -- its validated rendering, or the query fails with its error.
  pub reassemble-refines :
      (sql : Bytes) (statements : List Statement) (changed : List Bool) {ranges : List Range}
      → statement_ranges sql ≡ some ranges
      → length ranges ≡ length statements
      → (joined (cut sql ranges).segments (cut sql ranges).rest ≡ sql)
        × (reassemble sqlparser sql statements changed
            ≡ edited (cut sql ranges).segments (cut sql ranges).rest statements changed)
  unfolding reassemble aligned
  reassemble-refines sql statements changed {ranges} e l =
      let h = statement_ranges-Ordered sql e in
      let same = (==_iff (length ranges) (length statements)).1 l in
      (
        joined-segments_from sql 0 ranges (length sql) h,
        rw (reassemble, aligned, e, same)
            (splice-edited sql 0 ranges statements changed (length sql) h),
      )
