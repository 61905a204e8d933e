-- ===== src/Proxy/Lexer/Ranges.antt =====
-- `statement_ranges` of crates/proxy/src/encrypt/lexer.rs: the ranges lie in the text in their
-- order.
use dbsec.Prelude.{
  is_empty, ℕ, zero, suc, ◌+◌, ◌-◌, ◌≤◌, ◌<◌, ◌≡◌, false, ◌&&◌, ◌||◌, Option, none, some, List, [],
  ◌∷◌, ◌++◌, ◌==◌, length, length-take, length-drop, drop, Bytes, arith, inl, inr, Bool-cases,
  Option-cases, List-cases, subst, some-injective,
}
use dbsec.Proxy.Lexer.White.{trim, length-trim, length-trim_start}
use dbsec.Proxy.Lexer.Skips.{
  Within, skip_quoted-Moves, skip_dollar_quoted-Moves, skip_block_comment-Moves, line_end-Moves,
}
use dbsec.Proxy.Lexer.{
  Range, slice, skip_quoted, position_of, skip_dollar_quoted, skip_block_comment, push_statement,
  Scan, move, round, scan, statement_ranges, closed, from_start, line_end, next_is,
}

-- No range is empty; one begins where the one in front ends or later, from `low` on, and the last
-- ends at `high` or before it.
abbrev pub Ordered : ℕ → List Range → ℕ → Type 0
Ordered low [] high = low ≤ high
Ordered low (r ∷ ranges) high = (low ≤ r.start) × (r.start < r.stop) × Ordered r.stop ranges high

Ordered-widen :
    (low : ℕ) (ranges : List Range) {mid high : ℕ}
    → Ordered low ranges mid
    → mid ≤ high
    → Ordered low ranges high
Ordered-widen low [] h l = omega arith
Ordered-widen low (r ∷ ranges) h l = (h.0, h.1, Ordered-widen r.stop ranges h.2 l)

Ordered-append :
    (low : ℕ) (ranges : List Range) {mid high : ℕ} (r : Range)
    → Ordered low ranges mid
    → mid ≤ r.start
    → r.start < r.stop
    → r.stop ≤ high
    → Ordered low (ranges ++ r ∷ []) high
Ordered-append low [] r h l m n = (omega arith, m, n)
Ordered-append low (q ∷ ranges) r h l m n = (h.0, h.1, Ordered-append q.stop ranges r h.2 l m n)

nonempty : (t : Bytes) → is_empty t ≡ false → 0 < length t
nonempty [] h = ground (arith, h)
nonempty (b ∷ bs) h = omega arith

push_statement-Ordered :
    (ranges : List Range) (sql : Bytes) (start stop : ℕ)
    → Ordered 0 ranges start
    → start ≤ stop
    → Ordered 0 (push_statement ranges sql start stop) stop
unfolding push_statement slice
push_statement-Ordered ranges sql start stop h l =
    let text = slice sql start stop in
    elim (Bool-cases (is_empty (trim text))) [
      | inl e ↦ rw (push_statement, e) (Ordered-widen 0 ranges h l)
      | inr e ↦
          let size = length-take (stop - start) (drop start sql) in
          let left = length-trim_start text in
          let kept = length-trim text in
          rw (push_statement, e)
            (Ordered-append 0 ranges _ h (omega arith) (omega (arith, nonempty (trim text) e))
              (omega (arith, size, left, kept, l)))
    ]

-- The ranges so far are in front of the statement that is being read.
abbrev pub IsScan : Bytes → Scan → Type 0
IsScan sql s = Ordered 0 s.ranges s.start × (s.start ≤ s.at) × (s.at ≤ length sql)

-- What a round leads to, if it does not give up.
abbrev Steps : Bytes → Scan → Option Scan → Type 0
Steps sql s none = Unit
Steps sql s (some t) = IsScan sql t × (s.at < t.at)

move-Steps :
    (sql : Bytes) (s : Scan) (o : Option ℕ)
    → IsScan sql s
    → Within (s.at + 1) (length sql) o
    → Steps sql s (move s o)
unfolding move
move-Steps sql s none h w = tt
move-Steps sql s (some at) h w = ((h.0, omega (arith, h, w), w.1), omega (arith, w))

module _ (sql : Bytes) (s : Scan) where
  inside : (b : ℕ) (rest : Bytes) → drop s.at sql ≡ b ∷ rest → s.at < length sql
  inside b rest e =
      let size : length (b ∷ rest) ≡ length sql - s.at = rw e at (length-drop s.at sql) in
      omega (arith, size)

  pub round-Steps :
      (b : ℕ) (rest : Bytes)
      → IsScan sql s
      → drop s.at sql ≡ b ∷ rest
      → Steps sql s (round sql s b rest)
  unfolding round
  round-Steps b rest h e =
      let l = inside b rest e in
      elim (Bool-cases (b == b'\'' || b == b'"')) [
        | inl p ↦
            rw (round, p)
              (move-Steps sql s (skip_quoted sql b s.at) h (skip_quoted-Moves sql s.at l b))
        | inr p ↦ elim (Bool-cases (b == b'$')) [
          | inl q ↦
              rw (round, p, q)
                (move-Steps sql s (skip_dollar_quoted sql s.at) h
                  (skip_dollar_quoted-Moves sql s.at l))
          | inr q ↦ elim (Bool-cases (b == b'-' && next_is b'-' rest)) [
            | inl r ↦
                rw (round, p, q, r)
                  (move-Steps sql s
                    (some (line_end s.at (position_of b'\n' (b ∷ rest)) (length sql))) h
                    (line_end-Moves sql s.at l b rest (ground (arith, r)) e))
            | inr r ↦ elim (Bool-cases (b == b'/' && next_is b'*' rest)) [
              | inl t ↦
                  rw (round, p, q, r, t)
                    (move-Steps sql s (skip_block_comment sql s.at) h
                      (skip_block_comment-Moves sql s.at l))
              | inr t ↦ elim (Bool-cases (b == b';')) [
                | inl u ↦
                    rw (round, p, q, r, t, u)
                      (
                        (
                          Ordered-widen 0 _
                              (push_statement-Ordered s.ranges sql s.start s.at h.0 h.1)
                              (omega arith),
                          omega arith,
                          omega (arith, l),
                        ),
                        omega arith,
                      )
                | inr u ↦
                    rw (round, p, q, r, t, u)
                      (move-Steps sql s (some (s.at + 1)) h (omega arith, omega (arith, l)))
              ]
            ]
          ]
        ]
      ]

module _ (sql : Bytes) where
  scan-IsScan :
      (fuel : ℕ) (s : Scan) {t : Scan} → IsScan sql s → scan sql fuel s ≡ some t → IsScan sql t
  unfolding scan
  scan-IsScan zero s h e = ground (arith, e)
  scan-IsScan (suc fuel) s h e = elim (List-cases (drop s.at sql)) [
    | inl f ↦ subst (IsScan sql) (some-injective (rw (scan, f) at e)) h
    | inr (b, rest, f) ↦ elim (Option-cases (round sql s b rest)) [
      | inl g ↦ absurd (ground (arith, e, f, g))
      | inr (u, g) ↦
          scan-IsScan fuel u (rw g at (round-Steps sql s b rest h f)).0 (rw (scan, f, g) at e)
    ]
  ]

  pub from_start-IsScan : IsScan sql from_start
  from_start-IsScan = omega arith

  -- The ranges that a query is split into lie in the text in their order, none of them is empty, and
  -- no two of them overlap.
  pub statement_ranges-Ordered :
      {ranges : List Range} → statement_ranges sql ≡ some ranges → Ordered 0 ranges (length sql)
  unfolding statement_ranges closed
  statement_ranges-Ordered e = elim (Option-cases (scan sql (suc (length sql)) from_start)) [
    | inl f ↦ absurd (ground (arith, e, f))
    | inr (s, f) ↦
        let h = scan-IsScan (suc (length sql)) from_start from_start-IsScan f in
        subst (λ q. Ordered 0 q (length sql)) (some-injective (rw (statement_ranges, f) at e))
          (push_statement-Ordered s.ranges sql s.start (length sql) h.0 (omega arith))
  ]
