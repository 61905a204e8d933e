-- ===== src/Proxy/Lexer/Ends.antt =====
-- `statement_ranges` of crates/proxy/src/encrypt/lexer.rs: the loop ends.
use dbsec.Prelude.{
  ℕ, zero, suc, ◌-◌, ◌≡◌, ◌<◌, refl, Option, none, some, [], ◌∷◌, length, drop, Bytes, arith, inl,
  inr, Option-cases, List-cases,
}
use dbsec.Proxy.Lexer.{Scan, round, scan, statement_ranges, closed, from_start}
use dbsec.Proxy.Lexer.Ranges.{IsScan, round-Steps, from_start-IsScan}

-- The loop, run from a state to its end, in as many rounds as it takes: it ends where the text
-- does, or with nothing where a round gives up.
pub data Ends (sql : Bytes) : Scan → Option Scan → Type 0 where
  at_end : (s : Scan) → drop s.at sql ≡ [] → Ends sql s (some s)
  gives_up :
      (s : Scan) (b : ℕ) (rest : Bytes)
      → drop s.at sql ≡ b ∷ rest
      → round sql s b rest ≡ none
      → Ends sql s none
  moves_on :
      (s t : Scan) (b : ℕ) (rest : Bytes) (o : Option Scan)
      → drop s.at sql ≡ b ∷ rest
      → round sql s b rest ≡ some t
      → Ends sql t o
      → Ends sql s o

scan-Ends :
    (sql : Bytes) (fuel : ℕ) (s : Scan)
    → IsScan sql s
    → length sql - s.at < fuel
    → Ends sql s (scan sql fuel s)
unfolding scan
scan-Ends sql zero s h l = absurd (omega arith)
scan-Ends sql (suc fuel) s h l = elim (List-cases (drop s.at sql)) [
  | inl e ↦ rw (scan, e) (Ends.at_end s e)
  | inr (b, rest, e) ↦ elim (Option-cases (round sql s b rest)) [
    | inl f ↦ rw (scan, e, f) (Ends.gives_up s b rest e f)
    | inr (t, f) ↦
        let (g, m) = rw f at (round-Steps sql s b rest h e) in
        rw (scan, e, f)
          (Ends.moves_on s t b rest (scan sql fuel t) e f
            (scan-Ends sql fuel t g (omega (arith, m))))
  ]
]

-- The loop over a query ends, whatever the query: run from the start of the text, round after
-- round with no bound on them, it comes to the end of the text or to a round that gives up, and
-- the ranges that `statement_ranges` returns are what it comes to.
pub statement_ranges-Ends :
    (sql : Bytes)
    → (o : Option Scan) × Ends sql from_start o × (statement_ranges sql ≡ closed sql o)
unfolding statement_ranges
statement_ranges-Ends sql = (
  scan sql (suc (length sql)) from_start,
  scan-Ends sql (suc (length sql)) from_start (from_start-IsScan sql) (omega arith),
  refl,
)
