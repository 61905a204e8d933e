-- ===== src/Proxy/Lexer/Sent.antt =====
-- `reassemble` and `render_validated` of crates/proxy/src/encrypt/lexer.rs: what the server is given
-- for a query.
use dbsec.Prelude.{
  ◌≡◌, Bool, true, false, some, List, [], ◌∷◌, ◌++◌, length, ok, >>=-eq-ok, ok-injective, Bytes,
  arith, refl, sym, ap, ◌∙◌, inl, inr, Bool-cases, Result-cases, subst,
}
use dbsec.Proxy.Lexer.{statement_ranges}
use dbsec.Proxy.Lexer.Reassembly.{Sqlparser, parse_sql, only_is, render_validated, reassemble}
use dbsec.Proxy.Lexer.Spliced.{Segment, joined, cut, edited, reassemble-refines}

module _ {Statement Tokens Fault : Type 0} (sqlparser : Sqlparser Statement Tokens Fault) where
  -- What stands at a statement's place: a text that reads as the statement alone, or its own text.
  abbrev Stands : Segment → Statement → Bool → Bytes → Type 0
  Stands g s true text = parse_sql sqlparser text ≡ ok (s ∷ [])
  Stands g s false text = text ≡ g.text

  -- The text that is sent: the gaps of the query, and between them what stands for each statement.
  abbrev pub Sent : List Segment → Bytes → List Statement → List Bool → Bytes → Type 0
  Sent (g ∷ segments) rest (s ∷ statements) (c ∷ changed) out =
      (text : Bytes) × (later : Bytes) × (out ≡ g.gap ++ (text ++ later))
      × Stands g s c text
      × Sent segments rest statements changed later
  Sent segments rest statements changed out = out ≡ joined segments rest

  module _ (lawful : (s t : Statement) → sqlparser.same_statement s t ≡ true → s ≡ t) where
    only_is-eq :
        (statement : Statement) (reparsed : List Statement)
        → only_is sqlparser statement reparsed ≡ true
        → reparsed ≡ statement ∷ []
    unfolding only_is
    only_is-eq statement [] h = ground (arith, h)
    only_is-eq statement (s ∷ []) h = ap (λ t. t ∷ []) (lawful s statement h)
    only_is-eq statement (s ∷ t ∷ ss) h = ground (arith, h)

    render_validated-eq-ok :
        (statement : Statement) {text : Bytes}
        → render_validated sqlparser statement ≡ ok text
        → parse_sql sqlparser text ≡ ok (statement ∷ [])
    unfolding render_validated
    render_validated-eq-ok statement h =
        elim (Result-cases (parse_sql sqlparser (sqlparser.to_string statement))) [
          | inr (f, e) ↦ absurd (ground (arith, h, e))
          | inl (reparsed, e) ↦ elim (Bool-cases (only_is sqlparser statement reparsed)) [
            | inr g ↦ absurd (ground (arith, h, e, g))
            | inl g ↦
                subst (λ t. parse_sql sqlparser t ≡ ok (statement ∷ []))
                  (ok-injective (rw (render_validated, e, g) at h))
                  (e ∙ ap ok (only_is-eq statement reparsed g))
          ]
        ]

    edited-Sent :
        (segments : List Segment) (rest : Bytes) (statements : List Statement) (changed : List Bool)
        {out : Bytes}
        → edited sqlparser segments rest statements changed ≡ ok out
        → Sent segments rest statements changed out
    edited-Sent [] rest statements changed h = sym (ok-injective h)
    edited-Sent (g ∷ segments) rest [] changed h = sym (ok-injective h)
    edited-Sent (g ∷ segments) rest (s ∷ statements) [] h = sym (ok-injective h)
    edited-Sent (g ∷ segments) rest (s ∷ statements) (true ∷ changed) h =
        let (text, t, k) = >>=-eq-ok (render_validated sqlparser s) _ h in
        let (later, u, last) = >>=-eq-ok (edited sqlparser segments rest statements changed) _ k in
        (
          text,
          later,
          sym (ok-injective last),
          render_validated-eq-ok s t,
          edited-Sent segments rest statements changed u,
        )
    edited-Sent (g ∷ segments) rest (s ∷ statements) (false ∷ changed) h =
        let (later, u, last) = >>=-eq-ok (edited sqlparser segments rest statements changed) _ h in
        (
          g.text,
          later,
          sym (ok-injective last),
          refl,
          edited-Sent segments rest statements changed u,
        )

    -- What the server is given for a query whose ranges are as many as its statements, if it is given
    -- anything: the gaps between the statements and each statement that did not change as the client
    -- wrote them, and for one that changed a text that parses to that statement alone. sqlparser's
    -- equality of statements is assumed to hold of equal ones only.
    pub reassemble-Sent :
        (sql : Bytes) (statements : List Statement) (changed : List Bool) {ranges : List _}
        {out : Bytes}
        → statement_ranges sql ≡ some ranges
        → length ranges ≡ length statements
        → reassemble sqlparser sql statements changed ≡ ok out
        → Sent (cut sql ranges).segments (cut sql ranges).rest statements changed out
    reassemble-Sent sql statements changed e l h =
        edited-Sent _ _ statements changed
          (sym (reassemble-refines sqlparser sql statements changed e l).1 ∙ h)
