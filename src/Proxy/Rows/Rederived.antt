-- ===== src/Proxy/Rows/Rederived.antt =====
-- `Resolved::protected` and `Described::rederived` of crates/proxy/src/rows.rs: which column a
-- position is read by.
use dbsec.Prelude.{
  ℕ, suc, ◌+◌, ◌≤◌, ◌≡◌, refl, ◌∙◌, false, Option, none, some, List, [], ◌∷◌, ◌++◌, ◌==◌, leb,
  if◌then◌else◌, arith, inl, inr, Bool-cases, Option-cases, ◌≢◌,
}
use dbsec.Proxy.Rows.{
  Field, Position, Resolved, Described, enumerate_from, filter_map, protected_field, protected,
  new_described, any, covers, keep_covered, insert_position, sort_positions, rederived,
}

unfoldable pub or_else {ℓ} : {A : Type ℓ} → Option A → Option A → Option A
or_else none b = b
or_else (some a) b = some a

module _ {S : Type 0} where
  -- What reads the value at an index.
  unfoldable pub find_position : ℕ → List (Position S) → Option (Position S)
  find_position index [] = none
  find_position index (p ∷ ps) =
      let later = find_position index ps in if p.index == index then some p else later

  -- No two positions are at one index.
  abbrev pub Distinct : List (Position S) → Type 0
  Distinct [] = Unit
  Distinct (p ∷ ps) = (covers p.index ps ≡ false) × Distinct ps

  covers-insert_position :
      (index : ℕ) (p : Position S) (qs : List (Position S))
      → covers index (insert_position p qs) ≡ covers index (p ∷ qs)
  unfolding covers any insert_position
  covers-insert_position index p [] = refl
  covers-insert_position index p (q ∷ qs) = ground (arith, covers-insert_position index p qs)

  apart :
      (p q : Position S) (qs : List (Position S))
      → Distinct (p ∷ q ∷ qs)
      → covers q.index (p ∷ qs) ≡ false
  unfolding covers any
  apart p q qs h = ground arith

  rest : (p q : Position S) (qs : List (Position S)) → Distinct (p ∷ q ∷ qs) → Distinct (p ∷ qs)
  unfolding covers any
  rest p q qs h = ground arith

  insert_position-Distinct :
      (p : Position S) (qs : List (Position S))
      → Distinct (p ∷ qs)
      → Distinct (insert_position p qs)
  unfolding insert_position
  insert_position-Distinct p [] h = h
  insert_position-Distinct p (q ∷ qs) h = elim (Bool-cases (leb p.index q.index)) [
    | inl e ↦ rw e h
    | inr e ↦ rw e (
      covers-insert_position q.index p qs ∙ apart p q qs h,
      insert_position-Distinct p qs (rest p q qs h),
    )
  ]

  covers-sort_positions :
      (index : ℕ) (ps : List (Position S)) → covers index (sort_positions ps) ≡ covers index ps
  unfolding covers any sort_positions
  covers-sort_positions index [] = refl
  covers-sort_positions index (p ∷ ps) =
      covers-insert_position index p (sort_positions ps)
      ∙ unfold covers any in ground (arith, covers-sort_positions index ps)

  sort_positions-Distinct : (ps : List (Position S)) → Distinct ps → Distinct (sort_positions ps)
  unfolding sort_positions
  sort_positions-Distinct [] h = tt
  sort_positions-Distinct (p ∷ ps) h =
      insert_position-Distinct p (sort_positions ps)
        (covers-sort_positions p.index ps ∙ h.0, sort_positions-Distinct ps h.1)

  covers-append :
      (index : ℕ) (ps : List (Position S)) (q : Position S)
      → covers index ps ≡ false
      → q.index ≢ index
      → covers index (ps ++ q ∷ []) ≡ false
  unfolding covers any
  covers-append index [] q h n = ground arith
  covers-append index (p ∷ ps) q h n = ground (arith, covers-append index ps q)

  append-Distinct :
      (ps : List (Position S)) (q : Position S)
      → Distinct ps
      → covers q.index ps ≡ false
      → Distinct (ps ++ q ∷ [])
  unfolding covers any
  append-Distinct [] q h n = (refl, tt)
  append-Distinct (p ∷ ps) q h n =
      (covers-append p.index ps q h.0 (ground arith), append-Distinct ps q h.1 (ground arith))

  keep_covered-Distinct :
      (columns before : List (Position S))
      → Distinct columns
      → Distinct (keep_covered columns before)
  unfolding keep_covered
  keep_covered-Distinct columns [] h = h
  keep_covered-Distinct columns (p ∷ before) h = elim (Bool-cases (covers p.index columns)) [
    | inl c ↦ rw c (keep_covered-Distinct columns before h)
    | inr c ↦
        rw c (keep_covered-Distinct (columns ++ p ∷ []) before (append-Distinct columns p h c))
  ]

  covers-protected_from :
      (r : Resolved S) (fields rest : List Field) (index start : ℕ)
      → suc index ≤ start
      → covers index (filter_map (protected_field r fields) (enumerate_from start rest)) ≡ false
  unfolding covers any filter_map enumerate_from protected_field
  covers-protected_from r fields [] index start h = refl
  covers-protected_from r fields (f ∷ rest) index start h =
      elim (Option-cases (r.columns f.table_oid f.attnum)) [
        | inl e ↦
            rw (filter_map, e) (covers-protected_from r fields rest index (start + 1) (omega arith))
        | inr (c, e) ↦
            rw (filter_map, e)
              (ground (arith, covers-protected_from r fields rest index (start + 1) (omega arith)))
      ]

  protected_from-Distinct :
      (r : Resolved S) (fields rest : List Field) (start : ℕ)
      → Distinct (filter_map (protected_field r fields) (enumerate_from start rest))
  unfolding filter_map enumerate_from protected_field
  protected_from-Distinct r fields [] start = tt
  protected_from-Distinct r fields (f ∷ rest) start =
      elim (Option-cases (r.columns f.table_oid f.attnum)) [
        | inl e ↦ rw (filter_map, e) (protected_from-Distinct r fields rest (start + 1))
        | inr (c, e) ↦
            rw (filter_map, e)
              (
                covers-protected_from r fields rest start (start + 1) (omega arith),
                protected_from-Distinct r fields rest (start + 1),
              )
      ]

  -- A description and what it is re-derived into have no two positions at one index.
  pub new_described-Distinct :
      (r : Resolved S) (fields : List Field) → Distinct (new_described r fields).columns
  unfolding new_described protected
  new_described-Distinct r fields = protected_from-Distinct r fields fields 0

  pub rederived-Distinct : (d : Described S) (r : Resolved S) → Distinct (rederived d r).columns
  unfolding rederived protected
  rederived-Distinct d r = sort_positions-Distinct (keep_covered (protected r d.fields) d.columns) (
      keep_covered-Distinct (protected r d.fields) d.columns
        (protected_from-Distinct r d.fields d.fields 0))
