-- ===== src/Proxy/Rows/Shown.antt =====
-- `RowDecryptor::decrypt_row` of crates/proxy/src/rows.rs: what the client is sent for each value.
use dbsec.Prelude.{
  ℕ, ◌≤◌, ◌≡◌, ◌≢◌, refl, sym, ◌∙◌, false, Option, none, some, List, [], ◌∷◌, map, ltb, length,
  get_elem?, Result, ok, err, >>=-eq-ok, Bytes, All, arith, inl, inr, Bool-cases, Option-cases,
  Result-cases, ok-injective, subst,
}
use dbsec.Proxy.{Error}
use dbsec.Proxy.Rows.{Position, covers, any}
use dbsec.Proxy.Rows.Kept.{Keeps, replacement_of-keeps}
use dbsec.Proxy.Rows.Rederived.{Distinct}
use dbsec.Proxy.Rows.Cells.{RowKeyOnce, replacement_of, read}
use dbsec.Proxy.Rows.Decrypt.{
  Libraries, Bounds, Values, Row, value_at, contains, round, rounds, encoded, check_keys,
  distinct_slots, repeated_names, decrypt_values, decrypt_row,
}
use dbsec.Pgwire.Rows.{parse_data_row, encode_data_row}
use dbsec.Pgwire.Rows.DataRow.{parse_data_row-encode_data_row}
use dbsec.Proxy.Params.{ResultFormats}
use dbsec.Proxy.Rows.Replaced.{value_or, value_at-get_elem?, replace_with-eq-ok}

module _ {S : Type 0} (I : S → Type 0) (libs : Libraries) (bounds : Bounds)
    (row_keys : List RowKeyOnce) (repeated : List Bytes) where
  -- What a value may be sent as: nothing for a NULL; else its replacement, in some state of the
  -- transforms that satisfies `I`, or itself where there is none, and only within the bound.
  abbrev pub Cell : Position S → Option Bytes → Option Bytes → Type 0
  Cell p none sent = sent ≡ none
  Cell p (some value) sent =
      (s : S) × I s
      × (o : Option Bytes) × ((replacement_of libs.hex libs.utf8 row_keys
            (λ name. contains name repeated) p value s).0
          ≡ ok o)
      × (sent ≡ some (value_or value o))
      × (length value ≤ bounds.max_value)

  -- one round's effect on the row
  record Round (p : Position S) (row row' : Row) : Type 0 where
    cell : Cell p (value_at row.values p.index) (value_at row'.values p.index)
    others : (i : ℕ) → i ≢ p.index → get_elem? row'.values i ≡ get_elem? row.values i
    unchanged : row'.changed ≡ false → (row'.values ≡ row.values) × (row.changed ≡ false)

  round-eq-ok :
      (p : Position S) (row : Row) (s : S) {row' : Row}
      → Keeps I p.column.transform
      → I s
      → (round libs bounds row_keys repeated p row s).0 ≡ ok row'
      → Round p row row' × I (round libs bounds row_keys repeated p row s).1
  unfolding round
  round-eq-ok p row s {row'} k i h = elim (Option-cases (value_at row.values p.index)) [
    | inl e ↦
        let same = ok-injective (rw (round, e) at h) in
        (
          subst (Round p row) same
              (record { cell = rw e refl; others = λ i n. refl; unchanged = λ c. (refl, c) }),
          rw (round, e) i,
        )
    | inr (v, e) ↦ elim (Bool-cases (ltb bounds.max_value (length v))) [
      | inl b ↦ let refused = rw (round, e, b) at h in absurd (cc)
      | inr b ↦
          let (o, r, h') =
            >>=-eq-ok
              (replacement_of libs.hex libs.utf8 row_keys (λ name. contains name repeated) p v s).0
              _ (rw (round, e, b) at h) in
          let (cell, others, unchanged) = replace_with-eq-ok bounds p.index v o row row' e h' in
          (
            record {
              cell = rw e (s, i, o, r, cell, ground (arith, b));
              others = others;
              unchanged = unchanged;
            },
            rw (round, e, b)
                (replacement_of-keeps I libs.hex libs.utf8 row_keys (λ name. contains name repeated)
                  p v s k i),
          )
    ]
  ]

  -- The rest of the row is as it was, and what is covered is sent as its cell says.
  record Rounds (ps : List (Position S)) (row row' : Row) : Type 0 where
    cells :
        All
          (λ (p : Position S). Cell p (value_at row.values p.index) (value_at row'.values p.index))
          ps
    others : (i : ℕ) → covers i ps ≡ false → get_elem? row'.values i ≡ get_elem? row.values i
    unchanged : row'.changed ≡ false → (row'.values ≡ row.values) × (row.changed ≡ false)

  covers-cons :
      (i : ℕ) (p : Position S) (ps : List (Position S))
      → covers i (p ∷ ps) ≡ false
      → (i ≢ p.index) × (covers i ps ≡ false)
  unfolding covers any
  covers-cons i p ps c = ground arith

  cells_before :
      (ps : List (Position S)) (p : Position S) (row mid row' : Row)
      → covers p.index ps ≡ false
      → ((i : ℕ) → i ≢ p.index → get_elem? mid.values i ≡ get_elem? row.values i)
      → All
          (λ (q : Position S). Cell q (value_at mid.values q.index) (value_at row'.values q.index))
          ps
      → All
          (λ (q : Position S). Cell q (value_at row.values q.index) (value_at row'.values q.index))
          ps
  unfolding covers any
  cells_before [] p row mid row' c same h = tt
  cells_before (q ∷ qs) p row mid row' c same h = (
    subst (λ v. Cell q v (value_at row'.values q.index))
        (value_at-get_elem? mid.values row.values q.index (same q.index (ground (arith, c)))) h.0,
    cells_before qs p row mid row' (ground (arith, c)) same h.1,
  )

  rounds-eq-ok :
      (ps : List (Position S)) (row : Row) (s : S) {row' : Row}
      → Distinct ps
      → All (λ (p : Position S). Keeps I p.column.transform) ps
      → I s
      → (rounds libs bounds row_keys repeated ps row s).0 ≡ ok row'
      → Rounds ps row row'
  unfolding rounds
  rounds-eq-ok [] row s {row'} d k i h =
      subst (Rounds [] row) (ok-injective h)
        (record { cells = tt; others = λ i n. refl; unchanged = λ c. (refl, c) })
  rounds-eq-ok (p ∷ ps) row s {row'} d k i h =
      elim (Result-cases ((round libs bounds row_keys repeated p row s).0)) [
        | inl (mid, e) ↦
            let (first, i') = round-eq-ok p row s k.0 i e in
            let last =
              rounds-eq-ok ps mid (round libs bounds row_keys repeated p row s).1 d.1 k.1 i'
                (rw (rounds, e) at h) in
            record {
              cells = (
                subst (Cell p (value_at row.values p.index))
                    (sym
                      (value_at-get_elem? row'.values mid.values p.index (last.others p.index d.0)))
                    first.cell,
                cells_before ps p row mid row' d.0 first.others last.cells,
              );
              others = λ i n.
                  let (apart, c) = covers-cons i p ps n in last.others i c ∙ first.others i apart;
              unchanged = λ c.
                  let (same, c') = last.unchanged c in
                  let (same', c'') = first.unchanged c' in (same ∙ same', c'');
            }
        | inr (f, e) ↦ let refused = rw (rounds, e) at h in absurd (cc)
      ]

  encoded-eq-ok :
      (r : Result Error Row) (body : Bytes) (ps : List (Position S)) (row : Row) {o : Option Bytes}
      → parse_data_row body ≡ ok row.values
      → ((row' : Row) → r ≡ ok row' → Rounds ps row row')
      → encoded r ≡ ok o
      → (row' : Row) × Rounds ps row row' × (parse_data_row (value_or body o) ≡ ok row'.values)
  unfolding encoded
  encoded-eq-ok (err e) body ps row parsed rounds h = absurd (cc)
  encoded-eq-ok (ok row') body ps row {o} parsed rounds h = elim (Bool-cases row'.changed) [
    | inl c ↦ elim (Result-cases (encode_data_row row'.values)) [
      | inl (sent, e) ↦ (
        row',
        rounds row' refl,
        subst (λ v. parse_data_row (value_or body v) ≡ ok row'.values)
            (ok-injective (rw (encoded, c, e) at h)) (parse_data_row-encode_data_row row'.values e),
      )
      | inr (f, e) ↦ let refused = rw (encoded, c, e) at h in absurd (cc)
    ]
    | inr c ↦
        let all = rounds row' refl in
        (
          row',
          all,
          subst (λ v. parse_data_row (value_or body v) ≡ ok row'.values)
              (ok-injective (rw (encoded, c) at h)) (rw (all.unchanged c).0 parsed),
        )
  ]

module _ {S : Type 0} (I : S → Type 0) (libs : Libraries) (bounds : Bounds)
    (formats : ResultFormats) (positions : List (Position S)) where
  -- What a row's body is sent as.
  pub record Sends (body sent : Bytes) : Type 0 where
    pub values : Values
    pub shown : Values
    pub parsed : parse_data_row body ≡ ok values
    pub received : parse_data_row sent ≡ ok shown
    pub cells :
        All
          (λ (p : Position S).
            Cell I libs bounds
              (map (read libs.texts formats values) (distinct_slots positions))
              (repeated_names positions)
              p
              (value_at values p.index)
              (value_at shown p.index))
          positions
    pub others : (i : ℕ) → covers i positions ≡ false → get_elem? shown i ≡ get_elem? values i

  -- A row that is let through, changed or not, is received with every covered value replaced by
  -- what its column makes of it, in some state of the transforms that satisfies `I`, under the keys
  -- of its own row, with every NULL still a NULL, and with every other value as the server sent it,
  -- where no two positions are at one index, and opening a value keeps `I`, which holds before.
  pub decrypt_row-Sends :
      (body : Bytes) (s : S) {o : Option Bytes}
      → Distinct positions
      → All (λ (p : Position S). Keeps I p.column.transform) positions
      → I s
      → (decrypt_row libs bounds formats positions body s).0 ≡ ok o
      → Sends body (value_or body o)
  unfolding decrypt_row decrypt_values
  decrypt_row-Sends body s {o} d k i h = elim (Result-cases (check_keys positions)) [
    | inr (f, e) ↦ let refused = rw (decrypt_row, e) at h in absurd (cc)
    | inl (checked, e) ↦ elim (Result-cases (parse_data_row body)) [
      | inr (f, e') ↦ let refused = rw (decrypt_row, e, e') at h in absurd (cc)
      | inl (values, e') ↦
          let keys = map (read libs.texts formats values) (distinct_slots positions) in
          let start : Row = record { values = values; projected = length body; changed = false } in
          let (row', all, received) =
            encoded-eq-ok I libs bounds keys (repeated_names positions) _ body positions start e'
              (λ row' r.
                rounds-eq-ok I libs bounds keys (repeated_names positions) positions start s d k i
                  r)
              (rw (decrypt_row, e, e') at h) in
          record {
            values = values;
            shown = row'.values;
            parsed = e';
            received = received;
            cells = all.cells;
            others = all.others;
          }
    ]
  ]
