-- ===== src/Proxy/Rows/Kept.antt =====
-- crates/proxy/src/rows.rs: what a column's transform keeps of its state, reading a value keeps.
use dbsec.Prelude.{Option, none, some, List, Bytes, Bool, inl, inr, Option-cases, Result-cases}
use dbsec.Core.Envelope.{RowKey}
use dbsec.Core.Mask.{Utf8}
use dbsec.Proxy.Rows.{FieldTransform, ReadColumn, Position}
use dbsec.Proxy.Rows.Cells.{
  Hex, RowKeyOnce, decode_wire, key_at, open_at, shown_result, replacement_of,
}

module _ {S : Type 0} (I : S → Type 0) where
  -- Opening a value keeps `I`, which is what is known of the state of the transforms.
  abbrev pub Keeps : Option (FieldTransform S) → Type 0
  Keeps none = Unit
  Keeps (some t) =
      (stored : Bytes) (key : Option RowKey) (s : S) → I s → I (t.open_stored stored key s).1

  open_at-keeps :
      (t : FieldTransform S) (column : ReadColumn S) (position : _) (repeated : Bool)
      (at : Option RowKeyOnce) (stored : Bytes) (s : S)
      → Keeps (some t)
      → I s
      → I (open_at t column position repeated at stored s).1
  unfolding open_at
  open_at-keeps t column position repeated none stored s k i = k stored none s i
  open_at-keeps t column position repeated (some once) stored s k i = elim (Result-cases once.key) [
    | inl (key, e) ↦ rw (open_at, e) (k stored (some key) s i)
    | inr (f, e) ↦ rw (open_at, e) (k stored none s i)
  ]

  pub replacement_of-keeps :
      (hex : Hex) (utf8 : Utf8) (row_keys : List RowKeyOnce) (repeated : Bytes → Bool)
      (p : Position S) (value : Bytes) (s : S)
      → Keeps p.column.transform
      → I s
      → I (replacement_of hex utf8 row_keys repeated p value s).1
  unfolding replacement_of shown_result
  replacement_of-keeps hex utf8 row_keys repeated p value s k i =
      elim (Option-cases p.column.transform) [
        | inl e ↦ rw (replacement_of, e) i
        | inr (t, e) ↦
            rw (replacement_of, e)
              (open_at-keeps t p.column p.index (repeated p.column.name) (key_at p.key row_keys)
                (decode_wire hex t value).0 s (rw e at k) i)
      ]
