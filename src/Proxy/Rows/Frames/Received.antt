-- ===== src/Proxy/Rows/Frames/Received.antt =====
-- `RowDecryptor::on_frame` of crates/proxy/src/rows.rs: what a DataRow is received as.
use dbsec.Prelude.{◌≡◌, Option, none, some, [], ok, Bytes, All, ◌⊎◌, ◌-◌}
use dbsec.Pgwire.{max_message_len}
use dbsec.Proxy.Params.{ResultFormats}
use dbsec.Proxy.Portals.{RowSource, from_portal, last_description, undescribed}
use dbsec.Proxy.Portals.Answers
use dbsec.Proxy.Rows.Kept.{Keeps}
use dbsec.Proxy.Rows.Rederived.{Distinct}
use dbsec.Proxy.Rows.Shown.{Sends}
use dbsec.Proxy.Rows.{Position, Described}
use dbsec.Proxy.Rows.Decrypt.{Bounds, decrypt_row}
use dbsec.Proxy.Rows.Frames.{Texts, RowDecryptor, current}

module _ {S : Type 0} where
  -- What a DataRow is read by: the description of the portal that answers, brought up to date, or
  -- the last description of the session.
  abbrev pub ReadBy :
      RowDecryptor S → RowSource (Described S) → Described S → ResultFormats → Type 0
  ReadBy d (from_portal held formats') positions formats =
      (positions ≡ (current held d).0) × (formats ≡ formats')
  ReadBy d last_description positions formats = (d.described ≡ some positions) × (formats ≡ none)
  ReadBy d undescribed positions formats = ⊥

  abbrev pub row_bounds : RowDecryptor S → Bounds
  row_bounds d = record {
    max_value = d.ctx.max_protected_value_len;
    max_body = max_message_len - 4;
  }

  -- The row is read only where something is covered.
  abbrev SentBy :
      Texts → RowDecryptor S → Described S → ResultFormats → Bytes → Option Bytes → Type 0
  SentBy texts d positions formats body o =
      ((positions.columns ≡ []) × (o ≡ none))
      ⊎ ((decrypt_row texts.libs (row_bounds d) formats positions.columns body d.keys).0 ≡ ok o)

  -- A description by which a row can be read, over states with `I`.
  abbrev pub Readable : (S → Type 0) → Described S → Type 0
  Readable I positions =
      Distinct positions.columns
      × All (λ (p : Position S). Keeps I p.column.transform) positions.columns

  -- What a row is received as, read by a description.
  abbrev pub Shows :
      (S → Type 0) → Texts → RowDecryptor S → Described S → ResultFormats → Bytes → Bytes → Type 0
  Shows I texts d positions formats body sent =
      ((positions.columns ≡ []) × (sent ≡ body))
      ⊎ Sends I texts.libs (row_bounds d) formats positions.columns body sent
