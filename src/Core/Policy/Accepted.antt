-- ===== src/Core/Policy/Accepted.antt =====
-- `Policy::validate` of crates/core/src/policy.rs.
use dbsec.Prelude.{◌≡◌, [], ok}
use dbsec.Core.Policy.{Policy, check_columns, validate}
use dbsec.Core.Policy.Columns.{both-eq-ok, AreColumns, check_columns-AreColumns}
use dbsec.Core.Policy.Tables.{AreTables, check_tables-AreTables}

pub record IsAccepted (p : Policy) : Type 0 where
  pub columns_accepted : AreColumns [] p.columns
  pub tables_accepted : AreTables [] p.columns p.tables

-- In an accepted policy no two columns share a qualified name and no two tables do, every name fits
-- an identifier, the settings of each column are compatible, and each table that declares a row
-- key has a column that encrypts, and so binds it, and stores the row key as it is.
pub validate-IsAccepted : (p : Policy) → validate p ≡ ok tt → IsAccepted p
unfolding validate
validate-IsAccepted p h =
    let (columns, tables) = both-eq-ok (check_columns [] p.columns) _ h in
    record {
      columns_accepted = check_columns-AreColumns [] p.columns columns;
      tables_accepted = check_tables-AreTables [] p.columns p.tables tables;
    }
