-- ===== src/Core/Policy/Tests.antt =====
-- Runs of the policy's checks, of masks and of identifiers, and the theorems on them.
use dbsec.Prelude.{◌≡◌, refl, true, false, [], ◌∷◌, ◌++◌, ok, err, bytes_eq, codes, arith}
use dbsec.Core.{
  Error, searchable_not_encrypt, duplicate_column, row_key_transformed, nothing_to_bind,
}
use dbsec.Core.Mask.{MaskSpec, apply_chars}
use dbsec.Core.Mask.Hidden.{apply_chars_lem, apply_chars_wraps}
use dbsec.Core.Policy.{
  fpe, Policy, column_policy, validate, check_columns, check_column, check_tables, check_table,
  refuse, seen_before, qualified_name, qualified_table, split_table, split_once_dot,
  check_identifiers, columns_of, same_table, any, encrypts, hides_row_key,
}
use dbsec.Core.Policy.Accepted.{IsAccepted, validate-IsAccepted}

abbrev users : Policy
users = record {
  columns = record (column_policy (codes "users") (codes "email")) { searchable = true } ∷ [];
  tables =
      record { table = codes "public.users"; row_key = codes "id"; strict_row_binding = false }
      ∷ [];
}

validate-users : validate users ≡ ok tt
unfolding validate check_columns check_tables check_column check_table refuse seen_before
    qualified_name qualified_table split_table split_once_dot check_identifiers columns_of
    same_table any encrypts hides_row_key bytes_eq
validate-users = refl

validate-IsAccepted_example : IsAccepted users
validate-IsAccepted_example = validate-IsAccepted users validate-users

-- a searchable pseudonym, one column twice, a table that binds nothing, and a sealed row key
validate_refuses :
    (validate (record users {
      columns =
          record (column_policy (codes "users") (codes "email")) {
            searchable = true;
            transform = fpe;
          }
          ∷ [];
    })
      ≡ err (Error.policy searchable_not_encrypt))
    × (validate (record users {
      columns =
          column_policy (codes "users") (codes "email")
          ∷ column_policy (codes "public.users") (codes "email")
          ∷ [];
    })
        ≡ err (Error.policy duplicate_column))
    × (validate (record users { columns = column_policy (codes "other") (codes "email") ∷ [] })
        ≡ err (Error.policy nothing_to_bind))
    × (validate (record users { columns = column_policy (codes "users") (codes "id") ∷ [] })
        ≡ err (Error.policy row_key_transformed))
unfolding validate check_columns check_tables check_column check_table refuse seen_before
    qualified_name qualified_table split_table split_once_dot check_identifiers columns_of
    same_table any encrypts hides_row_key bytes_eq
validate_refuses = (refl, refl, refl, refl)

abbrev card : MaskSpec
card = record { keep_first = 1; keep_last = 2; mask_with = b'*' }

apply_chars_lem_example :
    apply_chars card (codes "1" ++ (codes "234" ++ codes "56")) ≡ codes "1***56"
apply_chars_lem_example =
    apply_chars_lem card (codes "1") (codes "234") (codes "56") refl refl (omega arith)
      (omega arith)

abbrev keep_all : MaskSpec
keep_all = record { keep_first = 18446744073709551615; keep_last = 1; mask_with = b'*' }

apply_chars_wraps_example : apply_chars keep_all (codes "secret") ≡ codes "secret"
apply_chars_wraps_example =
    apply_chars_wraps keep_all (codes "secret") (omega arith) (omega arith) (omega arith)
