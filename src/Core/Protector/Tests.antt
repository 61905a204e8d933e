-- ===== src/Core/Protector/Tests.antt =====
-- Runs of a protector built from a policy, and the theorems on it at concrete values.
use dbsec.Prelude.{◌≡◌, refl, true, none, some, [], ◌∷◌, ok, err, Bytes, bytes_eq, codes}
use dbsec.NameMap.{get}
use dbsec.Core.{unknown_column, row_key_required}
use dbsec.Core.Crypto.Toy.{toy, toy-IsAead, toy_encrypt, toy_hmac, toy_mac}
use dbsec.Core.Crypto.{Ff1}
use dbsec.Core.Envelope.{aad_with_row}
use dbsec.Core.Cipher.{choose, with_budget, encrypt, seal_with}
use dbsec.Core.Ciphers.{active, seal}
use dbsec.Core.BlindIndex.{compute, prepend}
use dbsec.Core.Transform.{seal_value, blind_index, index_key_of}
use dbsec.Core.Policy.{split_table, split_once_dot}
use dbsec.Core.Samples.{
  id_one, nonce, row_seven, key_of, source, source-Agrees_one, empty-IsCached, cold, warm,
  warm-IsCached, source-Agrees_two, id_two, searchable_column, stored_index,
}
use dbsec.Core.Protector.Calls.{
  seal_transform, seal_entry, checked_seal, protector_seal, protector_open,
}
use dbsec.Core.Protector.{
  encrypting, Column, Protector, value, find_column, lookup_key, count_dots, check_row,
}
use dbsec.Core.Protector.Opens.{Finds, protector_open-protector_seal}

abbrev no_ff1 : Ff1
no_ff1 = record { ff1_encrypt = λ k ds. none; ff1_decrypt = λ k ds. none }

abbrev email_column : Column
email_column = record {
  spec = record {
    schema = codes "public";
    table = codes "u";
    column = codes "email";
    transform = some (encrypting searchable_column);
    searchable = true;
    readable = true;
    mask = none;
  };
  row_bound = true;
}

abbrev writer : Protector
writer = record { columns = (codes "public.u.email", email_column) ∷ []; ciphers = cold }

abbrev reader : Protector
reader = record { columns = (codes "public.u.email", email_column) ∷ []; ciphers = warm }

writer-Finds : Finds writer (codes "u.email") searchable_column
unfolding find_column lookup_key count_dots split_table split_once_dot get bytes_eq
writer-Finds = record { entry = email_column; found = refl; encrypts = refl; readable = refl }

reader-Finds : Finds reader (codes "u.email") searchable_column
unfolding find_column lookup_key count_dots split_table split_once_dot get bytes_eq
reader-Finds = record { entry = email_column; found = refl; encrypts = refl; readable = refl }

abbrev bare_hex : Bytes → Bytes
bare_hex bytes = bytes

seal-email :
    (protector_seal toy_hmac toy no_ff1 bare_hex
      (source id_one)
      (source id_one)
      writer
      (codes "u.email")
      (codes "hi")
      (some row_seven)
      nonce).0
    ≡ ok stored_index
unfolding protector_seal seal_entry checked_seal seal_transform check_row find_column lookup_key
    count_dots split_table split_once_dot get bytes_eq seal_value seal active with_budget encrypt
    seal_with choose aad_with_row toy_encrypt blind_index index_key_of compute prepend toy_mac
seal-email = refl

-- a name that is not in the policy, and a row-bound column without a row key
protector_refuses :
    ((protector_seal toy_hmac toy no_ff1 bare_hex
        (source id_one)
        (source id_one)
        writer
        (codes "u.phone")
        (codes "hi")
        none
        nonce).0
      ≡ err (unknown_column (codes "u.phone")))
    × ((protector_seal toy_hmac toy no_ff1 bare_hex
          (source id_one)
          (source id_one)
          writer
          (codes "u.email")
          (codes "hi")
          none
          nonce).0
        ≡ err (row_key_required (codes "u.email")))
unfolding protector_seal checked_seal check_row find_column lookup_key count_dots split_table
    split_once_dot get bytes_eq
protector_refuses = (refl, refl)

protector_open-protector_seal_example :
    (protector_open toy_hmac toy no_ff1 bare_hex
      (source id_two)
      reader
      (codes "u.email")
      stored_index
      (some row_seven)).0
    ≡ ok (value (codes "hi"))
unfolding writer-Finds reader-Finds
protector_open-protector_seal_example =
    protector_open-protector_seal toy_hmac toy toy-IsAead no_ff1 bare_hex key_of (source id_one)
      (source id_one) (source id_two) writer reader (codes "u.email") (codes "hi") (some row_seven)
      nonce searchable_column searchable_column writer-Finds reader-Finds source-Agrees_one
      source-Agrees_one source-Agrees_two (λ i. refl) (empty-IsCached 4) warm-IsCached refl refl
      refl refl seal-email
