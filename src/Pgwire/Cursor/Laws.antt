-- ===== src/Pgwire/Cursor/Laws.antt =====
-- The reading primitives of crates/pgwire/src/lib.rs on what their inverses write.
use dbsec.Prelude.{
  Result-cases, inl, inr, sym, ap, ◌∙◌, append-nil, ◌↔◌, ℕ, ◌-◌, ◌^◌, ◌<◌, ◌≡◌, ◌≢◌, refl, subst,
  Option, none, some, List, [], ◌∷◌, ◌++◌, append_assoc, length, ok, Bytes, All, from_be, be16,
  be32, be_i16, ℤ, pos, IsI16, i16_of, i32_of, i16_of-be_i16, from_be-be16, from_be-be32, arith,
  take-append_self, drop-append_self, length-append, le→leb,
}
use dbsec.Pgwire.Cursor.{
  whole, push_all, wire_count, Cursor, take, split_nul, take_cstr, take_u32, take_i16,
  nullable_body, take_nullable, take_times, push_nullable, ◌>>=◌, pure,
}

-- Reading `enc` from the front of any bytes gives `a` and leaves what stands behind `enc`.
pub record Reads {ℓ} {A : Type ℓ} (item : Cursor A) (enc : Bytes) (a : A) : Type ℓ where
  pub at : (rest : Bytes) → item (enc ++ rest) ≡ ok (a, rest)

pub Reads-bind {ℓ κ} :
    {A : Type ℓ} {B : Type κ} {m : Cursor A} (f : A → Cursor B) {x y : Bytes} {a : A} {b : B}
    → Reads m x a
    → Reads (f a) y b
    → Reads (m >>= f) (x ++ y) b
Reads-bind f {y} h k = record { at = λ rest. rw (append_assoc, h.at (y ++ rest)) (k.at rest) }

-- What follows a step that reads its bytes may be a plain result.
pub Reads-map {ℓ κ} :
    {A : Type ℓ} {B : Type κ} {m : Cursor A} {x : Bytes} {a : A} (g : A → B)
    → Reads m x a
    → Reads (m >>= λ v. pure (g v)) x (g a)
Reads-map {m} g h = record { at = λ rest. rw (h.at rest) }

pub take-append : (xs : Bytes) → Reads (take (length xs)) xs xs
unfolding take
take-append xs = record {
  at = λ rest. rw (
    le→leb (length xs) (length (xs ++ rest)) (omega (arith, length-append {0} xs rest)),
    take-append_self xs rest,
    drop-append_self xs rest,
  );
}

abbrev pub HasNoNul : Bytes → Type 0
HasNoNul = All (λ (b : ℕ). b ≢ 0)

split_nul-append : (xs rest : Bytes) → HasNoNul xs → split_nul (xs ++ 0 ∷ rest) ≡ some (xs, rest)
unfolding split_nul
split_nul-append [] rest h = refl
split_nul-append (x ∷ xs) rest h = ground (arith, split_nul-append xs rest h.1, h.0)

pub take_cstr-append : (xs : Bytes) → HasNoNul xs → Reads take_cstr (xs ++ 0 ∷ []) xs
unfolding take_cstr
take_cstr-append xs h = record {
  at = λ rest. rw (append_assoc xs (0 ∷ []) rest, take_cstr, split_nul-append xs rest h);
}

-- A string is read up to its terminator.
pub take_cstr_nul : (xs rest : Bytes) → HasNoNul xs → take_cstr (xs ++ 0 ∷ rest) ≡ ok (xs, rest)
unfolding take_cstr
take_cstr_nul xs rest h = rw (take_cstr, split_nul-append xs rest h) refl

pub take_i16-be_i16 : (z : ℤ) → IsI16 z → Reads take_i16 (be_i16 z) z
unfolding take_i16
take_i16-be_i16 z h =
    subst (Reads take_i16 (be_i16 z)) (i16_of-be_i16 z h)
      (Reads-map (λ bytes. i16_of (from_be bytes)) (take-append (be_i16 z)))

pub take_i16-be16 : (n : ℕ) → n < 2 ^ 15 → Reads take_i16 (be16 n) (pos n)
unfolding take_i16
take_i16-be16 n h =
    subst (Reads take_i16 (be16 n)) (ground (arith, from_be-be16 n))
      (Reads-map (λ bytes. i16_of (from_be bytes)) (take-append (be16 n)))

pub take_u32-be32 : (n : ℕ) → n < 2 ^ 32 → Reads take_u32 (be32 n) n
unfolding take_u32
take_u32-be32 n h =
    subst (Reads take_u32 (be32 n)) (from_be-be32 n h) (Reads-map from_be (take-append (be32 n)))

pub Reads-pure {ℓ} : {A : Type ℓ} (a : A) → Reads (pure a) [] a
Reads-pure a = record { at = λ rest. refl }

-- The wire form of a nullable value.
abbrev pub nullable_bytes : Option Bytes → Bytes
nullable_bytes none = be32 (2 ^ 32 - 1)
nullable_bytes (some v) = be32 (length v) ++ v

-- The length of a value fits the i32 prefix.
abbrev pub FitsI32 : Option Bytes → Type 0
FitsI32 none = Unit
FitsI32 (some v) = length v < 2 ^ 31

-- the length prefix of a value, read as an i32
length_prefix : (n : ℕ) → n < 2 ^ 31 → pos n ≡ i32_of (from_be (be32 n))
length_prefix n h = ground (arith, from_be-be32 n)

nullable_body-length : (v : Bytes) → Reads (nullable_body (pos (length v))) v (some v)
unfolding nullable_body
nullable_body-length v = Reads-map some (take-append v)

pub take_nullable-nullable_bytes :
    (o : Option Bytes) → FitsI32 o → Reads take_nullable (nullable_bytes o) o
unfolding take_nullable
take_nullable-nullable_bytes none h =
    Reads-bind _ (take-append (be32 (2 ^ 32 - 1))) (Reads-pure none)
take_nullable-nullable_bytes (some v) h = Reads-bind _ (take-append (be32 (length v))) (
    subst (λ z. Reads (nullable_body z) v (some v)) (length_prefix (length v) h)
      (nullable_body-length v))

pub push_nullable-eq-ok :
    (out : Bytes) (o : Option Bytes) {out' : Bytes}
    → push_nullable out o ≡ ok out'
    → FitsI32 o × (out' ≡ out ++ nullable_bytes o)
unfolding push_nullable
push_nullable-eq-ok out none h = ground arith
push_nullable-eq-ok out (some v) h = ground arith

pub push_nullable-FitsI32 :
    (out : Bytes) (o : Option Bytes)
    → FitsI32 o
    → push_nullable out o ≡ ok (out ++ nullable_bytes o)
unfolding push_nullable
push_nullable-FitsI32 out none h = refl
push_nullable-FitsI32 out (some v) h = ground arith

abbrev pub flat_map {ℓ} : {A : Type ℓ} → (A → Bytes) → List A → Bytes
flat_map f [] = []
flat_map f (x ∷ xs) = f x ++ flat_map f xs

-- A loop reads back a list whose elements can each be read back.
pub Reads-take_times {ℓ κ} :
    {A : Type ℓ} (item : Cursor A) (enc : A → Bytes) (P : A → Type κ)
    → ((a : A) → P a → Reads item (enc a) a)
    → (xs : List A) → All P xs
    → Reads (take_times (length xs) item) (flat_map enc xs) xs
unfolding take_times
Reads-take_times item enc P each [] h = Reads-pure []
Reads-take_times item enc P each (x ∷ xs) h =
    Reads-bind _ (each x h.0) (Reads-map (λ ys. x ∷ ys) (Reads-take_times item enc P each xs h.1))

pub whole-Reads {ℓ} :
    {A : Type ℓ} {item : Cursor A} {enc : Bytes} {a : A} → Reads item enc a → whole item enc ≡ ok a
unfolding whole
whole-Reads {item} {enc} h = rw (ap item (sym (append-nil enc)) ∙ h.at [], whole)

pub push_all-FitsI32 :
    (out : Bytes) (vs : List (Option Bytes))
    → All FitsI32 vs
    → push_all out vs ≡ ok (out ++ flat_map nullable_bytes vs)
unfolding push_all
push_all-FitsI32 out [] h = rw append-nil
push_all-FitsI32 out (v ∷ vs) h =
    rw (push_all, push_nullable-FitsI32 out v h.0, ← append_assoc out (nullable_bytes v))
      (push_all-FitsI32 (out ++ nullable_bytes v) vs h.1)

pub push_all-eq-ok :
    (out : Bytes) (vs : List (Option Bytes)) {out' : Bytes}
    → push_all out vs ≡ ok out'
    → All FitsI32 vs
unfolding push_all
push_all-eq-ok out [] h = tt
push_all-eq-ok out (v ∷ vs) h = elim (Result-cases (push_nullable out v)) [
  | inl (out₁, e) ↦
      ((push_nullable-eq-ok out v e).0, push_all-eq-ok out₁ vs (rw (push_all, e) at h))
  | inr (e, p) ↦ ground (arith, p)
]

pub wire_count-eq-ok : (n m : ℕ) → (wire_count n ≡ ok m) ↔ ((n < 2 ^ 15) × (m ≡ n))
unfolding wire_count
wire_count-eq-ok n m = ground arith
