-- ===== src/Pgwire/Cursor/Exact.antt =====
-- The reading primitives of crates/pgwire/src/lib.rs: which byte strings they accept.
use dbsec.Prelude.{
  ℕ, zero, suc, ◌+◌, ◌-◌, ◌^◌, ◌<◌, ◌≤◌, ◌≡◌, ◌≢◌, ◌↔◌, refl, sym, ap, subst, ◌∙◌, Option, none,
  some, List, [], ◌∷◌, ◌++◌, append_assoc, append-nil, length, Result, ok, err, Bytes, All, IsBytes,
  be16, be32, from_be, i16_of, i32_of, ℤ, pos, negsuc, arith, Result-cases, inl, inr, be32-from_be,
  be16-from_be, take-append-drop, length-take, leb, leb→le, Bool-cases, All-take, All-drop,
}
use dbsec.Prelude
use dbsec.Pgwire.Cursor.{
  Cursor, take, take_i16, nullable_body, take_nullable, take_times, whole, ◌>>=◌,
}
use dbsec.Pgwire.Cursor.Laws.{FitsI32, nullable_bytes, flat_map}

pub >>=-eq-ok {ℓ κ} :
    {A : Type ℓ} {B : Type κ} (m : Cursor A) (f : A → Cursor B) (buf : Bytes) {b : B} {rest : Bytes}
    → (m >>= f) buf ≡ ok (b, rest)
    → (a : A) × (mid : Bytes) × (m buf ≡ ok (a, mid)) × (f a mid ≡ ok (b, rest))
>>=-eq-ok m f buf h = elim (Result-cases (m buf)) [
  | inl (p, e) ↦ (p.0, p.1, e, rw e at h)
  | inr (e, p) ↦ ground (arith, p)
]

-- What `take` returns is cut from the front.
pub take-eq-ok :
    (n : ℕ) (buf : Bytes) {xs rest : Bytes}
    → IsBytes buf
    → take n buf ≡ ok (xs, rest)
    → (buf ≡ xs ++ rest) × (length xs ≡ n) × IsBytes xs × IsBytes rest
unfolding take
take-eq-ok n buf {xs} {rest} b h =
    let fits : n ≤ length buf = ground arith in
    let head : Prelude.take n buf ≡ xs = ground arith in
    let tail : Prelude.drop n buf ≡ rest = ground arith in
    (
      cc (take-append-drop n buf, head, tail),
      rw (← head) (omega (arith, length-take n buf)),
      rw (← head) (All-take _ n buf b),
      rw (← tail) (All-drop _ n buf b),
    )

-- the length that an i32 prefix gives, and the bytes behind it, read back from the value
abbrev prefix_of : Option Bytes → ℤ
prefix_of none = negsuc 0
prefix_of (some v) = pos (length v)

abbrev payload : Option Bytes → Bytes
payload none = []
payload (some v) = v

nullable_body-eq-ok :
    (z : ℤ) (buf : Bytes) {o : Option Bytes} {rest : Bytes}
    → IsBytes buf
    → nullable_body z buf ≡ ok (o, rest)
    → (buf ≡ payload o ++ rest) × (z ≡ prefix_of o) × IsBytes rest
unfolding nullable_body
nullable_body-eq-ok (pos n) buf {o} {rest} b h =
    let (v, mid, e, same) = >>=-eq-ok (take n) (λ v buf. ok (some v, buf)) buf h in
    let cut = take-eq-ok n buf b e in
    let is_v : some v ≡ o = ground arith in
    let is_rest : mid ≡ rest = ground arith in
    rw (← is_v, ← is_rest) (cut.0, ap pos (sym cut.1), cut.3)
nullable_body-eq-ok (negsuc zero) buf b h = ground arith
nullable_body-eq-ok (negsuc (suc n)) buf b h = ground arith

prefix_bytes :
    (bs : Bytes) (o : Option Bytes)
    → length bs ≡ 4
    → IsBytes bs
    → i32_of (from_be bs) ≡ prefix_of o
    → FitsI32 o × (bs ++ payload o ≡ nullable_bytes o)
prefix_bytes (a ∷ b ∷ c ∷ d ∷ []) none l h e = ground arith
prefix_bytes (a ∷ b ∷ c ∷ d ∷ []) (some v) l h e = ground arith
prefix_bytes [] o l h e = absurd (omega arith)
prefix_bytes (_ ∷ []) o l h e = absurd (omega arith)
prefix_bytes (_ ∷ _ ∷ []) o l h e = absurd (omega arith)
prefix_bytes (_ ∷ _ ∷ _ ∷ []) o l h e = absurd (omega arith)
prefix_bytes (_ ∷ _ ∷ _ ∷ _ ∷ _ ∷ _) o l h e = absurd (omega arith)

pub take_nullable-eq-ok :
    (buf : Bytes) {o : Option Bytes} {rest : Bytes}
    → IsBytes buf
    → take_nullable buf ≡ ok (o, rest)
    → (buf ≡ nullable_bytes o ++ rest) × FitsI32 o × IsBytes rest
unfolding take_nullable
take_nullable-eq-ok buf {o} {rest} b h =
    let (bs, mid, e, more) =
      >>=-eq-ok (take 4) (λ len. nullable_body (i32_of (from_be len))) buf h in
    let cut = take-eq-ok 4 buf b e in
    let body = nullable_body-eq-ok (i32_of (from_be bs)) mid cut.3 more in
    let front = prefix_bytes bs o cut.1 cut.2 body.1 in
    (
      cut.0
          ∙ ap (λ (m : Bytes). bs ++ m) body.0
          ∙ sym (append_assoc bs (payload o) rest)
          ∙ ap (λ (m : Bytes). m ++ rest) front.1,
      front.0,
      body.2,
    )

count_bytes :
    (bs : Bytes) (n : ℕ)
    → length bs ≡ 2
    → IsBytes bs
    → i16_of (from_be bs) ≡ pos n
    → (bs ≡ be16 n) × (n < 2 ^ 15)
count_bytes (a ∷ b ∷ []) n l h e = ground arith
count_bytes [] n l h e = absurd (omega arith)
count_bytes (_ ∷ []) n l h e = absurd (omega arith)
count_bytes (_ ∷ _ ∷ _ ∷ _) n l h e = absurd (omega arith)

-- An i16 that is not negative is the big-endian bytes of its value.
pub take_i16-eq-ok :
    (buf : Bytes) {n : ℕ} {rest : Bytes}
    → IsBytes buf
    → take_i16 buf ≡ ok (pos n, rest)
    → (buf ≡ be16 n ++ rest) × (n < 2 ^ 15) × IsBytes rest
unfolding take_i16
take_i16-eq-ok buf {n} {rest} b h =
    let (bs, mid, e, same) =
      >>=-eq-ok (take 2) (λ bytes buf. ok (i16_of (from_be bytes), buf)) buf h in
    let cut = take-eq-ok 2 buf b e in
    let is_rest : mid ≡ rest = ground arith in
    let is_n : i16_of (from_be bs) ≡ pos n = cc in
    let count = count_bytes bs n cut.1 cut.2 is_n in
    (cut.0 ∙ rw (count.0, is_rest), count.1, rw (← is_rest) cut.3)

pub take_times-eq-ok {ℓ κ} :
    {A : Type ℓ} (item : Cursor A) (enc : A → Bytes) (P : A → Type κ)
    → ((buf : Bytes) (a : A) (rest : Bytes)
        → IsBytes buf
        → item buf ≡ ok (a, rest)
        → (buf ≡ enc a ++ rest) × P a × IsBytes rest)
    → (n : ℕ) (buf : Bytes) {xs : List A} {rest : Bytes} → IsBytes buf
    → take_times n item buf ≡ ok (xs, rest)
    → (buf ≡ flat_map enc xs ++ rest) × All P xs × (length xs ≡ n) × IsBytes rest
unfolding take_times
take_times-eq-ok item enc P each zero buf {xs} {rest} b h =
    let nothing : [] ≡ xs = ground arith in
    let all : buf ≡ rest = ground arith in rw (← nothing, ← all) (refl, tt, refl, b)
take_times-eq-ok item enc P each (suc n) buf {xs} {rest} b h =
    let (x, mid, e, more) =
      >>=-eq-ok item (λ x. take_times n item >>= λ ys. λ buf. ok (x ∷ ys, buf)) buf h in
    let (ys, end, e', same) =
      >>=-eq-ok (take_times n item) (λ ys. λ buf. ok (x ∷ ys, buf)) mid more in
    let first = each buf x mid b e in
    let later = take_times-eq-ok item enc P each n mid first.2 e' in
    let whole_list : x ∷ ys ≡ xs = ground arith in
    let end_rest : end ≡ rest = ground arith in
    rw (← whole_list, ← end_rest)
      (
        first.0
            ∙ ap (λ (m : Bytes). enc x ++ m) later.0
            ∙ sym (append_assoc (enc x) (flat_map enc ys) end),
        (first.1, later.1),
        ap suc later.2,
        later.3,
      )

pub whole-eq-ok {ℓ} :
    {A : Type ℓ} (item : Cursor A) (buf : Bytes) {a : A}
    → whole item buf ≡ ok a
    → item buf ≡ ok (a, [])
unfolding whole
whole-eq-ok item buf {a} h = elim (Result-cases (item buf)) [
  | inl ((x, []), e) ↦ ground (arith, e)
  | inl ((x, y ∷ ys), e) ↦ ground (arith, e)
  | inr (e, p) ↦ ground (arith, p)
]
