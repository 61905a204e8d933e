-- ===== src/Proxy/Params/Recorded.antt =====
-- `ParamTransforms::record`: at most one action for a parameter.
use dbsec.Prelude.{
  ℕ, ◌≡◌, refl, true, none, some, [], ◌∷◌, ◌++◌, ◌==◌, ==_iff, ok, bytes_eq_refl, arith, Bool-cases,
  Option-cases, inl, inr,
}
use dbsec.Proxy.Params.{
  RowKeySource, unkeyed, literal, param, ParamAction, seal_param, search_param, search_array_param,
  source_eq, agrees_with, ParamTransforms, find_action, record_action,
}

==_refl : (n : ℕ) → (n == n) ≡ true
==_refl n = (==_iff n n).1 refl

source_eq_refl : (s : RowKeySource) → source_eq s s ≡ true
unfolding source_eq
source_eq_refl unkeyed = refl
source_eq_refl (literal k) = bytes_eq_refl k.canonical
source_eq_refl (param i t c) = rw (==_refl i, ==_refl t, bytes_eq_refl c)

agrees_with_refl : (a : ParamAction) → agrees_with a a ≡ true
unfolding agrees_with
agrees_with_refl (seal_param a s) = rw (==_refl a, source_eq_refl s)
agrees_with_refl (search_param a) = ==_refl a
agrees_with_refl (search_array_param a c) = rw (==_refl a, bytes_eq_refl c)

find_action-append :
    (es : ParamTransforms) (i : ℕ) (a : ParamAction)
    → find_action i es ≡ none
    → find_action i (es ++ (i, a) ∷ []) ≡ some a
unfolding find_action
find_action-append [] i a h = rw (==_refl i)
find_action-append ((j, b) ∷ es) i a h = elim (Bool-cases (j == i)) [
  | inl same ↦ ground (arith, same)
  | inr other ↦ rw (find_action, other) (find_action-append es i a (rw (find_action, other) at h))
]

find_action-append_kept :
    (es : ParamTransforms) (i j : ℕ) (a : ParamAction) {b : ParamAction}
    → find_action j es ≡ some b
    → find_action j (es ++ (i, a) ∷ []) ≡ some b
unfolding find_action
find_action-append_kept [] i j a h = ground arith
find_action-append_kept ((k, c) ∷ es) i j a h = elim (Bool-cases (k == j)) [
  | inl same ↦ rw (find_action, same) (rw (find_action, same) at h)
  | inr other ↦
      rw (find_action, other) (find_action-append_kept es i j a (rw (find_action, other) at h))
]

-- Where an action is recorded, the action found for that parameter agrees with it from then on:
-- Bind does to the parameter what the statement's text asked for, or the statement is refused.
pub record_action-eq-ok :
    (es : ParamTransforms) (i : ℕ) (a : ParamAction) {es' : ParamTransforms}
    → record_action es i a ≡ ok es'
    → (b : ParamAction) × (find_action i es' ≡ some b) × (agrees_with b a ≡ true)
unfolding record_action
record_action-eq-ok es i a {es'} h = elim (Option-cases (find_action i es)) [
  | inl absent ↦
      let added : es ++ (i, a) ∷ [] ≡ es' =
        let h' = rw (record_action, absent) at h in ground arith in
      (a, rw (← added) (find_action-append es i a absent), agrees_with_refl a)
  | inr (b, there) ↦ elim (Bool-cases (agrees_with b a)) [
    | inl agrees ↦
        let kept : es ≡ es' = let h' = rw (record_action, there, agrees) at h in ground arith in
        (b, rw (← kept) there, agrees)
    | inr differs ↦ let h' = rw (record_action, there, differs) at h in ground arith
  ]
]

-- Recording an action changes no action that was recorded before.
pub record_action-kept :
    (es : ParamTransforms) (i j : ℕ) (a : ParamAction) {es' : ParamTransforms} {b : ParamAction}
    → find_action j es ≡ some b
    → record_action es i a ≡ ok es'
    → find_action j es' ≡ some b
unfolding record_action
record_action-kept es i j a {es'} {b} f h = elim (Option-cases (find_action i es)) [
  | inl absent ↦
      let added : es ++ (i, a) ∷ [] ≡ es' =
        let h' = rw (record_action, absent) at h in ground arith in
      rw (← added) (find_action-append_kept es i j a f)
  | inr (c, there) ↦ elim (Bool-cases (agrees_with c a)) [
    | inl agrees ↦
        let kept : es ≡ es' = let h' = rw (record_action, there, agrees) at h in ground arith in
        rw (← kept) f
    | inr differs ↦ let h' = rw (record_action, there, differs) at h in ground arith
  ]
]
