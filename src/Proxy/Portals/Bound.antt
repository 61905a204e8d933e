-- ===== src/Proxy/Portals/Bound.antt =====
-- `SessionPortals::bind` of crates/proxy/src/portal.rs: the actions that a Bind is given.
use dbsec.Prelude.{◌≡◌, sym, Option, some, ok, ok-injective, Bytes, Result-cases, inl, inr}
use dbsec.NameMap.{get}
use dbsec.Proxy.Params.{ParamTransforms, ResultFormats}
use dbsec.Proxy.Portals.{Statement, Tracked, bind, bind_checks, guarded, params_of}

module _ {P : Type 0} where
  -- An accepted Bind is given the actions of the statement that it names.
  pub bind-params :
      (name statement : Bytes) (formats : ResultFormats) (t : Tracked P) (s : Statement P)
      {params : Option ParamTransforms}
      → get statement t.statements ≡ some s
      → (bind name statement formats t).0 ≡ ok params
      → params ≡ some s.params
  unfolding bind guarded params_of
  bind-params name statement formats t s found h =
      elim (Result-cases (bind_checks name statement t)) [
        | inl (checked, e) ↦ sym (ok-injective (rw (bind, guarded, e, params_of, found) at h))
        | inr (f, e) ↦ let refused = rw (bind, guarded, e) at h in absurd (cc)
      ]
