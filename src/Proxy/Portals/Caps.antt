-- ===== src/Proxy/Portals/Caps.antt =====
-- The caps of crates/proxy/src/portal.rs: the calls of the write path.
pub mod Sessions
use dbsec.Prelude.{
  ℕ, ◌+◌, ◌≤◌, ◌<◌, ◌≡◌, refl, Bool, true, false, Option, none, some, List, [], ◌∷◌, ◌++◌, ◌==◌,
  if◌then◌else◌, All, leb, ltb, length, length-append, Result, ok, err, ◌>>=◌, ◌>>◌, >>=-eq-ok,
  Bytes, bytes_eq, arith, Bool-cases, Option-cases, Result-cases, inl, inr, not, ◌&&◌,
}
use dbsec.Proxy.{
  Error, Tracks, Named, prepared_statement, prepared_statements, portal, describe_target,
}
use dbsec.NameMap.{
  get, contains_key, insert, remove, retain, length-remove, length-remove-contains_key,
  length-retain, All-insert, All-remove, All-retain,
}
use dbsec.Proxy.Params.{ParamTransforms, ResultFormats}
use dbsec.Proxy.Portals.{
  idle, started, CopyIn, Portal, max_prepared_statements, max_portals, max_name_len,
  max_pending_responses, check_name, room, guarded, Target, StatementRef, Statement, Execution,
  Pending, describing, executing, batch, Tracked, parse, parse_checks, parsed, bind_checks,
  bound_to, bind, close_statement, close_portal, expect_describe, expect_execute, expect_batch,
  push, no_session,
}
use dbsec.Proxy.Portals.Answers.{
  copy_in_started, copy_data, copy_frame, drop_markers, drop_batches, describe_answered,
  describe_front, describe_entry, fill, fill_all, no_data, rederived, rederive_front,
  execute_answered, behind_execute, batch_answered, behind_batch,
}
use dbsec.Proxy.Portals.Sessions.{
  Call, parses, binds, closes_statement, closes_portal, expects_describe, expects_execute,
  expects_batch, copy_starts, copies, describes, has_no_data, rederives, answers_execute,
  answers_batch, step, run,
}

check_name-eq-ok :
    (what : Named) (name : Bytes) {done : Unit {0}}
    → check_name what name ≡ ok done
    → length name ≤ max_name_len
unfolding check_name
check_name-eq-ok what name h = ground arith

-- A name that is there is replaced, and a new one has room.
room-length {ℓ} :
    {V : Type ℓ} (what : Tracks) (limit : ℕ) (name : Bytes) (v : V) (m : List (Bytes × V))
    {done : Unit {0}}
    → room what limit name m ≡ ok done
    → length m ≤ limit
    → length (insert name v m) ≤ limit
unfolding room insert
room-length what limit name v m h fits = elim (Bool-cases (contains_key name m)) [
  | inl there ↦ omega (arith, length-remove-contains_key name m there)
  | inr absent ↦
      let short : length m < limit = ground (arith, absent) in omega (arith, length-remove name m)
]

abbrev pub HasShortName {ℓ} : {V : Type ℓ} → Bytes × V → Type 0
HasShortName (name, v) = length name ≤ max_name_len

module _ {P : Type 0} where
  pub record IsCapped (t : Tracked P) : Type 0 where
    pub statements_fit : length t.statements ≤ max_prepared_statements
    pub portals_fit : length t.portals ≤ max_portals
    pub pending_fits : length t.pending ≤ max_pending_responses
    pub statement_names : All HasShortName t.statements
    pub portal_names : All HasShortName t.portals

  -- only the queue changes, and does not grow
  pub shrunk :
      (t : Tracked P) (q : List (Pending P)) (c : CopyIn)
      → length q ≤ length t.pending
      → IsCapped t
      → IsCapped (record t { pending = q; copy_in = c })
  shrunk t q c h i = record {
    statements_fit = i.statements_fit;
    portals_fit = i.portals_fit;
    pending_fits = omega (arith, i.pending_fits);
    statement_names = i.statement_names;
    portal_names = i.portal_names;
  }

  guarded-IsCapped :
      {A : Type 0} (r : Result Error (Unit {0})) (a : A) (t' t : Tracked P)
      → (r ≡ ok tt → IsCapped t')
      → IsCapped t
      → IsCapped (guarded r (a, t') t).1
  unfolding guarded
  guarded-IsCapped (ok done) a t' t h i = h refl
  guarded-IsCapped (err e) a t' t h i = i

  pub push-IsCapped : (t : Tracked P) (p : Pending P) → IsCapped t → IsCapped (push t p).1
  unfolding push
  push-IsCapped t p i = elim (Bool-cases (leb 4096 (length t.pending))) [
    | inl full ↦ rw (push, full) i
    | inr space ↦
        let short : length t.pending < 4096 = ground (arith, space) in
        rw (push, space)
          (record {
            statements_fit = i.statements_fit;
            portals_fit = i.portals_fit;
            pending_fits = omega (arith, short, length-append {0} t.pending (p ∷ []));
            statement_names = i.statement_names;
            portal_names = i.portal_names;
          })
  ]

  pub parse-IsCapped :
      (statement : Bytes) (params : ParamTransforms) (t : Tracked P)
      → IsCapped t
      → IsCapped (parse statement params t).1
  unfolding parse
  parse-IsCapped statement params t i =
      guarded-IsCapped (parse_checks statement t) tt (parsed statement params t) t
        (λ h.
          let (named, e, fits) =
            >>=-eq-ok (check_name prepared_statement statement)
              (λ x. room prepared_statements 1024 statement t.statements) h in
          record {
            statements_fit =
                room-length prepared_statements 1024 statement _ t.statements fits i.statements_fit;
            portals_fit = i.portals_fit;
            pending_fits = i.pending_fits;
            statement_names =
                All-insert HasShortName statement _ t.statements
                  (check_name-eq-ok prepared_statement statement e) i.statement_names;
            portal_names = i.portal_names;
          })
        i

  pub bind-IsCapped :
      (name statement : Bytes) (formats : ResultFormats) (t : Tracked P)
      → IsCapped t
      → IsCapped (bind name statement formats t).1
  unfolding bind
  bind-IsCapped name statement formats t i =
      guarded-IsCapped (bind_checks name statement t) _ (bound_to name statement formats t) t
        (λ h.
          let (named, e, h') =
            >>=-eq-ok (check_name portal name)
              (λ x.
                check_name prepared_statement statement >> room Tracks.portals 1024 name t.portals)
              h in
          let (named', e', fits) =
            >>=-eq-ok (check_name prepared_statement statement)
              (λ x. room Tracks.portals 1024 name t.portals) h' in
          record {
            statements_fit = i.statements_fit;
            portals_fit = room-length Tracks.portals 1024 name _ t.portals fits i.portals_fit;
            pending_fits = i.pending_fits;
            statement_names = i.statement_names;
            portal_names =
                All-insert HasShortName name _ t.portals (check_name-eq-ok portal name e)
                  i.portal_names;
          })
        i

  pub close_statement-IsCapped :
      (statement : Bytes) (t : Tracked P) → IsCapped t → IsCapped (close_statement statement t)
  unfolding close_statement
  close_statement-IsCapped statement t i = record {
    statements_fit = omega (arith, i.statements_fit, length-remove statement t.statements);
    portals_fit = omega (
      arith,
      i.portals_fit,
      length-retain (λ (b : Portal). not (bytes_eq b.statement statement)) t.portals,
    );
    pending_fits = i.pending_fits;
    statement_names = All-remove HasShortName statement t.statements i.statement_names;
    portal_names = All-retain HasShortName _ t.portals i.portal_names;
  }

  pub close_portal-IsCapped :
      (name : Bytes) (t : Tracked P) → IsCapped t → IsCapped (close_portal name t)
  unfolding close_portal
  close_portal-IsCapped name t i = record {
    statements_fit = i.statements_fit;
    portals_fit = omega (arith, i.portals_fit, length-remove name t.portals);
    pending_fits = i.pending_fits;
    statement_names = i.statement_names;
    portal_names = All-remove HasShortName name t.portals i.portal_names;
  }

  pub expect_describe-IsCapped :
      (target : Target) (name : Bytes) (t : Tracked P)
      → IsCapped t
      → IsCapped (expect_describe target name t).1
  unfolding expect_describe
  expect_describe-IsCapped target name t i = elim (Result-cases (check_name describe_target name)) [
    | inl (done, e) ↦ rw (expect_describe, e) (push-IsCapped t _ i)
    | inr (e, p) ↦ rw (expect_describe, p) i
  ]

  pub expect_execute-IsCapped :
      (name : Bytes) (t : Tracked P) → IsCapped t → IsCapped (expect_execute name t).1
  unfolding expect_execute
  expect_execute-IsCapped name t i = push-IsCapped _ _ (record {
    statements_fit = i.statements_fit;
    portals_fit = i.portals_fit;
    pending_fits = i.pending_fits;
    statement_names = i.statement_names;
    portal_names = i.portal_names;
  })
