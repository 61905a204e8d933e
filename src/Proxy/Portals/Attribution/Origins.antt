-- ===== src/Proxy/Portals/Attribution/Origins.antt =====
-- Where the portals and the queued Executes of crates/proxy/src/portal.rs come from: the Bind and
-- the Execute in the calls of a session.
use mathlib.Core.List.{Memᴰ}
use dbsec.Prelude.{
  ℕ, ◌≡◌, refl, sym, ◌∙◌, Option, none, some, List, [], ◌∷◌, ◌++◌, append_assoc, All, leb, length,
  Result, ok, err, Bytes, Bool-cases, Option-cases, Result-cases, inl, inr,
}
use dbsec.NameMap.{get, All-insert, All-remove, All-retain, All-get}
use dbsec.Proxy.{Error, describe_target}
use dbsec.Proxy.Params.{ResultFormats}
use dbsec.Proxy.Portals.{
  idle, started, CopyIn, Portal, Statement, Pending, describing, executing, batch, Tracked, guarded,
  push, check_name, parse, parse_checks, parsed, bind, bind_checks, bound_to, close_statement,
  close_portal, expect_describe, expect_execute, expect_batch, described_ref, execution,
  execution_of, no_session,
}
use dbsec.Proxy.Portals.Answers.{
  copy_in_started, copy_data, copy_frame, describe_answered, describe_front, no_data, rederived,
  execute_answered, batch_answered,
}
use dbsec.Proxy.Portals.Sessions.{
  Call, parses, binds, closes_statement, closes_portal, expects_describe, expects_execute,
  expects_batch, copy_starts, copies, describes, has_no_data, rederives, answers_execute,
  answers_batch, step, run,
}
use dbsec.Proxy.Portals.Attribution.Captured.{RunsAs, Captures, step-RunsAs}

pub All-Mem {ℓ} :
    {A : Type ℓ} (zs xs : List A)
    → ((x : A) → Memᴰ x xs → Memᴰ x zs)
    → All (λ (x : A). Memᴰ x zs) xs
All-Mem zs [] h = tt
All-Mem zs (x ∷ xs) h = (h x (Memᴰ.head refl), All-Mem zs xs (λ y m. h y (Memᴰ.tail m)))

module _ {P : Type 0} where
  -- The Execute that runs a statement, in the calls of a session: where it was sent, its portal was
  -- open, as a Bind before it had bound it, with these formats, and the statement that this Bind
  -- names was the one with this id.
  pub record Ran (all : List (Call P)) (id : ℕ) (formats : ResultFormats) : Type 0 where
    pub before : List (Call P)
    pub after : List (Call P)
    pub name : Bytes
    pub portal : Portal
    pub statement : Statement P
    pub sent : all ≡ before ++ expects_execute name ∷ after
    pub is_open : get name (run before (no_session P)).portals ≡ some portal
    pub bound : Memᴰ (binds name portal.statement portal.result_formats) before
    pub its_formats : portal.result_formats ≡ formats
    pub is_parsed : get portal.statement (run before (no_session P)).statements ≡ some statement
    pub its_id : statement.id ≡ id

  abbrev pub RanAs : List (Call P) → Option ℕ → ResultFormats → Type 0
  RanAs all none formats = Unit
  RanAs all (some id) formats = Ran all id formats

  run-append : (xs ys : List (Call P)) (t : Tracked P) → run (xs ++ ys) t ≡ run ys (run xs t)
  unfolding run
  run-append [] ys t = refl
  run-append (x ∷ xs) ys t = run-append xs ys (step x t)

  abbrev BoundIn : List (Call P) → Bytes × Portal → Type 0
  BoundIn xs (name, portal) = Memᴰ (binds name portal.statement portal.result_formats) xs

  guarded-BoundIn :
      (xs : List (Call P)) {A : Type 0} (r : Result Error (Unit {0})) (a : A) (t' t : Tracked P)
      → All (BoundIn xs) t'.portals
      → All (BoundIn xs) t.portals
      → All (BoundIn xs) (guarded r (a, t') t).1.portals
  unfolding guarded
  guarded-BoundIn xs (ok done) a t' t h i = h
  guarded-BoundIn xs (err e) a t' t h i = i

  push-portals : (t : Tracked P) (p : Pending P) → (push t p).1.portals ≡ t.portals
  unfolding push
  push-portals t p = elim (Bool-cases (leb 4096 (length t.pending))) [
    | inl full ↦ rw (push, full) refl
    | inr space ↦ rw (push, space) refl
  ]

  copy_frame-portals :
      (msg_type : ℕ) (c : CopyIn) (t : Tracked P) → (copy_frame msg_type c t).portals ≡ t.portals
  unfolding copy_frame
  copy_frame-portals msg_type idle t = refl
  copy_frame-portals msg_type (started none) t = refl
  copy_frame-portals msg_type (started (some id)) t = refl

  describe_front-portals :
      (positions : P) (q : List (Pending P)) (t : Tracked P)
      → (describe_front positions q t).portals ≡ t.portals
  unfolding describe_front
  describe_front-portals positions [] t = refl
  describe_front-portals positions (describing none ∷ rest) t = refl
  describe_front-portals positions (describing (some ref) ∷ rest) t = refl
  describe_front-portals positions (executing e ∷ rest) t = refl
  describe_front-portals positions (batch ∷ rest) t = refl

  step-BoundIn :
      (xs : List (Call P)) (c : Call P) (t : Tracked P)
      → Memᴰ c xs
      → All (BoundIn xs) t.portals
      → All (BoundIn xs) (step c t).portals
  unfolding step parse bind close_statement close_portal expect_describe expect_execute expect_batch
      copy_data describe_answered no_data rederived execute_answered batch_answered copy_in_started
  step-BoundIn xs (parses statement params) t m h =
      guarded-BoundIn xs (parse_checks statement t) tt (parsed statement params t) t h h
  step-BoundIn xs (binds name statement formats) t m h =
      guarded-BoundIn xs (bind_checks name statement t) _ (bound_to name statement formats t) t
        (All-insert (BoundIn xs) name _ t.portals m h) h
  step-BoundIn xs (closes_statement statement) t m h = All-retain (BoundIn xs) _ t.portals h
  step-BoundIn xs (closes_portal name) t m h = All-remove (BoundIn xs) name t.portals h
  step-BoundIn xs (expects_describe target name) t m h =
      elim (Result-cases (check_name describe_target name)) [
        | inl (done, e) ↦
            rw (step, expect_describe, e)
              (rw (push-portals t (describing (described_ref target name t))) h)
        | inr (f, e) ↦ rw (step, expect_describe, e) h
      ]
  step-BoundIn xs (expects_execute name) t m h = rw (push-portals _ _) h
  step-BoundIn xs expects_batch t m h = rw (push-portals t batch) h
  step-BoundIn xs copy_starts t m h = h
  step-BoundIn xs (copies msg_type) t m h = rw (copy_frame-portals msg_type t.copy_in t) h
  step-BoundIn xs (describes positions) t m h = rw (describe_front-portals positions t.pending t) h
  step-BoundIn xs (has_no_data default) t m h = rw (describe_front-portals default t.pending t) h
  step-BoundIn xs (rederives positions) t m h = h
  step-BoundIn xs answers_execute t m h = h
  step-BoundIn xs answers_batch t m h = h

  run-BoundIn :
      (xs cs : List (Call P)) (t : Tracked P)
      → All (λ (c : Call P). Memᴰ c xs) cs
      → All (BoundIn xs) t.portals
      → All (BoundIn xs) (run cs t).portals
  unfolding run
  run-BoundIn xs [] t m h = h
  run-BoundIn xs (c ∷ cs) t m h = run-BoundIn xs cs (step c t) m.1 (step-BoundIn xs c t m.0 h)

  module _ (all : List (Call P)) where
    execution-RanAs :
        (before after : List (Call P)) (name : Bytes)
        → all ≡ before ++ expects_execute name ∷ after
        → RunsAs (RanAs all) (executing (execution name (run before (no_session P))))
    unfolding execution execution_of no_session
    execution-RanAs before after name e =
        let t = run before (no_session P) in
        elim (Option-cases (get name t.portals)) [
          | inl miss ↦ rw (execution, miss) tt
          | inr (portal, hit) ↦ elim (Option-cases (get portal.statement t.statements)) [
            | inl unparsed ↦ rw (execution, hit, unparsed) tt
            | inr (statement, is_parsed) ↦
                let here : All (λ (c : Call P). Memᴰ c before) before =
                  All-Mem before before (λ x m. m) in
                let bound =
                  All-get (BoundIn before) name t.portals
                    (run-BoundIn before before (no_session P) here tt) hit in
                rw (execution, hit, is_parsed)
                  (record {
                    before = before;
                    after = after;
                    name = name;
                    portal = portal;
                    statement = statement;
                    sent = e;
                    is_open = hit;
                    bound = bound;
                    its_formats = refl;
                    is_parsed = is_parsed;
                    its_id = refl;
                  })
          ]
        ]

    call-Captures :
        (before after : List (Call P)) (c : Call P)
        → all ≡ before ++ c ∷ after
        → Captures (RanAs all) c (run before (no_session P))
    call-Captures before after (expects_execute name) e = execution-RanAs before after name e
    call-Captures before after (parses statement params) e = tt
    call-Captures before after (binds name statement formats) e = tt
    call-Captures before after (closes_statement statement) e = tt
    call-Captures before after (closes_portal name) e = tt
    call-Captures before after (expects_describe target name) e = tt
    call-Captures before after expects_batch e = tt
    call-Captures before after copy_starts e = tt
    call-Captures before after (copies msg_type) e = tt
    call-Captures before after (describes positions) e = tt
    call-Captures before after (has_no_data default) e = tt
    call-Captures before after (rederives positions) e = tt
    call-Captures before after answers_execute e = tt
    call-Captures before after answers_batch e = tt

    pub run-RanAs :
        (before cs : List (Call P))
        → all ≡ before ++ cs
        → All (RunsAs (RanAs all)) (run before (no_session P)).pending
        → All (RunsAs (RanAs all)) (run cs (run before (no_session P))).pending
    unfolding run
    run-RanAs before [] e h = h
    run-RanAs before (c ∷ cs) e h =
        let next =
          step-RunsAs (RanAs all) c (run before (no_session P)) (call-Captures before cs c e) h in
        let same : run (before ++ c ∷ []) (no_session P) ≡ step c (run before (no_session P)) =
          run-append before (c ∷ []) (no_session P) in
        rw same at (
          run-RanAs (before ++ c ∷ []) cs (e ∙ sym (append_assoc before (c ∷ []) cs))
            (rw same next))
