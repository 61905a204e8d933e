-- ===== src/Proxy/Portals/Attribution/Logged.antt =====
-- What the read path is given after any sequence of calls.
use mathlib.Core.List.{Memᴰ}
use dbsec.Prelude.{
  ℕ, ◌≡◌, refl, Option, none, some, List, [], ◌∷◌, ◌++◌, All, arith, subst, some-injective,
}
use dbsec.Proxy.Params.{ResultFormats}
use dbsec.Proxy.Portals.{
  Execution, Pending, describing, executing, batch, Tracked, from_portal, no_session,
}
use dbsec.Proxy.Portals.Answers.{row_source, front_source}
use dbsec.Proxy.Portals.Sessions.{Call, step, run, log, entry}
use dbsec.Proxy.Portals.Attribution.Captured.{RunsAs}
use dbsec.Proxy.Portals.Attribution.Origins.{All-Mem, Ran, RanAs, run-RanAs}
use dbsec.Proxy.Portals.Attribution.{HeldBy, HeldPending, Attributed}
use dbsec.Proxy.Portals.Attribution.Reads.{step-Attributed}

All-left {ℓ} :
    {A : Type ℓ} (D : A → Type 0) (xs ys : List A) → All D (xs ++ ys) → All D xs × All D ys
All-left D [] ys h = (tt, h)
All-left D (x ∷ xs) ys h = let (l, r) = All-left D xs ys h.1 in ((h.0, l), r)

module _ {P : Type 0} where
  run-Attributed :
      (D : ℕ × P → Type 0) (cs : List (Call P)) (t : Tracked P)
      → All D (log cs t)
      → Attributed D t
      → Attributed D (run cs t)
  unfolding run log
  run-Attributed D [] t d i = i
  run-Attributed D (c ∷ cs) t d i =
      let (now, later) = All-left D (entry c t) (log cs (step c t)) d in
      run-Attributed D cs (step c t) later (step-Attributed D c t now i)

  -- What the read path takes for the rows of the Execute in front of a session's queue.
  pub record Serves (cs : List (Call P)) (positions : P) (formats : ResultFormats) : Type 0 where
    pub front : Execution P
    pub rest : List (Pending P)
    pub statement : ℕ
    pub in_front : (run cs (no_session P)).pending ≡ executing front ∷ rest
    pub runs : front.statement ≡ some statement
    pub sent_as : Ran cs statement formats
    pub told : Memᴰ (statement, positions) (log cs (no_session P))

  held_statement :
      (D : ℕ × P → Type 0) (o : Option ℕ) (held : Option P) (positions : P)
      → HeldBy D o held
      → held ≡ some positions
      → (id : ℕ) × (o ≡ some id) × D (id, positions)
  held_statement D (some id) (some p) positions h e =
      let same : p ≡ positions = ground arith in (id, refl, rw (← same) h)
  held_statement D (some id) none positions h e = ground arith
  held_statement D none (some p) positions h e = ground arith
  held_statement D none none positions h e = ground arith

  source_of :
      (held : Option P) (e : Execution P) (rest : List (Pending P)) {positions : P}
      {formats : ResultFormats}
      → e.positions ≡ held
      → front_source (executing e ∷ rest) ≡ from_portal positions formats
      → (held ≡ some positions) × (e.result_formats ≡ formats)
  unfolding front_source
  source_of none e rest h k = let k' = rw h at k in ground arith
  source_of (some p) e rest h k = let k' = rw h at k in ground arith

  ran :
      (cs : List (Call P)) (o : Option ℕ) (held : ResultFormats) {id : ℕ} {formats : ResultFormats}
      → RanAs cs o held
      → o ≡ some id
      → held ≡ formats
      → Ran cs id formats
  ran cs none held r e f = absurd (cc)
  ran cs (some x) held r e f =
      subst (Ran cs _) f (subst (λ (n : ℕ). Ran cs n held) (some-injective e) r)

  front-Serves :
      (cs : List (Call P)) (q : List (Pending P)) {positions : P} {formats : ResultFormats}
      → (run cs (no_session P)).pending ≡ q
      → All (HeldPending (λ (x : ℕ × P). Memᴰ x (log cs (no_session P)))) q
      → All (RunsAs (RanAs cs)) q
      → front_source q ≡ from_portal positions formats
      → Serves cs positions formats
  unfolding front_source
  front-Serves cs [] is_q h r e = ground arith
  front-Serves cs (batch ∷ q) is_q h r e = ground arith
  front-Serves cs (describing x ∷ q) is_q h r e = ground arith
  front-Serves cs (executing x ∷ q) {positions} {formats} is_q h r e =
      let (held, same) = source_of x.positions x q refl e in
      let (id, runs, told) =
        held_statement (λ (y : ℕ × P). Memᴰ y (log cs (no_session P))) x.statement x.positions
          positions h.0 held in
      record {
        front = x;
        rest = q;
        statement = id;
        in_front = is_q;
        runs = runs;
        sent_as = ran cs x.statement x.result_formats r.0 runs same;
        told = told;
      }

  -- After any sequence of calls, in any interleaving of the two directions: when the read path takes
  -- a description for the rows that it reads, an Execute is at the front of the queue. Where that
  -- Execute was sent, its portal was open, as a Bind before it had bound it, and the formats that
  -- the rows are read in are those of this Bind; and the description is one that the session was
  -- told for the statement which then went by the name that this Bind gives. If that name was
  -- parsed again between the Bind and the Execute, this is the new statement, and not the one that
  -- the portal was bound to.
  pub row_source-Serves :
      (cs : List (Call P)) {positions : P} {formats : ResultFormats}
      → row_source (run cs (no_session P)) ≡ from_portal positions formats
      → Serves cs positions formats
  unfolding row_source no_session run
  row_source-Serves cs e =
      let all = log cs (no_session P) in
      let i =
        run-Attributed (λ (x : ℕ × P). Memᴰ x all) cs (no_session P) (All-Mem all all (λ x m. m))
          (record { statements_held = tt; pending_held = tt }) in
      front-Serves cs (run cs (no_session P)).pending refl i.pending_held
        (run-RanAs cs [] cs refl tt) e
