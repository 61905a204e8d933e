-- ===== src/Proxy/Session/Transparent.antt =====
-- The relays of crates/proxy/src/session.rs where nothing is configured: bytes pass unchanged.
use dbsec.Prelude.{
  ℕ, ◌≡◌, refl, sym, ap, ◌∙◌, none, [], ◌∷◌, ◌++◌, ◌==◌, ◌||◌, append_assoc, ltb, Result, ok, err,
  Bytes, inl, inr, Bool-cases, Option-cases, Result-cases, ok-injective, subst,
}
use dbsec.Pgwire.{max_message_len}
use dbsec.Pgwire.Frames.{frame_body_len}
use dbsec.Proxy.{Error, FrameAction, relay}
use dbsec.Proxy.Rows.Frames as RowFrames
use dbsec.Proxy.Session.{
  Half, write_all, shut_down, Writers, Progress, going, ended, read_exact, read_header, forwarded,
  act, Relay, acted, with_body, with_header, round,
}
use dbsec.Proxy.Session.Sides.{
  Session, Sides, client_side, upstream_side, after_client, after_upstream, client_round,
  upstream_round, Step, client_step, upstream_step, Reach, here, later,
}
use dbsec.Proxy.Session.Framed.{read_exact-eq-some, read_header-eq-some}
use dbsec.Proxy.Session.Live.{
  Shared, sides, from_client, from_upstream, decrypt_frame, note, note_backend_state,
}
use dbsec.Proxy.Writes.{Rewriting}

-- What is left to forward: what is unread, unless the relay has ended.
abbrev Left : Progress → Bytes → Bytes → Type 0
Left going left unread = left ≡ unread
Left (ended r) left unread = Unit

-- How far a relay is with what its peer sends.
abbrev Passed : Bytes → Bytes → Progress → Bytes → Type 0
Passed sent written p unread = (left : Bytes) × (written ++ left ≡ sent) × Left p left unread

-- a relay that was going has everything left that is unread
onward :
    (sent before : Bytes) (p : Progress) (unread after : Bytes) (p' : Progress) (unread' : Bytes)
    → p ≡ going
    → Passed sent before p unread
    → Passed (before ++ unread) after p' unread'
    → Passed sent after p' unread'
onward sent before p unread after p' unread' on (left, split, rest) (left', split', rest') =
    let all_left : left ≡ unread = subst (λ q. Left q left unread) on rest in
    (left', split' ∙ ap (◌++◌ before) (sym all_left) ∙ split, rest')

module _ {T : Type 0} (Plain : T → Type 0) where
  -- A round forwards from the front of the input, and touches nothing else.
  abbrev Moved : Half → Half → Bytes → Progress × Relay T → Type 0
  Moved forward back unread (p, after) =
      (left : Bytes) × (after.writers.forward.written ++ left ≡ forward.written ++ unread)
      × Left p left after.unread
      × (after.writers.back ≡ back)
      × Plain after.state

  -- A transform that only relays.
  Relays : (ℕ → Bytes → T → Result Error FrameAction × T) → Type 0
  Relays transform =
      (t : ℕ) (body : Bytes) (s : T)
      → Plain s
      → ((transform t body s).0 ≡ ok relay) × Plain (transform t body s).1

  module _ (transform : ℕ → Bytes → T → Result Error FrameAction × T) where
    acted-Moved :
        (t : ℕ) (header body rest : Bytes) (p : Result Error FrameAction × T) (w : Writers)
        → p.0 ≡ ok relay
        → Plain p.1
        → Moved w.forward w.back (header ++ (body ++ rest)) (acted transform t header body rest p w)
    unfolding acted act forwarded write_all
    acted-Moved t header body rest (err e, s) w h q = absurd (cc)
    acted-Moved t header body rest (ok action, s) w h q =
        rw (acted, ok-injective h)
          (elim (Bool-cases w.forward.closed) [
            | inl e ↦ rw (forwarded, write_all, e) (header ++ (body ++ rest), refl, tt, refl, q)
            | inr e ↦
                rw (forwarded, write_all, e)
                  (
                    rest,
                    append_assoc w.forward.written (header ++ body) rest
                        ∙ ap (◌++◌ w.forward.written) (append_assoc header body rest),
                    refl,
                    refl,
                    q,
                  )
          ])

    module _ (relays : Relays transform) where
      with_header-Moved :
          (max_body t a b c d : ℕ) (rest : Bytes) (r : Relay T)
          → t ∷ a ∷ b ∷ c ∷ d ∷ rest ≡ r.unread
          → Plain r.state
          → Moved r.writers.forward r.writers.back r.unread
              (with_header transform max_body t (a ∷ b ∷ c ∷ d ∷ []) rest r)
      unfolding with_header with_body Relays
      with_header-Moved max_body t a b c d rest r whole q =
          elim (Result-cases (frame_body_len t (a ∷ b ∷ c ∷ d ∷ []))) [
            | inr (x, e) ↦ rw (with_header, e) (r.unread, refl, tt, refl, q)
            | inl ((kind, n), e) ↦ elim (Bool-cases (ltb max_body n)) [
              | inl f ↦ rw (with_header, e, f) (r.unread, refl, tt, refl, q)
              | inr f ↦ elim (Option-cases (read_exact n rest)) [
                | inl g ↦ rw (with_header, e, f, with_body, g) (r.unread, refl, tt, refl, q)
                | inr ((body, rest'), g) ↦
                    let (_, split) = read_exact-eq-some n rest g in
                    let (is_relay, plain) = relays kind body r.state q in
                    rw (with_header, e, f, with_body, g, ← whole, ← split)
                      (acted-Moved kind (t ∷ a ∷ b ∷ c ∷ d ∷ []) body rest'
                        (transform kind body r.state) r.writers is_relay plain)
              ]
            ]
          ]

      round-Moved :
          (max_body : ℕ) (r : Relay T)
          → Plain r.state
          → Moved r.writers.forward r.writers.back r.unread (round transform max_body r)
      unfolding round shut_down
      round-Moved max_body r q = elim (Option-cases (read_header r.unread)) [
        | inl e ↦ rw (round, e) (r.unread, refl, tt, refl, q)
        | inr ((t, len_field, rest), e) ↦
            let (a, b, c, d, four, whole) = read_header-eq-some r.unread e in
            rw (round, e, four) (with_header-Moved max_body t a b c d rest r (rw four at whole) q)
      ]

  module _ (sides : Sides T) where
    -- Both sides only relay, in every state that is plain.
    record IsPlain : Type 0 where
      client : Relays sides.from_client
      upstream : Relays sides.from_upstream

    record Forwards (client upstream : Bytes) (s : Session T) : Type 0 where
      from_client : Passed client s.to_upstream.written s.client_relay s.client_in
      from_upstream : Passed upstream s.to_client.written s.upstream_relay s.upstream_in
      plain : Plain s.state

    Step-Forwards :
        {client upstream : Bytes} {s t : Session T}
        → IsPlain
        → Step sides s t
        → Forwards client upstream s
        → Forwards client upstream t
    unfolding client_round upstream_round after_client after_upstream
    Step-Forwards {client} {upstream} {s} p (client_step on) f =
        let (left, split, rest, same, plain) =
          round-Moved sides.from_client p.client (sides.client_limit s.state) (client_side s)
            f.plain in
        record {
          from_client =
              onward client s.to_upstream.written s.client_relay s.client_in _ _ _ on f.from_client
                (left, split, rest);
          from_upstream =
              subst (λ (h : Half). Passed upstream h.written s.upstream_relay s.upstream_in)
                (sym same) f.from_upstream;
          plain = plain;
        }
    Step-Forwards {client} {upstream} {s} p (upstream_step on) f =
        let (left, split, rest, same, plain) =
          round-Moved sides.from_upstream p.upstream max_message_len (upstream_side s) f.plain in
        record {
          from_client =
              subst (λ (h : Half). Passed client h.written s.client_relay s.client_in) (sym same)
                f.from_client;
          from_upstream =
              onward upstream s.to_client.written s.upstream_relay s.upstream_in _ _ _ on
                f.from_upstream (left, split, rest);
          plain = plain;
        }

    Reach-Forwards :
        {client upstream : Bytes} {start s : Session T}
        → IsPlain
        → Reach sides start s
        → Forwards client upstream start
        → Forwards client upstream s
    Reach-Forwards p here f = f
    Reach-Forwards p (later r st) f = Step-Forwards p st (Reach-Forwards p r f)

Left-refl : (p : Progress) (unread : Bytes) → Left p unread unread
Left-refl going unread = refl
Left-refl (ended r) unread = tt

at_start :
    (written : Bytes) (p : Progress) (unread : Bytes)
    → written ≡ []
    → Passed unread written p unread
at_start written p unread h = (unread, ap (λ w. w ++ unread) h, Left-refl p unread)

all_passed :
    (sent written : Bytes) (p : Progress) (unread : Bytes)
    → p ≡ going
    → Passed sent written p unread
    → written ++ unread ≡ sent
all_passed sent written p unread on (left, split, rest) =
    let all_left : left ≡ unread = subst (λ q. Left q left unread) on rest in
    ap (◌++◌ written) (sym all_left) ∙ split

-- Neither half of the proxy is configured.
abbrev Unconfigured : {Q S : Type 0} → Shared Q S → Type 0
Unconfigured s = (s.rewriter ≡ none) × (s.decryptor ≡ none)

module _ {Q S : Type 0} (rw' : Rewriting Q S) (texts : RowFrames.Texts) where
  note-Unconfigured :
      (t : ℕ) (body : Bytes) (s : Shared Q S) → Unconfigured s → Unconfigured (note t body s)
  unfolding note note_backend_state
  note-Unconfigured t body s h = elim (Bool-cases (t == b'Z')) [
    | inl e ↦ rw (note, note_backend_state, e) h
    | inr e ↦ elim (Bool-cases (t == b'G' || t == b'W')) [
      | inl f ↦ rw (note, note_backend_state, e, f) h
      | inr f ↦ rw (note, note_backend_state, e, f) h
    ]
  ]

  sides-IsPlain : IsPlain Unconfigured (sides rw' texts)
  unfolding Relays from_client from_upstream decrypt_frame
  sides-IsPlain = record {
    client = λ t body s h. rw (from_client, h.0) (refl, h);
    upstream =
        λ t body s h. let n = note-Unconfigured t body s h in rw (decrypt_frame, n.1) (refl, n);
  }

  -- With nothing to protect, the proxy is transparent: at any moment of a session whose relays still
  -- run, however their rounds interleave, what each peer was sent is what the other has sent so far,
  -- byte for byte, less what is not read yet. The session starts with nothing written.
  pub session-transparent :
      (start : Session (Shared Q S)) {s : Session (Shared Q S)}
      → start.state.rewriter ≡ none
      → start.state.decryptor ≡ none
      → start.to_client.written ≡ []
      → start.to_upstream.written ≡ []
      → Reach (sides rw' texts) start s
      → s.client_relay ≡ going
      → s.upstream_relay ≡ going
      → (s.to_upstream.written ++ s.client_in ≡ start.client_in)
        × (s.to_client.written ++ s.upstream_in ≡ start.upstream_in)
  session-transparent start {s} rewriter decryptor c u r on on' =
      let f = Reach-Forwards Unconfigured (sides rw' texts) sides-IsPlain r (record {
        from_client = at_start start.to_upstream.written start.client_relay start.client_in u;
        from_upstream = at_start start.to_client.written start.upstream_relay start.upstream_in c;
        plain = (rewriter, decryptor);
      }) in
      (
        all_passed _ s.to_upstream.written s.client_relay s.client_in on f.from_client,
        all_passed _ s.to_client.written s.upstream_relay s.upstream_in on' f.from_upstream,
      )
