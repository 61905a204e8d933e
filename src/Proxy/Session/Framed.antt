-- ===== src/Proxy/Session/Framed.antt =====
-- The relays of crates/proxy/src/session.rs: what they write is whole frames.
use dbsec.Prelude.{
  ℕ, ◌+◌, ◌/◌, ◌%◌, ◌^◌, ◌≤◌, ◌≡◌, refl, sym, ap, ap₂, ◌∙◌, some, [], ◌∷◌, ◌++◌, append_assoc,
  append-nil, leb, ltb, leb→le, length, length-take, take-append-drop, Result, ok, err, Bytes, be32,
  from_be-be32, arith, subst, inl, inr, Bool-cases, Option-cases, Result-cases, some-injective,
}
use dbsec.Pgwire.{max_message_len}
use dbsec.Pgwire.Frames.{frame_body_len}
use dbsec.Pgwire.Frames.Bounds.{frame_body_len-eq-ok, frame_body_len_kind}
use dbsec.Proxy.{Error, FrameAction, relay, replace_body, reply, refuse_and_close}
use dbsec.Proxy.Session.{
  write_all, shut_down, Writers, read_exact, read_header, encode_frame_header, forwarded, answered,
  refused_and_closed, act, Relay, acted, with_body, with_header, round,
}
use dbsec.Proxy.Session.Sides.{
  Session, Sides, client_side, upstream_side, after_client, after_upstream, client_round,
  upstream_round, Step, client_step, upstream_step, Reach, here, later,
}

-- Bytes that are whole frames, as `frame_body_len` reads them.
pub data Framed : Bytes → Type 0 where
  no_frames : Framed []
  one_more :
      (t a b c d : ℕ) (body rest : Bytes)
      → frame_body_len t (a ∷ b ∷ c ∷ d ∷ []) ≡ ok (t, length body)
      → Framed rest
      → Framed (t ∷ a ∷ b ∷ c ∷ d ∷ (body ++ rest))

pub Framed-append : {xs ys : Bytes} → Framed xs → Framed ys → Framed (xs ++ ys)
Framed-append no_frames g = g
Framed-append {ys = ys} (one_more t a b c d body rest e f) g =
    subst (λ x. Framed (t ∷ a ∷ b ∷ c ∷ d ∷ x)) (sym (append_assoc body rest ys))
      (one_more t a b c d body (rest ++ ys) e (Framed-append f g))

-- One frame, with its header in front.
pub frame-Framed :
    (t a b c d : ℕ) (body : Bytes)
    → frame_body_len t (a ∷ b ∷ c ∷ d ∷ []) ≡ ok (t, length body)
    → Framed (t ∷ a ∷ b ∷ c ∷ d ∷ body)
frame-Framed t a b c d body e =
    subst (λ x. Framed (t ∷ a ∷ b ∷ c ∷ d ∷ x)) (append-nil body)
      (one_more t a b c d body [] e no_frames)

pub be32-Framed :
    (t : ℕ) (body : Bytes)
    → length body + 4 ≤ max_message_len
    → Framed (t ∷ (be32 (length body + 4) ++ body))
be32-Framed t body l =
    let n = length body + 4 in
    frame-Framed t (n / 2 ^ 24 % 256) (n / 2 ^ 16 % 256) (n / 2 ^ 8 % 256) (n % 256) body (
      (frame_body_len-eq-ok t t (n / 2 ^ 24 % 256) (n / 2 ^ 16 % 256) (n / 2 ^ 8 % 256) (n % 256)
          (length body) (omega arith)).1
        (refl, from_be-be32 n (omega (arith, l)), l))

-- What a transform answers by itself is whole frames.
abbrev pub Answers : Result Error FrameAction → Type 0
Answers (err e) = Unit
Answers (ok relay) = Unit
Answers (ok (replace_body body)) = Unit
Answers (ok (reply frames)) = Framed frames
Answers (ok (refuse_and_close frames)) = Framed frames

abbrev Both : Writers → Type 0
Both w = Framed w.forward.written × Framed w.back.written

forwarded-Both : (bytes : Bytes) (w : Writers) → Framed bytes → Both w → Both (forwarded bytes w).1
unfolding forwarded write_all
forwarded-Both bytes w f h = elim (Bool-cases w.forward.closed) [
  | inl e ↦ rw (forwarded, write_all, e) h
  | inr e ↦ rw (forwarded, write_all, e) (Framed-append h.0 f, h.1)
]

answered-Both : (bytes : Bytes) (w : Writers) → Framed bytes → Both w → Both (answered bytes w).1
unfolding answered write_all
answered-Both bytes w f h = elim (Bool-cases w.back.closed) [
  | inl e ↦ rw (answered, write_all, e) h
  | inr e ↦ rw (answered, write_all, e) (h.0, Framed-append h.1 f)
]

refused_and_closed-Both :
    (bytes : Bytes) (w : Writers) → Framed bytes → Both w → Both (refused_and_closed bytes w).1
unfolding refused_and_closed write_all shut_down
refused_and_closed-Both bytes w f h = elim (Bool-cases w.forward.closed) [
  | inl e ↦ rw (refused_and_closed, write_all, e) h
  | inr e ↦ rw (refused_and_closed, write_all, e) (Framed-append h.0 f, h.1)
]

act-Both :
    (t a b c d : ℕ) (body : Bytes) (action : FrameAction) (w : Writers)
    → frame_body_len t (a ∷ b ∷ c ∷ d ∷ []) ≡ ok (t, length body)
    → Answers (ok action)
    → Both w
    → Both (act t (t ∷ a ∷ b ∷ c ∷ d ∷ []) body action w).1
unfolding act encode_frame_header
act-Both t a b c d body relay w e f h = forwarded-Both _ w (frame-Framed t a b c d body e) h
act-Both t a b c d body (replace_body new) w e f h =
    elim (Bool-cases (leb (length new + 4) max_message_len)) [
      | inl g ↦
          rw (act, encode_frame_header, g) (forwarded-Both _ w (be32-Framed t new (leb→le _ _ g)) h)
      | inr g ↦ rw (act, encode_frame_header, g) h
    ]
act-Both t a b c d body (reply []) w e f h = h
act-Both t a b c d body (reply (x ∷ frames)) w e f h = answered-Both (x ∷ frames) w f h
act-Both t a b c d body (refuse_and_close frames) w e f h = refused_and_closed-Both frames w f h

pub read_exact-eq-some :
    (n : ℕ) (input : Bytes) {body rest : Bytes}
    → read_exact n input ≡ some (body, rest)
    → (length body ≡ n) × (body ++ rest ≡ input)
unfolding read_exact
read_exact-eq-some n input h = elim (Bool-cases (leb n (length input))) [
  | inr e ↦ absurd (ground (arith, h, e))
  | inl e ↦
      let same = some-injective (rw (read_exact, e) at h) in
      (
        ap length (sym (ap (λ p. p.0) same)) ∙ omega (arith, length-take n input, leb→le _ _ e),
        ap₂ ◌++◌ (sym (ap (λ p. p.0) same)) (sym (ap (λ p. p.1) same)) ∙ take-append-drop n input,
      )
]

-- A header is read from the front, and its type and four bytes are what was there.
pub read_header-eq-some :
    (input : Bytes) {t : ℕ} {len_field rest : Bytes}
    → read_header input ≡ some (t, len_field, rest)
    → (a : ℕ) × (b : ℕ) × (c : ℕ) × (d : ℕ) × (len_field ≡ a ∷ b ∷ c ∷ d ∷ [])
      × (t ∷ (len_field ++ rest) ≡ input)
unfolding read_header
read_header-eq-some (t' ∷ a ∷ b ∷ c ∷ d ∷ rest') h =
    let same = some-injective h in
    (
      a,
      b,
      c,
      d,
      sym (ap (λ p. p.1) same),
      ap (λ (p : ℕ × Bytes × Bytes). p.0 ∷ (p.1 ++ p.2)) (sym same),
    )
read_header-eq-some _ h = absurd (cc)

module _ {T : Type 0} (transform : ℕ → Bytes → T → Result Error FrameAction × T)
    (answers : (t : ℕ) (body : Bytes) (s : T) → Answers (transform t body s).0) where
  acted-Both :
      (t a b c d : ℕ) (body rest : Bytes) (p : Result Error FrameAction × T) (w : Writers)
      → frame_body_len t (a ∷ b ∷ c ∷ d ∷ []) ≡ ok (t, length body)
      → Answers p.0
      → Both w
      → Both (acted transform t (t ∷ a ∷ b ∷ c ∷ d ∷ []) body rest p w).1.writers
  unfolding acted
  acted-Both t a b c d body rest (err x, s) w e f h = h
  acted-Both t a b c d body rest (ok action, s) w e f h = act-Both t a b c d body action w e f h

  with_body-Both :
      (t a b c d n : ℕ) (rest : Bytes) (r : Relay T)
      → frame_body_len t (a ∷ b ∷ c ∷ d ∷ []) ≡ ok (t, n)
      → Both r.writers
      → Both (with_body transform t (t ∷ a ∷ b ∷ c ∷ d ∷ []) n rest r).1.writers
  unfolding with_body
  with_body-Both t a b c d n rest r e h = elim (Option-cases (read_exact n rest)) [
    | inl f ↦ rw (with_body, f) h
    | inr ((body, rest'), f) ↦
        let size = (read_exact-eq-some n rest f).0 in
        rw (with_body, f)
          (acted-Both t a b c d body rest' (transform t body r.state) r.writers (rw size e)
            (answers t body r.state) h)
  ]

  with_header-Both :
      (max_body t a b c d : ℕ) (rest : Bytes) (r : Relay T)
      → Both r.writers
      → Both (with_header transform max_body t (a ∷ b ∷ c ∷ d ∷ []) rest r).1.writers
  unfolding with_header
  with_header-Both max_body t a b c d rest r h =
      elim (Result-cases (frame_body_len t (a ∷ b ∷ c ∷ d ∷ []))) [
        | inr (x, e) ↦ rw (with_header, e) h
        | inl ((kind, n), e) ↦ elim (Bool-cases (ltb max_body n)) [
          | inl f ↦ rw (with_header, e, f) h
          | inr f ↦
              let same = frame_body_len_kind t (a ∷ b ∷ c ∷ d ∷ []) e in
              rw (with_header, e, f, same) (with_body-Both t a b c d n rest r (rw same at e) h)
        ]
      ]

  -- A round of a relay whose answers are whole frames keeps both sockets to whole frames.
  round-Both :
      (max_body : ℕ) (r : Relay T) → Both r.writers → Both (round transform max_body r).1.writers
  unfolding round shut_down
  round-Both max_body r h = elim (Option-cases (read_header r.unread)) [
    | inl e ↦ rw (round, e) h
    | inr ((t, len_field, rest), e) ↦
        let (a, b, c, d, four, whole) = read_header-eq-some r.unread e in
        rw (round, e, four) (with_header-Both max_body t a b c d rest r h)
  ]

module _ {T : Type 0} (sides : Sides T) where
  -- What each side answers by itself is whole frames.
  pub record AnswersFrames : Type 0 where
    pub client : (t : ℕ) (body : Bytes) (s : T) → Answers (sides.from_client t body s).0
    pub upstream : (t : ℕ) (body : Bytes) (s : T) → Answers (sides.from_upstream t body s).0

  abbrev pub FramedBoth : Session T → Type 0
  FramedBoth s = Framed s.to_client.written × Framed s.to_upstream.written

  Step-FramedBoth : {s t : Session T} → AnswersFrames → Step sides s t → FramedBoth s → FramedBoth t
  unfolding client_round upstream_round after_client after_upstream
  Step-FramedBoth {s} answers (client_step going_on) h =
      let both =
        round-Both sides.from_client answers.client (sides.client_limit s.state) (client_side s)
          (h.1, h.0) in
      (both.1, both.0)
  Step-FramedBoth {s} answers (upstream_step going_on) h =
      round-Both sides.from_upstream answers.upstream max_message_len (upstream_side s) h

  pub Reach-FramedBoth :
      {start s : Session T} → AnswersFrames → Reach sides start s → FramedBoth start → FramedBoth s
  Reach-FramedBoth answers here h = h
  Reach-FramedBoth answers (later r st) h =
      Step-FramedBoth answers st (Reach-FramedBoth answers r h)
