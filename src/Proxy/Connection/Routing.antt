-- ===== src/Proxy/Connection/Routing.antt =====
-- internal/proxy/conn.go: the map of requests in flight and the streams it points to agree.
use heimdall.Base.{
  ℕ, suc, ◌<◌, ◌≡◌, refl, sym, ◌∙◌, subst, String, true, false, Option, none, some, ◌==◌, eqb,
  if◌then◌else◌, arith, Bool-cases, inl, inr, eq_iff, eq_refl, eqb_iff, eqb_refl, ◌⊎◌,
}
use heimdall.Proxy.Connection.{RequestStream, with_stream, set_pending, holds, new_stream}

-- What the map holds for an ID is an open stream of that ID, and every stream that still takes frames is
-- the one that the map holds for its ID.
pub record IsRouted (pending : String → Option ℕ) (streams : ℕ → RequestStream) (next : ℕ)
    : Type 0 where
  pub known : (id : String) (h : ℕ) → pending id ≡ some h → h < next
  pub named : (id : String) (h : ℕ) → pending id ≡ some h → (streams h).id ≡ id
  pub live : (id : String) (h : ℕ) → pending id ≡ some h → (streams h).frames_closed ≡ false
  pub current :
      (k : ℕ)
      → k < next
      → (streams k).closed ≡ false
      → (streams k).frames_closed ≡ false
      → pending (streams k).id ≡ some k

pub with_stream-same :
    (h : ℕ) (stream : RequestStream) (streams : ℕ → RequestStream)
    → with_stream h stream streams h ≡ stream
with_stream-same h stream streams = rw (eqb_refl h) refl

pub with_stream-other :
    (h k : ℕ) (stream : RequestStream) (streams : ℕ → RequestStream)
    → eqb k h ≡ false
    → with_stream h stream streams k ≡ streams k
with_stream-other h k stream streams differs = rw differs refl

set_pending-some :
    (id : String) (v : Option ℕ) (pending : String → Option ℕ) (j : String) (h : ℕ)
    → set_pending id v pending j ≡ some h
    → ((id ≡ j) × (v ≡ some h)) ⊎ (pending j ≡ some h)
set_pending-some id v pending j h held = elim (Bool-cases (j == id)) [
  | inl same ↦ inl (sym ((eq_iff j id).0 same), rw same at held)
  | inr differs ↦ inr (rw differs at held)
]

module _ (pending : String → Option ℕ) (streams : ℕ → RequestStream) (next : ℕ) where
  pub register-IsRouted :
      (id : String)
      → pending id ≡ none
      → IsRouted pending streams next
      → IsRouted
          (set_pending id (some next) pending)
          (with_stream next (new_stream id) streams)
          (suc next)
  register-IsRouted id free w = record {
    known = λ j h held. elim (set_pending-some id (some next) pending j h held) [
      | inl (same, new) ↦ ground (arith, new)
      | inr old ↦ omega (arith, w.known j h old)
    ];
    named = λ j h held. elim (set_pending-some id (some next) pending j h held) [
      | inl (same, new) ↦
          let is : next ≡ h = ground (arith, new) in
          subst (λ n. (with_stream next (new_stream id) streams n).id ≡ j) is
            (rw (with_stream-same next (new_stream id) streams) same)
      | inr old ↦
          let differs : eqb h next ≡ false = ground (arith, w.known j h old) in
          rw differs (w.named j h old)
    ];
    live = λ j h held. elim (set_pending-some id (some next) pending j h held) [
      | inl (same, new) ↦
          let is : next ≡ h = ground (arith, new) in
          subst (λ n. (with_stream next (new_stream id) streams n).frames_closed ≡ false) is
            (rw (with_stream-same next (new_stream id) streams) refl)
      | inr old ↦
          let differs : eqb h next ≡ false = ground (arith, w.known j h old) in
          rw differs (w.live j h old)
    ];
    current = λ k below unclosed listens. elim (Bool-cases (eqb k next)) [
      | inl same ↦ let is : k ≡ next = (eqb_iff k next).0 same in rw (same, eq_refl id, is) refl
      | inr differs ↦
          let held : pending (streams k).id ≡ some k =
            w.current k (ground (arith, differs, below)) (rw differs at unclosed)
              (rw differs at listens) in
          elim (Bool-cases ((streams k).id == id)) [
            | inl same ↦
                let is : (streams k).id ≡ id = (eq_iff (streams k).id id).0 same in
                absurd (ground (arith, free, rw is at held))
            | inr other ↦ rw (differs, other) held
          ]
    ];
  }

  -- A stream that is filled, emptied or closed by its reader stays where it is.
  pub touch-IsRouted :
      (h : ℕ) (stream : RequestStream)
      → stream.id ≡ (streams h).id
      → stream.frames_closed ≡ (streams h).frames_closed
      → (stream.closed ≡ false → (streams h).closed ≡ false)
      → IsRouted pending streams next
      → IsRouted pending (with_stream h stream streams) next
  touch-IsRouted h stream same_id same_end still w = record {
    known = w.known;
    named = λ j k held. elim (Bool-cases (eqb k h)) [
      | inl same ↦
          let is : k ≡ h = (eqb_iff k h).0 same in rw same (same_id ∙ rw is at (w.named j k held))
      | inr differs ↦ rw differs (w.named j k held)
    ];
    live = λ j k held. elim (Bool-cases (eqb k h)) [
      | inl same ↦
          let is : k ≡ h = (eqb_iff k h).0 same in rw same (same_end ∙ rw is at (w.live j k held))
      | inr differs ↦ rw differs (w.live j k held)
    ];
    current = λ k below unclosed listens. elim (Bool-cases (eqb k h)) [
      | inl same ↦
          let is : k ≡ h = (eqb_iff k h).0 same in
          let held : pending (streams h).id ≡ some h =
            w.current h (rw is at below) (still (rw same at unclosed))
              (sym same_end ∙ rw same at listens) in
          rw (same, same_id, is) held
      | inr differs ↦
          rw differs (w.current k below (rw differs at unclosed) (rw differs at listens))
    ];
  }

  -- A closed stream may leave the map.
  pub unregister-IsRouted :
      (id : String) (h : ℕ)
      → pending id ≡ some h
      → (streams h).closed ≡ true
      → IsRouted pending streams next
      → IsRouted (set_pending id none pending) streams next
  unregister-IsRouted id h was shut w =
      let still : (j : String) (k : ℕ)
          → set_pending id none pending j ≡ some k
          → pending j ≡ some k =
        λ j k held. elim (set_pending-some id none pending j k held) [
          | inl (same, never) ↦ absurd (ground (arith, never))
          | inr old ↦ old
        ] in
      record {
        known = λ j k held. w.known j k (still j k held);
        named = λ j k held. w.named j k (still j k held);
        live = λ j k held. w.live j k (still j k held);
        current = λ k below unclosed listens.
            let held = w.current k below unclosed listens in
            elim (Bool-cases ((streams k).id == id)) [
              | inl same ↦
                  let is : (streams k).id ≡ id = (eq_iff (streams k).id id).0 same in
                  let both : some h ≡ some k = sym was ∙ rw is at held in
                  let number : h ≡ k = ground (arith, both) in
                  absurd (ground (arith, unclosed, rw number at shut))
              | inr differs ↦ rw differs held
            ];
      }

  abbrev pub end_held : ℕ → RequestStream
  end_held h =
      if holds (pending (streams h).id) h
      then record (streams h) { frames_closed = true }
      else streams h

  -- When every request fails, no stream is left that takes frames.
  pub fail-IsRouted : IsRouted pending streams next → IsRouted (λ id. none) (λ h. end_held h) next
  fail-IsRouted w = record {
    known = λ j k held. absurd (ground (arith, held));
    named = λ j k held. absurd (ground (arith, held));
    live = λ j k held. absurd (ground (arith, held));
    current = λ k below unclosed listens. elim (Bool-cases (holds (pending (streams k).id) k)) [
      | inl mine ↦ absurd (ground (arith, rw mine at listens))
      | inr lost ↦
          let held : pending (streams k).id ≡ some k =
            w.current k below (rw lost at unclosed) (rw lost at listens) in
          let mine : eqb k k ≡ false = rw held at lost in absurd (ground (arith, eqb_refl k, mine))
    ];
  }
