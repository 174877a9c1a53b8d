-- ===== src/Channels/Ingress/Once.antt =====
-- internal/channels/ingress.go, store.go: a message is let in once.
use heimdall.Base.{
  ℕ, suc, ◌≡◌, refl, ap, ◌∙◌, subst, String, Bool, true, false, Option, none, some, List, [], ◌∷◌,
  ◌++◌, any, arith, Bool-cases, inl, inr,
}
use heimdall.Base.Result.{Result, ok, err, ok-injective}
use heimdall.Base.Session.{Session, statement_with}
use heimdall.Channels.Ingress.{
  ChannelLink, IngressTables, IngressError, IngressMessage, accepted, statement_failed,
  is_not_found, is_key, message_row, get_link_by_identity, insert_idempotency, insert_unless,
  insert_row, missing_field, is_verified, is_replay, after_insert, check_window, after_link,
  process,
}

-- The tables after the row of a message has been added.
abbrev pub with_row : IngressMessage → IngressTables → IngressTables
with_row msg t = record t {
  next_id = suc t.next_id;
  messages = t.messages ++ message_row t.tenant t.next_id msg ∷ [];
}

pub get_link_by_identity-tables :
    (platform user : String) (s : Session IngressTables)
    → (get_link_by_identity platform user s).1.tables ≡ s.tables
unfolding get_link_by_identity
get_link_by_identity-tables platform user s = ground arith

-- The key was not there, and the row has been added.
abbrev pub Adds : IngressMessage → IngressTables → IngressTables → Type 0
Adds msg t after =
    (any (is_key t.tenant msg.platform msg.idempotency_key) t.messages ≡ false)
    × (after ≡ with_row msg t)

insert_row-true :
    (msg : IngressMessage) (b : Bool) (t : IngressTables)
    → (insert_row msg b t).0 ≡ true
    → (b ≡ false) × ((insert_row msg b t).1 ≡ with_row msg t)
insert_row-true msg true t h = ground (arith, h)
insert_row-true msg false t h = (refl, refl)

abbrev inserting : IngressMessage → ℕ → IngressTables → Bool × IngressTables
inserting msg now t =
    insert_row msg (any (is_key t.tenant msg.platform msg.idempotency_key) t.messages) t

inserted-true :
    (msg : IngressMessage) (faults : List Bool) (s : Session IngressTables)
    → (statement_with faults statement_failed (inserting msg) s).0 ≡ ok true
    → Adds msg s.tables (statement_with faults statement_failed (inserting msg) s).1.tables
inserted-true msg [] s h = insert_row-true msg _ s.tables (ok-injective {E = IngressError} _ true h)
inserted-true msg (true ∷ faults) s h = ground (arith, h)
inserted-true msg (false ∷ faults) s h =
    insert_row-true msg _ s.tables (ok-injective {E = IngressError} _ true h)

insert_unless-true :
    (msg : IngressMessage) (o : Option IngressError) (s : Session IngressTables)
    → (insert_unless msg o s).0 ≡ ok true
    → Adds msg s.tables (insert_unless msg o s).1.tables
insert_unless-true msg (some e) s h = ground (arith, h)
insert_unless-true msg none s h = inserted-true msg s.faults s h

after_insert-accepted :
    (l : ChannelLink) (r : Result IngressError Bool) (s : Session IngressTables)
    → (after_insert l (r, s)).0.decision ≡ some accepted
    → (r ≡ ok true) × ((after_insert l (r, s)).1 ≡ s)
after_insert-accepted l (ok true) s h = (refl, refl)
after_insert-accepted l (ok false) s h = ground (arith, h)
after_insert-accepted l (err e) s h = ground (arith, h)

check_window-accepted :
    (window clock : ℕ) (msg : IngressMessage) (l : ChannelLink) (s : Session IngressTables)
    → (check_window window clock msg l s).0.decision ≡ some accepted
    → (is_replay window clock msg.occurred_at ≡ false)
      × Adds msg s.tables (check_window window clock msg l s).1.tables
unfolding insert_idempotency
check_window-accepted window clock msg l s h =
    elim (Bool-cases (is_replay window clock msg.occurred_at)) [
      | inl old ↦ ground (arith, rw old at h)
      | inr fresh ↦
          let parts =
            after_insert-accepted l (insert_idempotency msg s).0 (insert_idempotency msg s).1
              (rw fresh at h) in
          let made = insert_unless-true msg (missing_field msg) s parts.0 in
          (fresh, (made.0, rw fresh (ap (λ t. t.tables) parts.1 ∙ made.1)))
    ]

after_link-accepted :
    (window clock : ℕ) (msg : IngressMessage) (r : Result IngressError ChannelLink)
    (s : Session IngressTables)
    → (after_link window clock msg (r, s)).0.decision ≡ some accepted
    → (l : ChannelLink) × (r ≡ ok l)
      × (is_verified l.state ≡ true)
      × ((check_window window clock msg l s).0.decision ≡ some accepted)
      × ((after_link window clock msg (r, s)).1 ≡ (check_window window clock msg l s).1)
after_link-accepted window clock msg (ok l) s h = elim (Bool-cases (is_verified l.state)) [
  | inl good ↦ (l, refl, good, rw good at h, rw good refl)
  | inr bad ↦ ground (arith, rw bad at h)
]
after_link-accepted window clock msg (err e) s h = elim (Bool-cases (is_not_found e)) [
  | inl missing ↦ ground (arith, rw missing at h)
  | inr other_error ↦ ground (arith, rw other_error at h)
]

-- A message is let in only with a signature that was accepted, over a verified link of its sender, inside
-- the replay window, and its key was not in the table; its row then is.
pub process-accepted :
    (window clock : ℕ) (signature : Result IngressError (Unit {0})) (msg : IngressMessage)
    (s : Session IngressTables)
    → (process window clock signature msg s).0.decision ≡ some accepted
    → (signature ≡ ok tt)
      × ((l : ChannelLink) × ((get_link_by_identity msg.platform msg.platform_user_id s).0 ≡ ok l)
          × (is_verified l.state ≡ true))
      × (is_replay window clock msg.occurred_at ≡ false)
      × Adds msg s.tables (process window clock signature msg s).1.tables
unfolding process
process-accepted window clock (err e) msg s h = ground (arith, h)
process-accepted window clock (ok u) msg s h =
    let found = get_link_by_identity msg.platform msg.platform_user_id s in
    let (l, is, good, entered, left) = after_link-accepted window clock msg found.0 found.1 h in
    let (fresh, adds) = check_window-accepted window clock msg l found.1 entered in
    let same = get_link_by_identity-tables msg.platform msg.platform_user_id s in
    (
      refl,
      (l, is, good),
      fresh,
      (
        subst (λ t. any (is_key t.tenant msg.platform msg.idempotency_key) t.messages ≡ false) same
            adds.0,
        ap (λ t. t.tables) left ∙ adds.1 ∙ ap (with_row msg) same,
      ),
    )
