-- ===== src/Channels/Ingress/History.antt =====
-- internal/channels/ingress.go, store.go: the row of a message that was let in, whatever comes after it.
use heimdall.Base.{
  ℕ, zero, suc, ◌<◌, ◌≤◌, ◌≡◌, ◌≢◌, refl, sym, subst, String, Bool, true, false, ◌&&◌, Option, none,
  some, List, [], ◌∷◌, ◌++◌, eqb, leb, leb→le, any, All, All-append, arith, Bool-cases, inl, inr,
}
use heimdall.Base.Result.{Result, ok, err}
use heimdall.Base.Session.{Session}
use heimdall.Base.Session.Keeps.{Keeps, Keeps-statement, Keeps-raise}
use heimdall.Channels.Ingress.{
  ChannelLink, ChannelMessage, IngressTables, IngressError, IngressMessage, is_key, message_row,
  get_link_by_identity, insert_idempotency, insert_unless, insert_row, missing_field, earliest,
  earlier, remove_id, is_expired, remove_found, delete_rows, is_not_found, delete_expired_messages,
  is_verified, is_replay, after_insert, check_window, after_link, process,
}
use heimdall.Channels.Ingress.Once.{with_row, get_link_by_identity-tables}

any-left :
    (p : ChannelMessage → Bool) (rows more : List ChannelMessage)
    → any p rows ≡ true
    → any p (rows ++ more) ≡ true
any-left p [] more h = ground (arith, h)
any-left p (r ∷ rows) more h = elim (Bool-cases (p r)) [
  | inl hit ↦ rw hit refl
  | inr miss ↦ rw miss (any-left p rows more (rw miss at h))
]

pub any-last :
    (p : ChannelMessage → Bool) (rows : List ChannelMessage) (r : ChannelMessage)
    → p r ≡ true
    → any p (rows ++ r ∷ []) ≡ true
any-last p [] r h = rw h refl
any-last p (x ∷ rows) r h = elim (Bool-cases (p x)) [
  | inl hit ↦ rw hit refl
  | inr miss ↦ rw miss (any-last p rows r h)
]

Found : (ChannelMessage → Type 0) → (ChannelMessage → Bool) → Option ChannelMessage → Type 0
Found P p none = Unit
Found P p (some r) = P r × (p r ≡ true)

earlier-Found :
    (P : ChannelMessage → Type 0) (p : ChannelMessage → Bool) (r : ChannelMessage)
    (o : Option ChannelMessage)
    → P r × (p r ≡ true)
    → Found P p o
    → Found P p (some (earlier r o))
unfolding Found
earlier-Found P p r none h k = h
earlier-Found P p r (some other_row) h k =
    elim (Bool-cases (leb r.expires_at other_row.expires_at)) [
      | inl first ↦ rw first h
      | inr later ↦ rw later k
    ]

-- The row that is removed is one of the table, and expired.
earliest-Found :
    (P : ChannelMessage → Type 0) (p : ChannelMessage → Bool) (rows : List ChannelMessage)
    → All P rows
    → Found P p (earliest p rows)
unfolding earliest Found
earliest-Found P p [] h = tt
earliest-Found P p (r ∷ rows) (first, others) = elim (Bool-cases (p r)) [
  | inl hit ↦
      rw hit (earlier-Found P p r (earliest p rows) (first, hit) (earliest-Found P p rows others))
  | inr miss ↦ rw miss (earliest-Found P p rows others)
]

-- The row with a number, of which all copies outlast a time.
module _ (i u tenant : ℕ) (platform key : String) where
  abbrev pub Lasts : ChannelMessage → Type 0
  Lasts r = r.id ≡ i → u < r.expires_at

  abbrev pub is_it : ChannelMessage → Bool
  is_it r = eqb r.id i && is_key tenant platform key r

  abbrev pub Rows : List ChannelMessage → Type 0
  Rows rows = All Lasts rows × (any is_it rows ≡ true)

  pub record Kept (t : IngressTables) : Type 0 where
    pub older : i < t.next_id
    pub rows : Rows t.messages

  with_row-Kept : (msg : IngressMessage) (t : IngressTables) → Kept t → Kept (with_row msg t)
  with_row-Kept msg t k = record {
    older = omega (arith, k.older);
    rows = (
      All-append Lasts t.messages (message_row t.tenant t.next_id msg ∷ [])
          ((λ same. absurd (omega (arith, same, k.older))), tt) k.rows.0,
      any-left is_it t.messages _ k.rows.1,
    );
  }

  remove_id-Lasts :
      (id : ℕ) (rows : List ChannelMessage) → All Lasts rows → All Lasts (remove_id id rows)
  unfolding remove_id
  remove_id-Lasts id [] h = tt
  remove_id-Lasts id (r ∷ rows) (first, others) = elim (Bool-cases (eqb r.id id)) [
    | inl gone ↦ rw gone (remove_id-Lasts id rows others)
    | inr stays ↦ rw stays (first, remove_id-Lasts id rows others)
  ]

  remove_id-any :
      (id : ℕ) (rows : List ChannelMessage)
      → id ≢ i
      → any is_it rows ≡ true
      → any is_it (remove_id id rows) ≡ true
  unfolding remove_id
  remove_id-any id [] differs h = h
  remove_id-any id (r ∷ rows) differs h = elim (Bool-cases (eqb r.id id)) [
    | inl gone ↦
        let miss : eqb r.id i ≡ false = ground (arith, gone, differs) in
        rw gone (remove_id-any id rows differs (rw miss at h))
    | inr stays ↦ elim (Bool-cases (is_it r)) [
      | inl hit ↦ rw (stays, hit) refl
      | inr miss ↦ rw (stays, miss) (remove_id-any id rows differs (rw miss at h))
    ]
  ]

  -- A deletion of what has expired by that time leaves the row.
  delete_rows-Rows :
      (owner before limit : ℕ) (rows : List ChannelMessage)
      → before ≤ u
      → Rows rows
      → Rows (delete_rows (is_expired owner before) limit rows).1
  unfolding delete_rows Found
  delete_rows-Rows owner before zero rows early h = h
  delete_rows-Rows owner before (suc limit) rows early h =
      removed (earliest (is_expired owner before) rows)
        (earliest-Found Lasts (is_expired owner before) rows h.0)
        (λ more k. delete_rows-Rows owner before limit more early k)
    where
      removed :
          (o : Option ChannelMessage)
          → Found Lasts (is_expired owner before) o
          → ((more : List ChannelMessage)
              → Rows more
              → Rows (delete_rows (is_expired owner before) limit more).1)
          → Rows (remove_found (delete_rows (is_expired owner before) limit) o rows).1
      removed none found next = h
      removed (some r) found next =
          let late : leb r.expires_at before ≡ true = ground (arith, found.1) in
          let differs : r.id ≢ i =
            λ e. absurd (omega (arith, found.0 e, early, leb→le r.expires_at before late)) in
          next (remove_id r.id rows)
            (remove_id-Lasts r.id rows h.0, remove_id-any r.id rows differs h.1)

  pub delete_expired_messages-Keeps :
      (before limit : ℕ) → before ≤ u → Keeps Kept (delete_expired_messages before limit)
  unfolding delete_expired_messages
  delete_expired_messages-Keeps before limit early = elim (Bool-cases (eqb before 0)) [
    | inl never ↦ rw never (Keeps-raise _)
    | inr timed ↦ elim (Bool-cases (eqb limit 0)) [
      | inl none_asked ↦ rw (timed, none_asked) (Keeps-raise _)
      | inr some_asked ↦
          rw (timed, some_asked)
            (Keeps-statement _ _ (λ now t k. record {
              older = k.older;
              rows = delete_rows-Rows t.tenant before limit t.messages early k.rows;
            }))
    ]
  ]

  insert_row-Kept :
      (msg : IngressMessage) (b : Bool) (t : IngressTables) → Kept t → Kept (insert_row msg b t).1
  insert_row-Kept msg true t k = k
  insert_row-Kept msg false t k = with_row-Kept msg t k

  insert_unless-Keeps :
      (msg : IngressMessage) (o : Option IngressError) → Keeps Kept (insert_unless msg o)
  insert_unless-Keeps msg (some e) = Keeps-raise e
  insert_unless-Keeps msg none = Keeps-statement _ _ (λ now t k. insert_row-Kept msg _ t k)

  after_insert-Kept :
      (l : ChannelLink) (r : Result IngressError Bool) (s : Session IngressTables)
      → Kept s.tables
      → Kept (after_insert l (r, s)).1.tables
  after_insert-Kept l (err e) s k = k
  after_insert-Kept l (ok true) s k = k
  after_insert-Kept l (ok false) s k = k

  check_window-Kept :
      (window clock : ℕ) (msg : IngressMessage) (l : ChannelLink) (s : Session IngressTables)
      → Kept s.tables
      → Kept (check_window window clock msg l s).1.tables
  unfolding insert_idempotency
  check_window-Kept window clock msg l s k =
      elim (Bool-cases (is_replay window clock msg.occurred_at)) [
        | inl old ↦ rw old k
        | inr fresh ↦ rw fresh (
            after_insert-Kept l (insert_idempotency msg s).0 (insert_idempotency msg s).1
              ((insert_unless-Keeps msg (missing_field msg)).at s k))
      ]

  after_link-Kept :
      (window clock : ℕ) (msg : IngressMessage) (r : Result IngressError ChannelLink)
      (s : Session IngressTables)
      → Kept s.tables
      → Kept (after_link window clock msg (r, s)).1.tables
  after_link-Kept window clock msg (err e) s k = elim (Bool-cases (is_not_found e)) [
    | inl missing ↦ rw missing k
    | inr other_error ↦ rw other_error k
  ]
  after_link-Kept window clock msg (ok l) s k = elim (Bool-cases (is_verified l.state)) [
    | inl good ↦ rw good (check_window-Kept window clock msg l s k)
    | inr bad ↦ rw bad k
  ]

  pub process-Kept :
      (window clock : ℕ) (signature : Result IngressError (Unit {0})) (msg : IngressMessage)
      (s : Session IngressTables)
      → Kept s.tables
      → Kept (process window clock signature msg s).1.tables
  unfolding process
  process-Kept window clock (err e) msg s k = k
  process-Kept window clock (ok v) msg s k =
      after_link-Kept window clock msg (get_link_by_identity msg.platform msg.platform_user_id s).0
        (get_link_by_identity msg.platform msg.platform_user_id s).1
        (subst Kept (sym (get_link_by_identity-tables msg.platform msg.platform_user_id s)) k)
