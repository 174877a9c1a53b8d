-- ===== src/Channels/Ingress/Replayed.antt =====
-- internal/channels: a key that was let in is not let in again while its row cannot expire.
use heimdall.Base.{
  ℕ, ◌<◌, ◌≤◌, ◌≡◌, ◌≢◌, refl, sym, subst, String, true, false, some, List, [], ◌∷◌, eqb_refl,
  eq_refl, any, All, All-append, arith, Bool-cases, inl, inr,
}
use heimdall.Base.Result.{Result}
use heimdall.Base.Session.{Session}
use heimdall.Channels.Ingress.{
  ChannelMessage, IngressTables, IngressError, IngressMessage, accepted, is_key, message_row,
  delete_expired_messages, process,
}
use heimdall.Channels.Ingress.Once.{with_row, process-accepted}
use heimdall.Channels.Ingress.History.{
  Kept, Lasts, is_it, any-last, process-Kept, delete_expired_messages-Keeps,
}

-- A call in the context of a tenant: a message of a provider, or the deletion of expired rows.
pub data Call : Type 0 where
  receives : ℕ → ℕ → ℕ → Result IngressError (Unit {0}) → IngressMessage → Call
  cleans : ℕ → ℕ → ℕ → Call

abbrev pub as_tenant : ℕ → Session IngressTables → Session IngressTables
as_tenant tenant s = record s { tables = record s.tables { tenant = tenant } }

unfoldable pub step : Call → Session IngressTables → Session IngressTables
step (receives tenant window clock signature msg) s =
    (process window clock signature msg (as_tenant tenant s)).1
step (cleans tenant before limit) s = (delete_expired_messages before limit (as_tenant tenant s)).1

unfoldable pub run : List Call → Session IngressTables → Session IngressTables
unfolding step
run [] s = s
run (c ∷ calls) s = run calls (step c s)

-- A deletion does not reach beyond a time.
abbrev pub IsEarly : ℕ → Call → Type 0
IsEarly u (receives tenant window clock signature msg) = Unit
IsEarly u (cleans tenant before limit) = before ≤ u

-- Numbers of rows are below the next one.
abbrev pub IsFresh : IngressTables → Type 0
IsFresh t = All (λ r. r.id < t.next_id) t.messages

module _ (i u owner : ℕ) (platform key : String) where
  as_tenant-Kept :
      (tenant : ℕ) (s : Session IngressTables)
      → Kept i u owner platform key s.tables
      → Kept i u owner platform key (as_tenant tenant s).tables
  as_tenant-Kept tenant s k = record { older = k.older; rows = k.rows }

  run-Kept :
      (calls : List Call) (s : Session IngressTables)
      → All (IsEarly u) calls
      → Kept i u owner platform key s.tables
      → Kept i u owner platform key (run calls s).tables
  unfolding run
  run-Kept [] s early k = k
  run-Kept (receives tenant window clock signature msg ∷ calls) s (e, early) k =
      run-Kept calls _ early (
        process-Kept i u owner platform key window clock signature msg (as_tenant tenant s)
          (as_tenant-Kept tenant s k))
  run-Kept (cleans tenant before limit ∷ calls) s (e, early) k = run-Kept calls _ early (
      (delete_expired_messages-Keeps i u owner platform key before limit e).at (as_tenant tenant s)
        (as_tenant-Kept tenant s k))

  -- A row with the number has the key.
  any-key :
      (rows : List ChannelMessage)
      → any (is_it i u owner platform key) rows ≡ true
      → any (is_key owner platform key) rows ≡ true
  any-key [] h = h
  any-key (r ∷ rows) h = elim (Bool-cases (is_key owner platform key r)) [
    | inl hit ↦ rw hit refl
    | inr miss ↦
        let other_row : is_it i u owner platform key r ≡ false = ground (arith, miss) in
        rw miss (any-key rows (rw other_row at h))
  ]

-- The row that was just added is kept.
with_row-Kept :
    (u : ℕ) (msg : IngressMessage) (t : IngressTables)
    → IsFresh t
    → u < msg.expires_at
    → Kept t.next_id u t.tenant msg.platform msg.idempotency_key (with_row msg t)
with_row-Kept u msg t fresh long =
    let it = is_it t.next_id u t.tenant msg.platform msg.idempotency_key in
    let keyed : it (message_row t.tenant t.next_id msg) ≡ true =
      rw (eqb_refl t.next_id, eqb_refl t.tenant, eq_refl msg.platform, eq_refl msg.idempotency_key)
        refl in
    record {
      older = omega arith;
      rows = (
        All-append (Lasts t.next_id u t.tenant msg.platform msg.idempotency_key) t.messages
            (message_row t.tenant t.next_id msg ∷ []) ((λ same. long), tt)
            (old_rows t.messages fresh),
        any-last it t.messages (message_row t.tenant t.next_id msg) keyed,
      );
    }
  where
    old_rows :
        (rows : List ChannelMessage)
        → All (λ r. r.id < t.next_id) rows
        → All (λ r. r.id ≡ t.next_id → u < r.expires_at) rows
    old_rows [] h = tt
    old_rows (r ∷ rows) (below, others) =
        ((λ same. absurd (omega (arith, same, below))), old_rows rows others)

-- A message that was let in is not let in again, under the same platform and idempotency key and for the
-- same tenant, after any calls of all tenants whose deletions do not reach the expiry of its row: whatever
-- its signature, its sender, its times and the statements that fail.
pub process-once :
    (window clock : ℕ) (signature : Result IngressError (Unit {0})) (msg : IngressMessage)
    (s : Session IngressTables) (u : ℕ) (calls : List Call) (window' clock' : ℕ)
    (signature' : Result IngressError (Unit {0})) (again : IngressMessage)
    → IsFresh s.tables
    → (process window clock signature msg s).0.decision ≡ some accepted
    → u < msg.expires_at
    → All (IsEarly u) calls
    → again.platform ≡ msg.platform
    → again.idempotency_key ≡ msg.idempotency_key
    → let later = as_tenant s.tables.tenant (run calls (process window clock signature msg s).1) in
      (process window' clock' signature' again later).0.decision ≢ some accepted
process-once window clock signature msg s u calls window' clock' signature' again fresh entered long
      early same_platform same_key reentered =
    let (signed, linked, timely, adds) = process-accepted window clock signature msg s entered in
    let t = s.tables in
    let kept : Kept t.next_id u t.tenant msg.platform msg.idempotency_key
        (run calls (process window clock signature msg s).1).tables =
      run-Kept t.next_id u t.tenant msg.platform msg.idempotency_key calls _ early (
        subst (Kept t.next_id u t.tenant msg.platform msg.idempotency_key) (sym adds.1)
          (with_row-Kept u msg t fresh long)) in
    let later = as_tenant t.tenant (run calls (process window clock signature msg s).1) in
    let there =
      any-key t.next_id u t.tenant msg.platform msg.idempotency_key later.tables.messages
        kept.rows.1 in
    let (signed', linked', timely', adds') =
      process-accepted window' clock' signature' again later reentered in
    let absent : any (is_key t.tenant msg.platform msg.idempotency_key) later.tables.messages
        ≡ false =
      rw (same_platform, same_key) at adds'.0 in
    ground (arith, there, absent)
