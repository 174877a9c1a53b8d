-- ===== src/Database/Tenant.antt =====
-- internal/platform/database/tenant.go: work on a connection whose tenant context is set, with or
-- without a transaction. Getting a connection from the pool is left out: where it fails nothing runs.
use heimdall.Base.{ℕ, ◌≡◌, refl, ap, ◌∙◌, [], arith}
use heimdall.Base.Result.{Result, ok, err}
use heimdall.Base.Session.{Session, Exec, statement, continue, ◌>>=◌}
use heimdall.Database.{Tables, Error, statement_failed}

-- `set_config('app.current_tenant_id', …, false)`
unfoldable pub set_config : ℕ → Exec Error Tables (Unit {0})
set_config tenant = statement statement_failed (λ now t. (tt, record t { tenant = tenant }))

-- `BEGIN` and `COMMIT` as statements that may fail.
unfoldable pub begin : Exec Error Tables (Unit {0})
begin = statement statement_failed (λ now t. (tt, t))

unfoldable pub commit : Exec Error Tables (Unit {0})
commit = statement statement_failed (λ now t. (tt, t))

module _ {A : Type 0} where
  -- The deferred reset, whose error is dropped.
  unfoldable pub with_reset : Result Error A × Session Tables → Result Error A × Session Tables
  unfolding set_config
  with_reset (r, s) = (r, (set_config 0 s).1)

  unfoldable pub with_tenant_connection : ℕ → Exec Error Tables A → Exec Error Tables A
  unfolding with_reset set_config
  with_tenant_connection tenant fn s = with_reset ((do done ← set_config tenant; fn) s)

  -- The deferred rollback: after an error the tables are those of `BEGIN`.
  unfoldable pub or_rollback :
      Tables → Result Error A × Session Tables → Result Error A × Session Tables
  or_rollback before (ok a, s) = (ok a, s)
  or_rollback before (err e, s) = (err e, record s { tables = before })

  unfoldable pub in_transaction : Exec Error Tables A → Exec Error Tables A
  unfolding or_rollback begin commit
  in_transaction fn s =
      or_rollback s.tables ((do started ← begin; a ← fn; done ← commit; λ s'. (ok a, s')) s)

  unfoldable pub with_tenant_transaction : ℕ → Exec Error Tables A → Exec Error Tables A
  unfolding with_reset set_config in_transaction
  with_tenant_transaction tenant fn s =
      with_reset ((do done ← set_config tenant; in_transaction fn) s)

-- The rows of all tables.
pub record SameRows (t u : Tables) : Type 0 where
  pub actions : t.actions ≡ u.actions
  pub requests : t.requests ≡ u.requests
  pub outbox : t.outbox ≡ u.outbox
  pub messages : t.messages ≡ u.messages

set_config-rows :
    (tenant : ℕ) (s : Session Tables) → SameRows (set_config tenant s).1.tables s.tables
unfolding set_config
set_config-rows tenant s = ground arith

module _ {A : Type 0} where
  or_rollback-err :
      (before : Tables) (x : Result Error A × Session Tables) (e : Error)
      → (or_rollback before x).0 ≡ err e
      → (or_rollback before x).1.tables ≡ before
  unfolding or_rollback
  or_rollback-err before (ok a, s) e h = absurd (ground arith)
  or_rollback-err before (err d, s) e h = refl

  in_transaction-err :
      (fn : Exec Error Tables A) (s : Session Tables) (e : Error)
      → (in_transaction fn s).0 ≡ err e
      → (in_transaction fn s).1.tables ≡ s.tables
  unfolding in_transaction
  in_transaction-err fn s e h = or_rollback-err s.tables _ e h

  after_set_config :
      (r : Result Error (Unit {0})) (fn : Exec Error Tables A) (s : Session Tables) (e : Error)
      → (continue r (λ done. in_transaction fn) s).0 ≡ err e
      → (continue r (λ done. in_transaction fn) s).1.tables ≡ s.tables
  after_set_config (ok done) fn s e h = in_transaction-err fn s e h
  after_set_config (err d) fn s e h = refl

  -- A transaction is all or nothing: whatever the work in it does and whichever statements fail, the
  -- commit and the reset of the tenant among them, an error leaves the rows of every table as they were.
  pub with_tenant_transaction-err :
      (tenant : ℕ) (fn : Exec Error Tables A) (s : Session Tables) (e : Error)
      → (with_tenant_transaction tenant fn s).0 ≡ err e
      → SameRows (with_tenant_transaction tenant fn s).1.tables s.tables
  unfolding with_tenant_transaction with_reset
  with_tenant_transaction-err tenant fn s e h =
      let (r, s1) = set_config tenant s in
      let inner = continue r (λ done. in_transaction fn) s1 in
      let kept = after_set_config r fn s1 e h in
      let before = set_config-rows tenant s in
      let after = set_config-rows 0 inner.1 in
      record {
        actions = after.actions ∙ ap (λ (t : Tables). t.actions) kept ∙ before.actions;
        requests = after.requests ∙ ap (λ (t : Tables). t.requests) kept ∙ before.requests;
        outbox = after.outbox ∙ ap (λ (t : Tables). t.outbox) kept ∙ before.outbox;
        messages = after.messages ∙ ap (λ (t : Tables). t.messages) kept ∙ before.messages;
      }

  -- The tenant of the connection does not outlive the work on it, unless the reset itself fails.
  pub with_reset-tenant :
      (r : Result Error A) (s : Session Tables)
      → s.faults ≡ []
      → (with_reset (r, s)).1.tables.tenant ≡ 0
  unfolding with_reset set_config
  with_reset-tenant r s calm = ground arith
