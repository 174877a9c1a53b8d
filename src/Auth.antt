-- ===== src/Auth.antt =====
-- internal/auth/refresh_store.go: families of refresh tokens, their rotation and revocation. A token is
-- known by its hash, which the caller computes; a new family may hold the placeholder 'pending'.
pub mod Rotation
pub mod Reuse
pub mod History
pub mod Replay
mod Examples
use heimdall.Base.{
  ℕ, suc, String, Bool, true, false, ◌&&◌, Option, none, some, List, [], ◌∷◌, ◌++◌, any, count_if,
  eqb, ◌==◌, if◌then◌else◌,
}
use heimdall.Base.Session.{Session, Exec, pure, raise, statement, ◌>>=◌}
use heimdall.Base.Table.{update_where, first_where, returning}

pub data Error : Type 0 where
  statement_failed family_not_found family_revoked token_reuse not_pending : Error

-- A row of `refresh_token_families`.
pub record TokenFamily : Type 0 where
  pub id : ℕ
  pub tenant_id : ℕ
  pub user_id : ℕ
  pub current_generation : ℕ
  pub current_token_hash : String
  pub legacy_token_hash : Option String
  pub revoked_at : Option ℕ
  pub created_at : ℕ
  pub updated_at : ℕ

pub record Families : Type 0 where
  pub next_id : ℕ
  pub rows : List TokenFamily

abbrev pub pending_hash : String
pending_hash = "pending"

abbrev pub inserted_family : ℕ → ℕ → String → Option String → ℕ → ℕ → TokenFamily
inserted_family tenant user hash legacy id now = record {
  id = id;
  tenant_id = tenant;
  user_id = user;
  current_generation = 1;
  current_token_hash = hash;
  legacy_token_hash = legacy;
  revoked_at = none;
  created_at = now;
  updated_at = now;
}

abbrev pub insert_family : ℕ → ℕ → String → Option String → ℕ → Families → ℕ × Families
insert_family tenant user hash legacy now t = (
  t.next_id,
  record {
    next_id = suc t.next_id;
    rows = t.rows ++ inserted_family tenant user hash legacy t.next_id now ∷ [];
  },
)

unfoldable pub create_family : ℕ → ℕ → String → Exec Error Families ℕ
create_family tenant user hash = statement statement_failed (insert_family tenant user hash none)

unfoldable pub create_family_and_return_id : ℕ → ℕ → Exec Error Families ℕ
create_family_and_return_id tenant user =
    statement statement_failed (insert_family tenant user pending_hash none)

unfoldable pub create_family_for_legacy_upgrade : ℕ → ℕ → String → Exec Error Families ℕ
create_family_for_legacy_upgrade tenant user legacy =
    statement statement_failed (insert_family tenant user pending_hash (some legacy))

abbrev has_legacy : Option String → String → Bool
has_legacy none hash = false
has_legacy (some legacy) hash = legacy == hash

abbrev pub is_upgrade : ℕ → ℕ → String → TokenFamily → Bool
is_upgrade user tenant hash f =
    eqb f.user_id user && eqb f.tenant_id tenant && has_legacy f.legacy_token_hash hash

unfoldable pub is_legacy_token_upgraded : ℕ → ℕ → String → Exec Error Families Bool
is_legacy_token_upgraded user tenant hash =
    statement statement_failed (λ now t. (any (is_upgrade user tenant hash) t.rows, t))

-- `WHERE id = $1 AND tenant_id = $2`
abbrev pub is_family : ℕ → ℕ → TokenFamily → Bool
is_family id tenant f = eqb f.id id && eqb f.tenant_id tenant

abbrev pub is_active : Option ℕ → Bool
is_active none = true
is_active (some time) = false

-- An UPDATE for the number of rows that it hits.
abbrev pub update_families :
    (TokenFamily → Bool) → (ℕ → TokenFamily → TokenFamily) → ℕ → Families → ℕ × Families
update_families test change now t =
    (count_if test t.rows, record t { rows = update_where test (change now) t.rows })

abbrev pub or_error : Error → ℕ → Exec Error Families (Unit {0})
or_error e affected = if eqb affected 0 then raise e else pure tt

abbrev pub is_new : ℕ → ℕ → TokenFamily → Bool
is_new id tenant f = is_family id tenant f && f.current_token_hash == pending_hash

abbrev pub set_hash : String → ℕ → TokenFamily → TokenFamily
set_hash hash now f = record f { current_token_hash = hash; updated_at = now }

unfoldable pub set_initial_token_hash : ℕ → ℕ → String → Exec Error Families (Unit {0})
set_initial_token_hash id tenant hash = do
  affected ← statement statement_failed (update_families (is_new id tenant) (set_hash hash))
  or_error not_pending affected

abbrev pub can_revoke : ℕ → ℕ → TokenFamily → Bool
can_revoke id tenant f = is_family id tenant f && is_active f.revoked_at

abbrev pub set_revoked : ℕ → TokenFamily → TokenFamily
set_revoked now f = record f { revoked_at = some now; updated_at = now }

unfoldable pub revoke_family : ℕ → ℕ → Exec Error Families (Unit {0})
revoke_family id tenant = do
  affected ← statement statement_failed (update_families (can_revoke id tenant) set_revoked)
  or_error family_not_found affected

abbrev pub is_active_of : ℕ → ℕ → TokenFamily → Bool
is_active_of user tenant f = eqb f.user_id user && eqb f.tenant_id tenant && is_active f.revoked_at

unfoldable pub revoke_all_for_user : ℕ → ℕ → Exec Error Families (Unit {0})
revoke_all_for_user user tenant = do
  affected ← statement statement_failed (update_families (is_active_of user tenant) set_revoked)
  pure tt

abbrev pub or_not_found : Option TokenFamily → Exec Error Families TokenFamily
or_not_found none = raise family_not_found
or_not_found (some f) = pure f

unfoldable pub get_family : ℕ → ℕ → Exec Error Families TokenFamily
get_family id tenant = do
  found ← statement statement_failed (λ now t. (first_where (is_family id tenant) t.rows, t))
  or_not_found found

abbrev pub can_rotate : ℕ → ℕ → String → ℕ → TokenFamily → Bool
can_rotate id tenant hash generation f =
    is_family id tenant f
    && f.current_token_hash == hash
    && eqb f.current_generation generation
    && is_active f.revoked_at

abbrev pub set_rotated : String → ℕ → TokenFamily → TokenFamily
set_rotated hash now f = record f {
  current_generation = suc f.current_generation;
  current_token_hash = hash;
  updated_at = now;
}

-- What `diagnoseRotationFailure` makes of the row that it reads.
unfoldable pub diagnose_row : ℕ → ℕ → Option TokenFamily → Exec Error Families TokenFamily
unfolding revoke_family
diagnose_row id tenant none = raise family_not_found
diagnose_row id tenant (some f) =
    if is_active f.revoked_at
    then (do revoked ← revoke_family id tenant; raise token_reuse)
    else raise family_revoked

unfoldable pub diagnose_rotation_failure : ℕ → ℕ → Exec Error Families TokenFamily
unfolding diagnose_row
diagnose_rotation_failure id tenant = do
  found ← statement statement_failed (λ now t. (first_where (is_family id tenant) t.rows, t))
  diagnose_row id tenant found

abbrev pub rotate_update :
    ℕ → ℕ → String → ℕ → String → ℕ → Families → Option TokenFamily × Families
rotate_update id tenant hash generation new now t = (
  returning (can_rotate id tenant hash generation) (set_rotated new now) t.rows,
  record t {
    rows = update_where (can_rotate id tenant hash generation) (set_rotated new now) t.rows;
  },
)

abbrev pub after_rotation : ℕ → ℕ → Option TokenFamily → Exec Error Families TokenFamily
after_rotation id tenant none = diagnose_rotation_failure id tenant
after_rotation id tenant (some f) = pure f

unfoldable pub rotate_token : ℕ → ℕ → String → ℕ → String → Exec Error Families TokenFamily
rotate_token id tenant hash generation new = do
  rotated ← statement statement_failed (rotate_update id tenant hash generation new)
  after_rotation id tenant rotated
