-- ===== src/Auth/History.antt =====
-- Any sequence of calls of the store, and what it does not take from a family.
use heimdall.Base.{
  ℕ, ◌<◌, ◌≡◌, refl, sym, ◌∙◌, inl, inr, String, Bool, true, Option, none, some, List, [], ◌∷◌,
  arith, All, All-append, Bool-cases,
}
use heimdall.Base.Session.{Session, pure, statement}
use heimdall.Base.Session.Keeps.{Keeps, Keeps-pure, Keeps-raise, Keeps-statement, Keeps-bind}
use heimdall.Base.Table.{update_where, All-update_where}
use heimdall.Auth.{
  TokenFamily, Families, Error, inserted_family, insert_family, pending_hash, create_family,
  create_family_and_return_id, create_family_for_legacy_upgrade, set_initial_token_hash,
  revoke_family, revoke_all_for_user, rotate_token, is_family, is_active, is_new, is_active_of,
  can_revoke, can_rotate, set_hash, set_revoked, set_rotated, update_families, or_error,
  rotate_update, after_rotation, diagnose_rotation_failure, diagnose_row, statement_failed,
  family_not_found, family_revoked, token_reuse, not_pending,
}

pub data Call : Type 0 where
  create : ℕ → ℕ → String → Call
  create_pending : ℕ → ℕ → Call
  create_legacy : ℕ → ℕ → String → Call
  set_initial : ℕ → ℕ → String → Call
  rotate : ℕ → ℕ → String → ℕ → String → Call
  revoke revoke_all : ℕ → ℕ → Call

unfoldable pub step : Call → Session Families → Session Families
step (create tenant user hash) s = (create_family tenant user hash s).1
step (create_pending tenant user) s = (create_family_and_return_id tenant user s).1
step (create_legacy tenant user hash) s = (create_family_for_legacy_upgrade tenant user hash s).1
step (set_initial id tenant hash) s = (set_initial_token_hash id tenant hash s).1
step (rotate id tenant hash generation new) s = (rotate_token id tenant hash generation new s).1
step (revoke id tenant) s = (revoke_family id tenant s).1
step (revoke_all user tenant) s = (revoke_all_for_user user tenant s).1

unfoldable pub run : List Call → Session Families → Session Families
unfolding step
run [] s = s
run (c ∷ calls) s = run calls (step c s)

-- The family of that id exists, and `F` holds of it.
abbrev pub Holds : (TokenFamily → Type 0) → ℕ → ℕ → Families → Type 0
Holds F id tenant t = (id < t.next_id) × All (λ f. is_family id tenant f ≡ true → F f) t.rows

-- A property of a family that no operation takes away.
pub record IsLasting (F : TokenFamily → Type 0) : Type 0 where
  pub hash : (f : TokenFamily) (hash : String) (now : ℕ) → F f → F (set_hash hash now f)
  pub rotated : (f : TokenFamily) (hash : String) (now : ℕ) → F f → F (set_rotated hash now f)
  pub revoked : (f : TokenFamily) (now : ℕ) → F f → F (set_revoked now f)

module _ (F : TokenFamily → Type 0) (lasting : IsLasting F) (id tenant : ℕ) where
  insert-Holds :
      (owner user : ℕ) (hash : String) (legacy : Option String) (now : ℕ) (t : Families)
      → Holds F id tenant t
      → Holds F id tenant (insert_family owner user hash legacy now t).1
  insert-Holds owner user hash legacy now t (older, rows) = (
    omega (arith, older),
    All-append _ t.rows (inserted_family owner user hash legacy t.next_id now ∷ [])
        ((λ same. absurd (ground (arith, older))), tt) rows,
  )

  update-Holds :
      (test : TokenFamily → Bool) (change : TokenFamily → TokenFamily) (rows : List TokenFamily)
      → ((f : TokenFamily) → F f → F (change f))
      → ((f : TokenFamily) → is_family id tenant (change f) ≡ is_family id tenant f)
      → All (λ f. is_family id tenant f ≡ true → F f) rows
      → All (λ f. is_family id tenant f ≡ true → F f) (update_where test change rows)
  update-Holds test change rows keep same h =
      All-update_where (λ f. is_family id tenant f ≡ true → F f) test change
        (λ f holds _ hit. keep f (holds (sym (same f) ∙ hit))) rows h

  count-Keeps :
      (e : Error) (test : TokenFamily → Bool) (change : ℕ → TokenFamily → TokenFamily)
      → ((now : ℕ) (f : TokenFamily) → F f → F (change now f))
      → ((now : ℕ) (f : TokenFamily) → is_family id tenant (change now f) ≡ is_family id tenant f)
      → Keeps (Holds F id tenant) (statement e (update_families test change))
  count-Keeps e test change keep same =
      Keeps-statement e (update_families test change)
        (λ now t h. (h.0, update-Holds test (change now) t.rows (keep now) (same now) h.1))

  or_error-Keeps : (e : Error) (n : ℕ) → Keeps (Holds F id tenant) (or_error e n)
  or_error-Keeps e n = record { at = λ s h. ground arith }

  revoke-Keeps : (other owner : ℕ) → Keeps (Holds F id tenant) (revoke_family other owner)
  unfolding revoke_family
  revoke-Keeps other owner =
      Keeps-bind _ _
        (count-Keeps statement_failed (can_revoke other owner) set_revoked
          (λ now f. lasting.revoked f now) (λ now f. refl))
        (or_error-Keeps family_not_found)

  diagnose_row-Keeps :
      (other owner : ℕ) (o : Option TokenFamily)
      → Keeps (Holds F id tenant) (diagnose_row other owner o)
  unfolding diagnose_row
  diagnose_row-Keeps other owner none = Keeps-raise family_not_found
  diagnose_row-Keeps other owner (some f) = elim (Bool-cases (is_active f.revoked_at)) [
    | inl active ↦
        rw active (Keeps-bind _ _ (revoke-Keeps other owner) (λ _. Keeps-raise token_reuse))
    | inr dead ↦ rw dead (Keeps-raise family_revoked)
  ]

  after_rotation-Keeps :
      (other owner : ℕ) (o : Option TokenFamily)
      → Keeps (Holds F id tenant) (after_rotation other owner o)
  unfolding diagnose_rotation_failure
  after_rotation-Keeps other owner (some f) = Keeps-pure f
  after_rotation-Keeps other owner none =
      Keeps-bind _ _ (Keeps-statement statement_failed _ (λ now t h. h))
        (diagnose_row-Keeps other owner)

  step-Holds :
      (c : Call) (s : Session Families)
      → Holds F id tenant s.tables
      → Holds F id tenant (step c s).tables
  unfolding step create_family create_family_and_return_id create_family_for_legacy_upgrade
      set_initial_token_hash revoke_all_for_user rotate_token
  step-Holds (create owner user hash) s h =
      (Keeps-statement {Good = Holds F id tenant} statement_failed _
          (insert-Holds owner user hash none)).at
        s h
  step-Holds (create_pending owner user) s h =
      (Keeps-statement {Good = Holds F id tenant} statement_failed _
          (insert-Holds owner user pending_hash none)).at
        s h
  step-Holds (create_legacy owner user hash) s h =
      (Keeps-statement {Good = Holds F id tenant} statement_failed _
          (insert-Holds owner user pending_hash (some hash))).at
        s h
  step-Holds (set_initial other owner hash) s h =
      (Keeps-bind _ (or_error not_pending)
          (count-Keeps statement_failed (is_new other owner) (set_hash hash)
            (λ now f. lasting.hash f hash now) (λ now f. refl))
          (or_error-Keeps not_pending)).at
        s h
  step-Holds (rotate other owner hash generation new) s h =
      (Keeps-bind _ (after_rotation other owner)
          (Keeps-statement {Good = Holds F id tenant} statement_failed
            (rotate_update other owner hash generation new)
            (λ now t k. (
              k.0,
              update-Holds (can_rotate other owner hash generation) (set_rotated new now) t.rows
                  (λ f. lasting.rotated f new now) (λ f. refl) k.1,
            )))
          (after_rotation-Keeps other owner)).at
        s h
  step-Holds (revoke other owner) s h = (revoke-Keeps other owner).at s h
  step-Holds (revoke_all user owner) s h =
      (Keeps-bind _ (λ n. pure tt)
          (count-Keeps statement_failed (is_active_of user owner) set_revoked
            (λ now f. lasting.revoked f now) (λ now f. refl))
          (λ n. Keeps-pure tt)).at
        s h

  pub run-Holds :
      (calls : List Call) (s : Session Families)
      → Holds F id tenant s.tables
      → Holds F id tenant (run calls s).tables
  unfolding run
  run-Holds [] s h = h
  run-Holds (c ∷ calls) s h = run-Holds calls (step c s) (step-Holds c s h)
