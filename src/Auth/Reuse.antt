-- ===== src/Auth/Reuse.antt =====
-- What a rotation that reports reuse does to the family.
use heimdall.Base.{
  ℕ, ◌≡◌, ◌≢◌, sym, ap, ◌∙◌, subst, inl, inr, String, Option, none, some, arith, Bool-cases,
}
use heimdall.Base.Result.{Result, err}
use heimdall.Base.Session.{
  Session, raise, statement, statement-ok, statement-err, ◌>>=◌, >>=-error, >>=-from,
}
use heimdall.Base.Table.{first_where}
use heimdall.Auth.{
  TokenFamily, Families, Error, revoke_family, rotate_token, is_family, is_active, can_revoke,
  set_revoked, update_families, or_error, rotate_update, after_rotation, diagnose_rotation_failure,
  diagnose_row, statement_failed, family_not_found, family_revoked, token_reuse,
}
use heimdall.Auth.Rotation.{AllRevoked, revoke_family-ok}

-- What an error of reuse has done to the tables.
abbrev pub Dead : ℕ → ℕ → Session Families → Session Families → Type 0
Dead id tenant s after =
    (after.tables.next_id ≡ s.tables.next_id) × AllRevoked id tenant after.tables

not_failed :
    (id tenant : ℕ) (s : Session Families) → (revoke_family id tenant s).0 ≢ err token_reuse
unfolding revoke_family
not_failed id tenant s h =
    let update = update_families (can_revoke id tenant) set_revoked in
    elim (>>=-error (statement statement_failed update) (or_error family_not_found) s token_reuse
      h) [
        | inl failed ↦
            let (is_failure, _) = statement-err statement_failed update s token_reuse failed in
            ground arith
        | inr (n, _, rest) ↦ ground arith
      ]

revoke_then-Dead :
    (id tenant : ℕ) (s : Session Families)
    → ((revoke_family id tenant >>= λ _. raise {A = TokenFamily} token_reuse) s).0 ≡ err token_reuse
    → Dead id tenant s ((revoke_family id tenant >>= λ _. raise {A = TokenFamily} token_reuse) s).1
revoke_then-Dead id tenant s h =
    let refuse = λ (u : Unit {0}). raise {E = Error} {T = Families} {A = TokenFamily} token_reuse in
    elim (>>=-error (revoke_family id tenant) refuse s token_reuse h) [
      | inl failed ↦ absurd (not_failed id tenant s failed)
      | inr (u, ran, _) ↦
          subst (λ (x : Result Error TokenFamily × Session Families). Dead id tenant s x.1)
            (sym (>>=-from (revoke_family id tenant) refuse s u ran))
            (revoke_family-ok id tenant s u ran)
    ]

diagnose_row-Dead :
    (id tenant : ℕ) (o : Option TokenFamily) (s : Session Families)
    → (diagnose_row id tenant o s).0 ≡ err token_reuse
    → Dead id tenant s (diagnose_row id tenant o s).1
unfolding diagnose_row
diagnose_row-Dead id tenant none s h = absurd (ground arith)
diagnose_row-Dead id tenant (some g) s h = elim (Bool-cases (is_active g.revoked_at)) [
  | inl active ↦ rw active (revoke_then-Dead id tenant s (rw active at h))
  | inr dead ↦
      let refused : ◌≡◌ {A = Result Error TokenFamily} (err family_revoked) (err token_reuse) =
        rw dead at h in
      absurd (ground arith)
]

diagnosis-Dead :
    (id tenant : ℕ) (s : Session Families)
    → (diagnose_rotation_failure id tenant s).0 ≡ err token_reuse
    → Dead id tenant s (diagnose_rotation_failure id tenant s).1
unfolding diagnose_rotation_failure
diagnosis-Dead id tenant s h =
    let look : ℕ → Families → Option TokenFamily × Families =
      λ now t. (first_where (is_family id tenant) t.rows, t) in
    let read = statement {E = Error} {T = Families} statement_failed look in
    elim (>>=-error read (diagnose_row id tenant) s token_reuse h) [
      | inl failed ↦
          let (is_failure, _) = statement-err statement_failed look s token_reuse failed in
          absurd (ground arith)
      | inr (o, ran, rest) ↦
          let (_, tables, _) = statement-ok statement_failed look s o ran in
          let (next, dead) = diagnose_row-Dead id tenant o (read s).1 rest in
          subst (λ (x : Result Error TokenFamily × Session Families). Dead id tenant s x.1)
            (sym (>>=-from read (diagnose_row id tenant) s o ran))
            (next ∙ ap (λ (t : Families). t.next_id) tables, dead)
    ]

after_rotation-Dead :
    (id tenant : ℕ) (o : Option TokenFamily) (s : Session Families)
    → (after_rotation id tenant o s).0 ≡ err token_reuse
    → Dead id tenant s (after_rotation id tenant o s).1
after_rotation-Dead id tenant none s h = diagnosis-Dead id tenant s h
after_rotation-Dead id tenant (some f) s h = absurd (ground arith)

-- A rotation that reports reuse has revoked every row of the family.
pub rotate_token-Dead :
    (id tenant generation : ℕ) (hash new : String) (s : Session Families)
    → (rotate_token id tenant hash generation new s).0 ≡ err token_reuse
    → Dead id tenant s (rotate_token id tenant hash generation new s).1
unfolding rotate_token
rotate_token-Dead id tenant generation hash new s h =
    let update = rotate_update id tenant hash generation new in
    let write = statement {E = Error} {T = Families} statement_failed update in
    elim (>>=-error write (after_rotation id tenant) s token_reuse h) [
      | inl failed ↦
          let (is_failure, _) = statement-err statement_failed update s token_reuse failed in
          absurd (ground arith)
      | inr (o, ran, rest) ↦
          let (_, tables, _) = statement-ok statement_failed update s o ran in
          let (next, dead) = after_rotation-Dead id tenant o (write s).1 rest in
          subst (λ (x : Result Error TokenFamily × Session Families). Dead id tenant s x.1)
            (sym (>>=-from write (after_rotation id tenant) s o ran))
            (next ∙ ap (λ (t : Families). t.next_id) tables, dead)
    ]
