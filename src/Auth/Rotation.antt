-- ===== src/Auth/Rotation.antt =====
-- What a rotation leaves behind, where it succeeds and where it reports reuse.
use mathlib.Core.Option
use heimdall.Base.{
  ℕ, ◌<◌, ◌≡◌, ◌≢◌, refl, sym, ap, ◌∙◌, subst, inl, inr, String, true, false, Option, none, some,
  List, [], ◌∷◌, arith, All, Bool-cases, Option-cases,
}
use mathlib.Core.Option.{some-injective}
use heimdall.Base.Result.{Result, ok, err}
use heimdall.Base.Session.{Session, raise, statement, statement-ok, ◌>>=◌, >>=-ok, >>=-from}
use heimdall.Base.Table.{update_where, first_where, All-first_where, first_where-holds}
use heimdall.Auth.{
  TokenFamily, Families, Error, revoke_family, rotate_token, is_family, is_active, can_revoke,
  can_rotate, set_revoked, set_rotated, update_families, or_error, rotate_update, after_rotation,
  diagnose_rotation_failure, diagnose_row, statement_failed, family_not_found, family_revoked,
  token_reuse,
}

-- The primary key: no two rows have one id.
abbrev pub IsKeyed : List TokenFamily → Type 0
IsKeyed [] = Unit
IsKeyed (f ∷ rows) = All (λ g. g.id ≢ f.id) rows × IsKeyed rows

-- A row that a rotation hits, and the other rows.
abbrev Lone : ℕ → ℕ → String → ℕ → TokenFamily → Type 0
Lone id tenant hash generation g =
    is_family id tenant g ≡ true → can_rotate id tenant hash generation g ≡ true

others :
    (id tenant generation : ℕ) (hash : String) (f : TokenFamily) (rows : List TokenFamily)
    → f.id ≡ id
    → All (λ g. g.id ≢ f.id) rows
    → All (Lone id tenant hash generation) rows
others id tenant generation hash f [] same h = tt
others id tenant generation hash f (g ∷ rows) same (other, h) =
    ((λ hit. absurd (ground (arith, other))), others id tenant generation hash f rows same h)

only_hit :
    (id tenant generation : ℕ) (hash : String) (rows : List TokenFamily) (f : TokenFamily)
    → IsKeyed rows
    → first_where (can_rotate id tenant hash generation) rows ≡ some f
    → All (Lone id tenant hash generation) rows
only_hit id tenant generation hash [] f keyed h = tt
only_hit id tenant generation hash (g ∷ rows) f (apart, keyed) h =
    elim (Bool-cases (can_rotate id tenant hash generation g)) [
      | inl hit ↦ ((λ _. hit), others id tenant generation hash g rows (ground arith) apart)
      | inr miss ↦
          let later : first_where (can_rotate id tenant hash generation) rows ≡ some f =
            ground arith in
          let other = All-first_where (λ x. x.id ≢ g.id) _ rows f apart later in
          let may = first_where-holds (can_rotate id tenant hash generation) rows f later in
          (
            (λ own. absurd (ground (arith, other))),
            only_hit id tenant generation hash rows f keyed later,
          )
    ]

rotated_rows :
    (id tenant generation : ℕ) (hash new : String) (now : ℕ) (rows : List TokenFamily)
    → All (Lone id tenant hash generation) rows
    → All
        (λ g. is_family id tenant g ≡ true → generation < g.current_generation)
        (update_where (can_rotate id tenant hash generation) (set_rotated new now) rows)
rotated_rows id tenant generation hash new now [] h = tt
rotated_rows id tenant generation hash new now (g ∷ rows) (lone, h) = (
  (λ own. elim (Bool-cases (can_rotate id tenant hash generation g)) [
    | inl hit ↦ ground arith
    | inr miss ↦ absurd (ground (arith, lone))
  ]),
  rotated_rows id tenant generation hash new now rows h,
)

revoke_then-refuses :
    (id tenant : ℕ) (s : Session Families) (f : TokenFamily)
    → ((revoke_family id tenant >>= λ _. raise {A = TokenFamily} token_reuse) s).0 ≢ ok f
revoke_then-refuses id tenant s f h =
    let (_, _, rest) = >>=-ok (revoke_family id tenant) (λ _. raise token_reuse) s f h in
    ground arith

diagnose_row-refuses :
    (id tenant : ℕ) (o : Option TokenFamily) (s : Session Families) (f : TokenFamily)
    → (diagnose_row id tenant o s).0 ≢ ok f
unfolding diagnose_row
diagnose_row-refuses id tenant none s f h = ground arith
diagnose_row-refuses id tenant (some g) s f h = elim (Bool-cases (is_active g.revoked_at)) [
  | inl active ↦ revoke_then-refuses id tenant s f (rw active at h)
  | inr dead ↦
      let refused : ◌≡◌ {A = Result Error TokenFamily} (err family_revoked) (ok f) = rw dead at h in
      ground arith
]

diagnosis_refuses :
    (id tenant : ℕ) (s : Session Families) (f : TokenFamily)
    → (diagnose_rotation_failure id tenant s).0 ≢ ok f
unfolding diagnose_rotation_failure
diagnosis_refuses id tenant s f h =
    let read =
      statement {E = Error} {T = Families} statement_failed
        (λ now t. (first_where (is_family id tenant) t.rows, t)) in
    let (o, _, rest) = >>=-ok read (diagnose_row id tenant) s f h in
    diagnose_row-refuses id tenant o (read s).1 f rest

after_rotation-ok :
    (id tenant : ℕ) (o : Option TokenFamily) (s : Session Families) (f : TokenFamily)
    → (after_rotation id tenant o s).0 ≡ ok f
    → (o ≡ some f) × ((after_rotation id tenant o s).1 ≡ s)
after_rotation-ok id tenant none s f h = absurd (diagnosis_refuses id tenant s f h)
after_rotation-ok id tenant (some g) s f h = (ground arith, refl)

-- What a rotation that succeeds has updated.
pub rotate_token-hit :
    (id tenant generation : ℕ) (hash new : String) (s : Session Families) (f : TokenFamily)
    → (rotate_token id tenant hash generation new s).0 ≡ ok f
    → ((g : TokenFamily) × (first_where (can_rotate id tenant hash generation) s.tables.rows
          ≡ some g)
        × (f ≡ set_rotated new s.now g))
      × ((rotate_token id tenant hash generation new s).1.tables
          ≡ (rotate_update id tenant hash generation new s.now s.tables).1)
unfolding rotate_token
rotate_token-hit id tenant generation hash new s f h =
    let update = rotate_update id tenant hash generation new in
    let write = statement {E = Error} {T = Families} statement_failed update in
    let (o, ran, rest) = >>=-ok write (after_rotation id tenant) s f h in
    let (answer, tables, _) = statement-ok statement_failed update s o ran in
    let (is_f, kept) = after_rotation-ok id tenant o (write s).1 f rest in
    let from = >>=-from write (after_rotation id tenant) s o ran in
    let after =
      ap (λ (x : Result Error TokenFamily × Session Families). x.1.tables) from
      ∙ ap (λ (x : Session Families). x.tables) kept
      ∙ tables in
    elim (Option-cases (first_where (can_rotate id tenant hash generation) s.tables.rows)) [
      | inl miss ↦ absurd (cc (answer, is_f, ap (Option.map (set_rotated new s.now)) miss))
      | inr (g, hit) ↦ (
        (
          g,
          hit,
          some-injective _ _ (sym is_f ∙ answer ∙ ap (Option.map (set_rotated new s.now)) hit),
        ),
        after,
      )
    ]

-- A rotation that succeeds found the family active with the presented hash and generation, and moved
-- it on by one generation.
pub rotate_token-ok :
    (id tenant generation : ℕ) (hash new : String) (s : Session Families) (f : TokenFamily)
    → IsKeyed s.tables.rows
    → (rotate_token id tenant hash generation new s).0 ≡ ok f
    → ((g : TokenFamily) × (first_where (can_rotate id tenant hash generation) s.tables.rows
          ≡ some g)
        × (f ≡ set_rotated new s.now g))
      × ((rotate_token id tenant hash generation new s).1.tables.next_id ≡ s.tables.next_id)
      × All
          (λ g. is_family id tenant g ≡ true → generation < g.current_generation)
          (rotate_token id tenant hash generation new s).1.tables.rows
unfolding rotate_token
rotate_token-ok id tenant generation hash new s f keyed h =
    let ((g, hit, result), tables) = rotate_token-hit id tenant generation hash new s f h in
    let lone = only_hit id tenant generation hash s.tables.rows g keyed hit in
    (
      (g, hit, result),
      ap (λ (t : Families). t.next_id) tables,
      subst
          (λ t. All (λ x. is_family id tenant x ≡ true → generation < x.current_generation) t.rows)
          (sym tables) (rotated_rows id tenant generation hash new s.now s.tables.rows lone),
    )

revoked_rows :
    (id tenant now : ℕ) (rows : List TokenFamily)
    → All
        (λ g. is_family id tenant g ≡ true → is_active g.revoked_at ≡ false)
        (update_where (can_revoke id tenant) (set_revoked now) rows)
revoked_rows id tenant now [] = tt
revoked_rows id tenant now (g ∷ rows) = (
  (λ own. elim (Bool-cases (is_active g.revoked_at)) [
    | inl active ↦ ground arith
    | inr dead ↦ ground arith
  ]),
  revoked_rows id tenant now rows,
)

-- The family has no active row in the tables.
abbrev pub AllRevoked : ℕ → ℕ → Families → Type 0
AllRevoked id tenant t =
    All (λ g. is_family id tenant g ≡ true → is_active g.revoked_at ≡ false) t.rows

-- A revocation that succeeds leaves no active row of the family.
pub revoke_family-ok :
    (id tenant : ℕ) (s : Session Families) (u : Unit {0})
    → (revoke_family id tenant s).0 ≡ ok u
    → ((revoke_family id tenant s).1.tables.next_id ≡ s.tables.next_id)
      × AllRevoked id tenant (revoke_family id tenant s).1.tables
unfolding revoke_family
revoke_family-ok id tenant s u h =
    let update = update_families (can_revoke id tenant) set_revoked in
    let write = statement {E = Error} {T = Families} statement_failed update in
    let (n, ran, rest) = >>=-ok write (or_error family_not_found) s u h in
    let (_, tables, _) = statement-ok statement_failed update s n ran in
    let from = >>=-from write (or_error family_not_found) s n ran in
    let kept : (or_error family_not_found n (write s).1).1 ≡ (write s).1 = ground arith in
    let after =
      ap (λ (x : Result Error (Unit {0}) × Session Families). x.1.tables) from
      ∙ ap (λ (x : Session Families). x.tables) kept
      ∙ tables in
    (
      ap (λ (t : Families). t.next_id) after,
      subst (AllRevoked id tenant) (sym after) (revoked_rows id tenant s.now s.tables.rows),
    )
