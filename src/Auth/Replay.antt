-- ===== src/Auth/Replay.antt =====
-- Tokens that were used, and families that were revoked, are dead for good.
use heimdall.Base.{ℕ, ◌<◌, ◌≡◌, ◌≢◌, refl, String, true, false, List, arith}
use heimdall.Base.Result.{ok, err}
use heimdall.Base.Session.{Session}
use heimdall.Base.Table.{All-first_where, first_where-holds}
use heimdall.Auth.{
  TokenFamily, Families, rotate_token, is_family, is_active, can_rotate, token_reuse,
}
use heimdall.Auth.Rotation.{IsKeyed, rotate_token-ok, rotate_token-hit}
use heimdall.Auth.Reuse.{rotate_token-Dead}
use heimdall.Auth.History.{Call, IsLasting, run, run-Holds}

abbrev IsBeyond : ℕ → TokenFamily → Type 0
IsBeyond generation f = generation < f.current_generation

IsBeyond-IsLasting : (generation : ℕ) → IsLasting (IsBeyond generation)
IsBeyond-IsLasting generation = record {
  hash = λ f hash now h. h;
  rotated = λ f hash now h. omega (arith, h);
  revoked = λ f now h. h;
}

abbrev IsRevoked : TokenFamily → Type 0
IsRevoked f = is_active f.revoked_at ≡ false

IsRevoked-IsLasting : IsLasting IsRevoked
IsRevoked-IsLasting = record {
  hash = λ f hash now h. h;
  rotated = λ f hash now h. h;
  revoked = λ f now h. refl;
}

-- A refresh token works once, where the ids of families are distinct and that of the family is below
-- the next one to be given: after a rotation that succeeded, whatever calls follow and whatever
-- statements fail, no token of that generation of that family is accepted again.
pub rotate_token-once :
    (id tenant generation : ℕ) (hash new : String) (s : Session Families) (f : TokenFamily)
    → IsKeyed s.tables.rows
    → id < s.tables.next_id
    → (rotate_token id tenant hash generation new s).0 ≡ ok f
    → (calls : List Call) (hash' new' : String) (f' : TokenFamily)
    → (rotate_token id tenant hash' generation new'
        (run calls (rotate_token id tenant hash generation new s).1)).0
      ≢ ok f'
rotate_token-once id tenant generation hash new s f keyed known h calls hash' new' f' h' =
    let used = (rotate_token id tenant hash generation new s).1 in
    let (_, next, beyond) = rotate_token-ok id tenant generation hash new s f keyed h in
    let (_, rows) =
      run-Holds (IsBeyond generation) (IsBeyond-IsLasting generation) id tenant calls used
        (omega (arith, known, next), beyond) in
    let ((g, hit, _), _) =
      rotate_token-hit id tenant generation hash' new' (run calls used) f' h' in
    let test = can_rotate id tenant hash' generation in
    let may = first_where-holds test (run calls used).tables.rows g hit in
    let over =
      All-first_where (λ x. is_family id tenant x ≡ true → generation < x.current_generation) test
        (run calls used).tables.rows g rows hit in
    absurd (ground (arith, over))

-- Reuse kills the family, where its id is below the next one to be given: after a rotation that reported reuse, whatever calls follow and whatever
-- statements fail, no token of that family is accepted, the latest one included.
pub rotate_token-reuse :
    (id tenant generation : ℕ) (hash new : String) (s : Session Families)
    → id < s.tables.next_id
    → (rotate_token id tenant hash generation new s).0 ≡ err token_reuse
    → (calls : List Call) (hash' new' : String) (generation' : ℕ) (f' : TokenFamily)
    → (rotate_token id tenant hash' generation' new'
        (run calls (rotate_token id tenant hash generation new s).1)).0
      ≢ ok f'
rotate_token-reuse id tenant generation hash new s known h calls hash' new' generation' f' h' =
    let dead = (rotate_token id tenant hash generation new s).1 in
    let (next, revoked) = rotate_token-Dead id tenant generation hash new s h in
    let (_, rows) =
      run-Holds IsRevoked IsRevoked-IsLasting id tenant calls dead
        (omega (arith, known, next), revoked) in
    let ((g, hit, _), _) =
      rotate_token-hit id tenant generation' hash' new' (run calls dead) f' h' in
    let test = can_rotate id tenant hash' generation' in
    let may = first_where-holds test (run calls dead).tables.rows g hit in
    let gone =
      All-first_where (λ x. is_family id tenant x ≡ true → IsRevoked x) test
        (run calls dead).tables.rows g rows hit in
    absurd (ground (arith, gone))
