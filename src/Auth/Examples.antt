-- ===== src/Auth/Examples.antt =====
-- The theorems on refresh tokens at one family.
use heimdall.Base.{◌≡◌, ◌≢◌, refl, none, [], ◌∷◌, arith}
use heimdall.Base.Result.{ok, err}
use heimdall.Base.Session.{Session}
use heimdall.Auth.{
  TokenFamily, Families, inserted_family, set_rotated, rotate_token, token_reuse, family_revoked,
  diagnose_rotation_failure, diagnose_row, revoke_family,
}
use heimdall.Auth.History.{rotate, set_initial, create, run}
use heimdall.Auth.Replay.{rotate_token-once, rotate_token-reuse}

abbrev family : TokenFamily
family = inserted_family 7 20 "h1" none 1 100

abbrev session : Session Families
session = record { tables = record { next_id = 2; rows = family ∷ [] }; now = 130; faults = [] }

rotates : (rotate_token 1 7 "h1" 1 "h2" session).0 ≡ ok (set_rotated "h2" 130 family)
unfolding rotate_token
rotates = refl

stale : (rotate_token 1 7 "h0" 1 "h2" session).0 ≡ err token_reuse
unfolding rotate_token diagnose_rotation_failure diagnose_row revoke_family
stale = refl

-- After the reuse the good token is refused too.
refused :
    (rotate_token 1 7 "h1" 1 "h2" (rotate_token 1 7 "h0" 1 "h2" session).1).0 ≡ err family_revoked
unfolding rotate_token diagnose_rotation_failure diagnose_row revoke_family
refused = refl

rotate_token-once_example :
    (rotate_token 1 7 "h1" 1 "h4" (
      run
        (rotate 1 7 "h2" 2 "h3" ∷ create 7 20 "h1" ∷ [])
        (rotate_token 1 7 "h1" 1 "h2" session).1)).0
    ≢ ok family
rotate_token-once_example =
    rotate_token-once 1 7 1 "h1" "h2" session (set_rotated "h2" 130 family) (tt, tt) (omega arith)
      rotates (rotate 1 7 "h2" 2 "h3" ∷ create 7 20 "h1" ∷ []) "h1" "h4" family

rotate_token-reuse_example :
    (rotate_token 1 7 "h1" 1 "h4"
      (run (set_initial 1 7 "h1" ∷ []) (rotate_token 1 7 "h0" 1 "h2" session).1)).0
    ≢ ok family
rotate_token-reuse_example =
    rotate_token-reuse 1 7 1 "h0" "h2" session (omega arith) stale (set_initial 1 7 "h1" ∷ []) "h1"
      "h4" 1 family
