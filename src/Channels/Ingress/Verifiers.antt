-- ===== src/Channels/Ingress/Verifiers.antt =====
-- internal/channels/verifier_slack.go, verifier_whatsapp.go, verifier_telegram.go: which webhooks come from
-- the provider. HMAC-SHA256 in hexadecimal and the reading of a number are parameters; times are in
-- seconds, and a time before 1970 is 0.
use Prim.Native.String.{◌++◌ as concat}
use heimdall.Base.{
  ℕ, zero, suc, ◌-◌, ◌≡◌, ◌≤◌, refl, String, ◌||◌, Option, none, some, ◌==◌, ltb, eq_iff, arith,
  Bool-cases, inl, inr, if◌then◌else◌,
}
use heimdall.Base.Result.{Result, ok, err}
use heimdall.Channels.Ingress.{
  IngressError, missing_signature, invalid_signature, invalid_timestamp, timestamp_expired,
}

-- `mac` of a secret and a text, and the number that a decimal text is.
pub record Crypto : Type 0 where
  pub mac : String → String → String
  pub parse_int : String → Option ℕ

pub data Verifier : Type 0 where
  slack : String → ℕ → Verifier
  whatsapp telegram : String → Verifier

abbrev pub Headers : Type 0
Headers = String → String

-- `NewSlackVerifier`, whose skew is five minutes by default.
abbrev pub new_slack_verifier : String → ℕ → Verifier
new_slack_verifier secret zero = slack secret 300
new_slack_verifier secret (suc n) = slack secret (suc n)

-- `hmac.Equal`
abbrev pub match_signature : String → String → Result IngressError (Unit {0})
match_signature expected signature = if expected == signature then ok tt else err invalid_signature

abbrev pub slack_signature : Crypto → String → String → String → String
slack_signature crypto secret timestamp body =
    concat "v0=" (crypto.mac secret (concat "v0:" (concat timestamp (concat ":" body))))

abbrev pub check_time :
    ℕ → ℕ → Result IngressError (Unit {0}) → Option ℕ → Result IngressError (Unit {0})
check_time skew now rest none = err invalid_timestamp
check_time skew now rest (some time) =
    if ltb skew (now - time) || ltb skew (time - now) then err timestamp_expired else rest

abbrev pub check_slack :
    Crypto → String → ℕ → String → String → String → ℕ → Result IngressError (Unit {0})
check_slack crypto secret skew signature timestamp body now =
    if signature == ""
    then err missing_signature
    else if timestamp == ""
    then err invalid_timestamp
    else check_time skew now
        (match_signature (slack_signature crypto secret timestamp body) signature)
        (crypto.parse_int timestamp)

-- `Verify` of each provider.
unfoldable pub verify : Crypto → Verifier → Headers → String → ℕ → Result IngressError (Unit {0})
verify crypto (slack secret skew) headers body now =
    check_slack crypto secret skew (headers "X-Slack-Signature")
      (headers "X-Slack-Request-Timestamp") body now
verify crypto (whatsapp secret) headers body now =
    if headers "X-Hub-Signature-256" == ""
    then err missing_signature
    else match_signature (concat "sha256=" (crypto.mac secret body)) (headers "X-Hub-Signature-256")
verify crypto (telegram token) headers body now =
    if headers "X-Telegram-Bot-Api-Secret-Token" == ""
    then err missing_signature
    else match_signature (headers "X-Telegram-Bot-Api-Secret-Token") token

match_signature-ok :
    (expected signature : String)
    → match_signature expected signature ≡ ok tt
    → expected ≡ signature
match_signature-ok expected signature h = ground (arith, h, eq_iff expected signature)

check_time-ok :
    (skew now : ℕ) (rest : Result IngressError (Unit {0})) (o : Option ℕ)
    → check_time skew now rest o ≡ ok tt
    → (time : ℕ) × (o ≡ some time) × (now - time ≤ skew) × (time - now ≤ skew) × (rest ≡ ok tt)
check_time-ok skew now rest none h = ground (arith, h)
check_time-ok skew now rest (some time) h =
    (time, refl, ground (arith, h), ground (arith, h), ground (arith, h))

-- A Slack webhook is accepted only if its timestamp is a number at most the skew away from the clock and its
-- signature is that of the timestamp and the body under the secret.
pub verify-slack :
    (crypto : Crypto) (secret : String) (skew : ℕ) (headers : Headers) (body : String) (now : ℕ)
    → verify crypto (slack secret skew) headers body now ≡ ok tt
    → let timestamp = headers "X-Slack-Request-Timestamp" in
      (time : ℕ) × (crypto.parse_int timestamp ≡ some time)
      × (now - time ≤ skew)
      × (time - now ≤ skew)
      × (slack_signature crypto secret timestamp body ≡ headers "X-Slack-Signature")
unfolding verify
verify-slack crypto secret skew headers body now h =
    let signature = headers "X-Slack-Signature" in
    let timestamp = headers "X-Slack-Request-Timestamp" in
    elim (Bool-cases (signature == "")) [
      | inl missing ↦ ground (arith, rw missing at h)
      | inr signed ↦ elim (Bool-cases (timestamp == "")) [
        | inl missing ↦ ground (arith, rw (signed, missing) at h)
        | inr stamped ↦
            let (time, parsed, late, early, compared) =
              check_time-ok skew now _ (crypto.parse_int timestamp) (rw (signed, stamped) at h) in
            (time, parsed, late, early, match_signature-ok _ signature compared)
      ]
    ]
