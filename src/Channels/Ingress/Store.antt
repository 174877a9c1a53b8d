-- ===== src/Channels/Ingress/Store.antt =====
-- internal/channels/store.go: the links of chat identities and the rows of messages that were let in. A
-- session stands in the context of one tenant.
use heimdall.Base.{
  ℕ, zero, suc, String, Bool, true, false, ◌&&◌, Option, none, some, List, [], ◌∷◌, ◌++◌, ◌==◌, eqb,
  leb, any, if◌then◌else◌,
}
use heimdall.Base.Session.{Exec, pure, raise, statement, ◌>>=◌}
use heimdall.Base.Table.{first_where}

pub data LinkState : Type 0 where
  pending_verification verified revoked : LinkState

pub record ChannelLink : Type 0 where
  pub id : ℕ
  pub tenant_id : ℕ
  pub user_id : ℕ
  pub platform : String
  pub platform_user_id : String
  pub state : LinkState

pub record ChannelMessage : Type 0 where
  pub id : ℕ
  pub tenant_id : ℕ
  pub platform : String
  pub platform_user_id : String
  pub platform_message_id : String
  pub idempotency_key : String
  pub payload_fingerprint : String
  pub correlation_id : String
  pub status : String
  pub expires_at : ℕ

pub record IngressTables : Type 0 where
  pub tenant : ℕ
  pub next_id : ℕ
  pub links : List ChannelLink
  pub messages : List ChannelMessage

pub data IngressError : Type 0 where
  statement_failed link_not_found link_unverified : IngressError
  platform_empty identity_empty key_empty fingerprint_empty correlation_empty expiry_required :
      IngressError
  limit_invalid missing_signature invalid_signature invalid_timestamp timestamp_expired :
      IngressError

pub record IngressMessage : Type 0 where
  pub platform : String
  pub platform_user_id : String
  pub platform_message_id : String
  pub idempotency_key : String
  pub payload_fingerprint : String
  pub correlation_id : String
  pub occurred_at : ℕ
  pub expires_at : ℕ

abbrev pub is_link : ℕ → String → String → ChannelLink → Bool
is_link tenant platform user l =
    eqb l.tenant_id tenant && l.platform == platform && l.platform_user_id == user

abbrev pub or_no_link : Option ChannelLink → Exec IngressError IngressTables ChannelLink
or_no_link none = raise link_not_found
or_no_link (some l) = pure l

-- `GetLinkByIdentity`
unfoldable pub get_link_by_identity : String → String → Exec IngressError IngressTables ChannelLink
get_link_by_identity platform user =
    if platform == ""
    then raise platform_empty
    else if user == ""
    then raise identity_empty
    else statement statement_failed
        (λ now t. (first_where (is_link t.tenant platform user) t.links, t))
      >>= or_no_link

-- The columns of the unique index.
abbrev pub is_key : ℕ → String → String → ChannelMessage → Bool
is_key tenant platform key r =
    eqb r.tenant_id tenant && r.platform == platform && r.idempotency_key == key

abbrev pub message_row : ℕ → ℕ → IngressMessage → ChannelMessage
message_row tenant id msg = record {
  id = id;
  tenant_id = tenant;
  platform = msg.platform;
  platform_user_id = msg.platform_user_id;
  platform_message_id = msg.platform_message_id;
  idempotency_key = msg.idempotency_key;
  payload_fingerprint = msg.payload_fingerprint;
  correlation_id = msg.correlation_id;
  status = "accepted";
  expires_at = msg.expires_at;
}

-- `INSERT … ON CONFLICT (tenant_id, platform, idempotency_key) DO NOTHING RETURNING id`: whether a row
-- came back.
abbrev pub insert_row : IngressMessage → Bool → IngressTables → Bool × IngressTables
insert_row msg true t = (false, t)
insert_row msg false t = (
  true,
  record t {
    next_id = suc t.next_id;
    messages = t.messages ++ message_row t.tenant t.next_id msg ∷ [];
  },
)

abbrev pub missing_field : IngressMessage → Option IngressError
missing_field msg =
    if msg.platform == ""
    then some platform_empty
    else if msg.platform_user_id == ""
    then some identity_empty
    else if msg.idempotency_key == ""
    then some key_empty
    else if msg.payload_fingerprint == ""
    then some fingerprint_empty
    else if msg.correlation_id == ""
    then some correlation_empty
    else if eqb msg.expires_at 0
    then some expiry_required
    else none

abbrev pub insert_unless :
    IngressMessage → Option IngressError → Exec IngressError IngressTables Bool
insert_unless msg (some e) = raise e
insert_unless msg none =
    statement statement_failed (λ now t.
      insert_row msg (any (is_key t.tenant msg.platform msg.idempotency_key) t.messages) t)

-- `InsertIdempotency`: true for a key that is seen for the first time.
unfoldable pub insert_idempotency : IngressMessage → Exec IngressError IngressTables Bool
insert_idempotency msg = insert_unless msg (missing_field msg)

-- The expired row of the tenant that expires first.
abbrev pub earlier : ChannelMessage → Option ChannelMessage → ChannelMessage
earlier r none = r
earlier r (some other) = if leb r.expires_at other.expires_at then r else other

unfoldable pub earliest : (ChannelMessage → Bool) → List ChannelMessage → Option ChannelMessage
earliest p [] = none
earliest p (r ∷ rows) = let rest = earliest p rows in if p r then some (earlier r rest) else rest

unfoldable pub remove_id : ℕ → List ChannelMessage → List ChannelMessage
remove_id id [] = []
remove_id id (r ∷ rows) = let rest = remove_id id rows in if eqb r.id id then rest else r ∷ rest

abbrev pub is_expired : ℕ → ℕ → ChannelMessage → Bool
is_expired tenant before r = eqb r.tenant_id tenant && leb r.expires_at before

abbrev pub remove_found :
    (List ChannelMessage → ℕ × List ChannelMessage)
    → Option ChannelMessage
    → List ChannelMessage
    → ℕ × List ChannelMessage
remove_found next none rows = (0, rows)
remove_found next (some r) rows =
    let removed = next (remove_id r.id rows) in (suc removed.0, removed.1)

-- The deletion of at most so many rows, those that expire first.
unfoldable pub delete_rows :
    (ChannelMessage → Bool) → ℕ → List ChannelMessage → ℕ × List ChannelMessage
delete_rows p zero rows = (0, rows)
delete_rows p (suc limit) rows = remove_found (delete_rows p limit) (earliest p rows) rows

-- `DeleteExpiredMessages`
unfoldable pub delete_expired_messages : ℕ → ℕ → Exec IngressError IngressTables ℕ
delete_expired_messages before limit =
    if eqb before 0
    then raise expiry_required
    else if eqb limit 0
    then raise limit_invalid
    else statement statement_failed (λ now t.
      let deleted = delete_rows (is_expired t.tenant before) limit t.messages in
      (deleted.0, record t { messages = deleted.1 }))
