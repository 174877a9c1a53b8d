-- ===== src/Proxy/Examples.antt =====
-- internal/proxy: the theorems at a codec with one byte for the type and one for the ID.
use heimdall.Base.{
  Option, ℕ, zero, suc, ◌≡◌, refl, subst, String, true, false, none, some, List, [], ◌∷◌, ◌++◌,
  ◌==◌, if◌then◌else◌, arith,
}
use heimdall.Base.Result.{Result, ok, err, ok-injective}
use heimdall.Base.Text.{trim_space}
use heimdall.Proxy.Protocol.{
  Frame, JsonCodec, put_uint32, uint32, frame_bytes, encode_frame, decode_frame, decode_payload,
  recv_frame, recv_header, recv_payload,
}
use heimdall.Proxy.Protocol.Roundtrip.{
  Faithful, encode_frames, recv_frames, decode_frame-encode_frame, recv_frames-encode_frames,
}
use heimdall.Proxy.Connection.{
  AgentConn, new_agent_conn, send_request, register_request, dispatch_request_frame, can_dispatch,
}
use heimdall.Proxy.Connection.Inboxes.{
  Event, opened, arrived, inbox, listening, unopened, registers, dispatches,
}
use heimdall.Proxy.Connection.Runs.{Run, stays, goes, afterwards, new_agent_conn-inbox}
use heimdall.Proxy.Pool.{ConnPool, PushError, push_config, config_frame}
use heimdall.Proxy.Pool.Push.{Lost, push_config-Lost}
use heimdall.Proxy.Pool.Acknowledged.{Answers, push_config-replied}

abbrev type_code : String → ℕ
type_code t = if t == "config_update" then 1 else if t == "config_ack" then 2 else 3

abbrev type_of : ℕ → String
type_of (suc zero) = "config_update"
type_of (suc (suc zero)) = "config_ack"
type_of _ = "heartbeat"

abbrev id_code : String → ℕ
id_code i = if i == "c1" then 1 else 2

abbrev id_of : ℕ → String
id_of (suc zero) = "c1"
id_of _ = "hb"

abbrev read_bytes : List ℕ → Result String Frame
read_bytes (t ∷ i ∷ payload) = ok record { frame_type = type_of t; id = id_of i; payload = payload }
read_bytes _ = err "too short"

abbrev codec : JsonCodec
codec = record {
  marshal = λ f. ok (type_code f.frame_type ∷ id_code f.id ∷ f.payload);
  unmarshal = read_bytes;
}

abbrev ack : Frame
ack = record { frame_type = "config_ack"; id = "c1"; payload = 7 ∷ [] }

abbrev heartbeat : Frame
heartbeat = record { frame_type = "heartbeat"; id = "hb"; payload = [] }

ack-Faithful : Faithful codec ack
unfolding Faithful
ack-Faithful bytes made =
    subst (λ b. read_bytes b ≡ ok ack) (ok-injective {E = String} _ bytes made) refl

heartbeat-Faithful : Faithful codec heartbeat
unfolding Faithful
heartbeat-Faithful bytes made =
    subst (λ b. read_bytes b ≡ ok heartbeat) (ok-injective {E = String} _ bytes made) refl

abbrev ack_bytes : List ℕ
ack_bytes = 0 ∷ 0 ∷ 0 ∷ 3 ∷ 2 ∷ 1 ∷ 7 ∷ []

abbrev both_bytes : List ℕ
both_bytes = 0 ∷ 0 ∷ 0 ∷ 2 ∷ 3 ∷ 2 ∷ ack_bytes

ack_encoded : encode_frame codec ack ≡ ok ack_bytes
unfolding encode_frame frame_bytes put_uint32
ack_encoded = refl

both_encoded : encode_frames codec (heartbeat ∷ ack ∷ []) ≡ ok both_bytes
unfolding encode_frames encode_frame frame_bytes put_uint32
both_encoded = refl

decodes : decode_frame codec (ack_bytes ++ 9 ∷ []) ≡ ok (ack, 7)
decodes = decode_frame-encode_frame codec ack ack_bytes (9 ∷ []) ack-Faithful ack_encoded

recv_frames-encode_frames_example :
    recv_frames codec 2 (both_bytes ++ 9 ∷ []) ≡ (heartbeat ∷ ack ∷ [], 9 ∷ [])
recv_frames-encode_frames_example =
    recv_frames-encode_frames codec (heartbeat ∷ ack ∷ []) both_bytes (9 ∷ [])
      (heartbeat-Faithful, (ack-Faithful, tt)) both_encoded

-- A request is opened, a heartbeat and its reply arrive, and the reader takes the reply.
abbrev conn_opened : AgentConn
conn_opened = (register_request "c1" (new_agent_conn both_bytes)).1

abbrev conn_beaten : AgentConn
conn_beaten = dispatch_request_frame false heartbeat (record conn_opened { incoming = ack_bytes })

abbrev conn_replied : AgentConn
conn_replied = dispatch_request_frame false ack (record conn_beaten { incoming = [] })

abbrev seen : List Event
seen = opened 0 "c1" ∷ arrived heartbeat ∷ arrived ack ∷ []

three_steps : Run codec (new_agent_conn both_bytes) seen conn_replied
unfolding new_agent_conn register_request dispatch_request_frame can_dispatch recv_frame recv_header
    recv_payload decode_frame decode_payload uint32
three_steps = goes _ _ _ _ _ (registers _ _ "c1" 0 refl) (
    goes _ _ _ _ _ (dispatches _ false heartbeat ack_bytes refl refl)
      (goes _ _ _ _ _ (dispatches _ false ack [] refl refl) (stays _)))

new_agent_conn-inbox_example : inbox conn_replied 0 ≡ afterwards seen 0 unopened
new_agent_conn-inbox_example = new_agent_conn-inbox codec both_bytes conn_replied seen three_steps 0

in_the_inbox : afterwards seen 0 unopened ≡ listening "c1" (ack ∷ [])
unfolding afterwards
in_the_inbox = refl

abbrev empty_pool : ConnPool
empty_pool = record { conns = λ agent. none; closed = [] }

config_encoded : encode_frame codec (config_frame "c1" []) ≡ ok (0 ∷ 0 ∷ 0 ∷ 2 ∷ 1 ∷ 1 ∷ [])
unfolding encode_frame frame_bytes put_uint32
config_encoded = refl

abbrev pushed : Option (Result PushError (Unit {0})) × ConnPool
pushed = push_config codec (ok (both_bytes ++ [])) none true 5 "agent" "c1" (ok []) empty_pool

push_config-replied_example :
    (answer : Result PushError (Unit {0})) × (pushed.0 ≡ some answer)
    × Answers ack answer
    × (pushed.1.conns "agent"
        ≡ some (record (new_agent_conn []) { outgoing = 0 ∷ 0 ∷ 0 ∷ 2 ∷ 1 ∷ 1 ∷ [] }))
push_config-replied_example =
    push_config-replied codec (heartbeat ∷ []) ack both_bytes [] (0 ∷ 0 ∷ 0 ∷ 2 ∷ 1 ∷ 1 ∷ []) 5
      "agent" "c1" [] empty_pool refl (refl, tt) refl (heartbeat-Faithful, (ack-Faithful, tt))
      both_encoded config_encoded (omega arith)

abbrev used_pool : ConnPool
used_pool = record {
  conns = λ agent. some (send_request codec true ack (new_agent_conn both_bytes)).1;
  closed = [];
}

ack_named : (trim_space ack.id == "") ≡ false
unfolding trim_space
ack_named = refl

-- The agent answers the push with a config_ack, which is not read.
push_config-Lost_example :
    Lost "agent" (push_config codec (err "") none true 5 "agent" "c1" (ok []) used_pool)
push_config-Lost_example =
    push_config-Lost codec true true ack (new_agent_conn both_bytes) (err "") none 4 "agent" "c1" []
      used_pool ack_named refl
