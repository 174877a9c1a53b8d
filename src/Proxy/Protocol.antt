-- ===== src/Proxy/Protocol.antt =====
-- internal/proxy/protocol.go and the reader of conn.go: frames on the wire, each a length in four bytes
-- and then the JSON of the frame. A byte is a number, a connection the bytes still to be read.
mod Words
pub mod Roundtrip
unfoldable pub use Words.*
use heimdall.Base.{
  ℕ, zero, suc, ◌+◌, ◌%◌, ◌^◌, String, Option, none, some, List, [], ◌∷◌, ◌++◌, ltb, if◌then◌else◌,
  length, take, drop,
}
use heimdall.Base.Result.{Result, ok, err, ◌>>=◌}

pub record Frame : Type 0 where
  pub frame_type : String
  pub id : String
  pub payload : List ℕ

pub data WireError : Type 0 where
  marshal_failed unmarshal_failed : String → WireError
  too_large : ℕ → WireError
  short_header short_payload : WireError
  header_unread payload_unread : WireError

-- encoding/json on a frame: its bytes, and the frame that bytes stand for.
pub record JsonCodec : Type 0 where
  pub marshal : Frame → Result String (List ℕ)
  pub unmarshal : List ℕ → Result String Frame

-- 4 << 20
abbrev pub max_frame_size : ℕ
max_frame_size = 4194304

abbrev pub wrap_error : {A : Type 0} → (String → WireError) → Result String A → Result WireError A
wrap_error f (ok a) = ok a
wrap_error f (err e) = err (f e)

unfoldable pub frame_bytes : List ℕ → Result WireError (List ℕ)
frame_bytes payload =
    if ltb max_frame_size (length payload)
    then err (too_large (length payload))
    else ok (put_uint32 (length payload % 2 ^ 32) ++ payload)

unfoldable pub encode_frame : JsonCodec → Frame → Result WireError (List ℕ)
encode_frame codec f = wrap_error marshal_failed (codec.marshal f) >>= frame_bytes

-- The JSON of the frame, and where the frame ends.
unfoldable pub decode_payload : JsonCodec → ℕ → List ℕ → Result WireError (Frame × ℕ)
decode_payload codec payload_len buf =
    let total = 4 + payload_len in
    if ltb (length buf) total
    then err short_payload
    else wrap_error unmarshal_failed (codec.unmarshal (drop 4 (take total buf))) >>= λ f.
        ok (f, total)

unfoldable pub decode_frame : JsonCodec → List ℕ → Result WireError (Frame × ℕ)
decode_frame codec buf =
    if ltb (length buf) 4
    then err short_header
    else let payload_len = uint32 buf in
      if ltb max_frame_size payload_len
      then err (too_large payload_len)
      else decode_payload codec payload_len buf

abbrev pub with_byte : ℕ → Option (List ℕ) × List ℕ → Option (List ℕ) × List ℕ
with_byte b (none, left) = (none, left)
with_byte b (some bytes, left) = (some (b ∷ bytes), left)

-- `io.ReadFull`: the bytes read, or none when the connection ends first, and the bytes left.
abbrev pub read_full : ℕ → List ℕ → Option (List ℕ) × List ℕ
read_full zero stream = (some [], stream)
read_full (suc n) [] = (none, [])
read_full (suc n) (b ∷ stream) = with_byte b (read_full n stream)

abbrev pub frame_of : Result WireError (Frame × ℕ) → Result WireError Frame
frame_of r = r >>= λ decoded. ok decoded.0

unfoldable pub recv_payload :
    JsonCodec → List ℕ → Option (List ℕ) × List ℕ → Result WireError Frame × List ℕ
recv_payload codec header (none, left) = (err payload_unread, left)
recv_payload codec header (some payload, left) =
    (frame_of (decode_frame codec (header ++ payload)), left)

unfoldable pub recv_header : JsonCodec → Option (List ℕ) × List ℕ → Result WireError Frame × List ℕ
recv_header codec (none, left) = (err header_unread, left)
recv_header codec (some header, left) =
    let payload_len = uint32 header in
    if ltb max_frame_size payload_len
    then (err (too_large payload_len), left)
    else recv_payload codec header (read_full payload_len left)

unfoldable pub recv_frame : JsonCodec → List ℕ → Result WireError Frame × List ℕ
recv_frame codec stream = recv_header codec (read_full 4 stream)
