-- ===== src/Proxy/Protocol/Roundtrip.antt =====
-- internal/proxy/protocol.go, conn.go: what is written as frames is read back as the same frames.
use heimdall.Base.{
  ℕ, zero, suc, ◌+◌, ◌%◌, ◌^◌, ◌≤◌, ◌≡◌, refl, sym, subst, ap, false, some, List, [], ◌∷◌, ◌++◌,
  arith, ltb, length, take, drop, All, inl, inr, Bool-cases, length-append, take-append,
}
use mathlib.Core.List.{append-nil, append_assoc}
use heimdall.Base.Result.{Result, ok, err, ◌>>=◌, ok-injective, Result-cases}
use heimdall.Proxy.Protocol.{
  Frame, JsonCodec, WireError, max_frame_size, frame_bytes, encode_frame, decode_payload,
  decode_frame, put_uint32, uint32, uint32-put_uint32, read_full, recv_payload, recv_header,
  recv_frame,
}

-- The codec reads back what it wrote for `f`, as encoding/json does when the texts of the frame are
-- valid UTF-8 and its payload is compact JSON.
unfoldable pub Faithful : JsonCodec → Frame → Type 0
Faithful codec f = (bytes : List ℕ) → codec.marshal f ≡ ok bytes → codec.unmarshal bytes ≡ ok f

-- A frame on the wire: the header and the JSON after it.
frame_bytes-ok :
    (payload buf : List ℕ)
    → frame_bytes payload ≡ ok buf
    → (length payload ≤ max_frame_size) × (buf ≡ put_uint32 (length payload) ++ payload)
unfolding frame_bytes
frame_bytes-ok payload buf h = elim (Bool-cases (ltb max_frame_size (length payload))) [
  | inl large ↦ ground (arith, large)
  | inr small ↦
      let is : put_uint32 (length payload % 2 ^ 32) ++ payload ≡ buf =
        ok-injective {E = WireError} _ buf (rw small at h) in
      let fits : length payload ≤ max_frame_size = ground (arith, small) in
      let same : length payload % 2 ^ 32 ≡ length payload = omega (arith, fits) in
      (fits, sym (rw same at is))
]

-- What a decoder cuts out of the bytes of a frame is its JSON.
cut_payload :
    (n : ℕ) (payload rest : List ℕ)
    → drop 4 (take (4 + length payload) (put_uint32 n ++ (payload ++ rest))) ≡ payload
unfolding put_uint32
cut_payload n payload rest =
    let four : 4 + length payload ≡ suc (suc (suc (suc (length payload)))) = omega arith in
    rw four (take-append payload rest)

length-framed :
    (n : ℕ) (payload rest : List ℕ)
    → length (put_uint32 n ++ (payload ++ rest)) ≡ 4 + length payload + length rest
unfolding put_uint32
length-framed n payload rest = omega (arith, length-append payload rest)

length-header : (n : ℕ) (payload : List ℕ) → length (put_uint32 n ++ payload) ≡ 4 + length payload
unfolding put_uint32
length-header n payload = omega arith

decode_frame-made :
    (codec : JsonCodec) (f : Frame) (payload rest : List ℕ)
    → length payload ≤ max_frame_size
    → codec.unmarshal payload ≡ ok f
    → decode_frame codec (put_uint32 (length payload) ++ (payload ++ rest))
      ≡ ok (f, 4 + length payload)
unfolding decode_frame decode_payload
decode_frame-made codec f payload rest fits h =
    let n = length payload in
    let header : uint32 (put_uint32 n ++ (payload ++ rest)) ≡ n =
      uint32-put_uint32 n (payload ++ rest) (omega (arith, fits)) in
    let framed = length-framed n payload rest in
    let has_header : ltb (length (put_uint32 n ++ (payload ++ rest))) 4 ≡ false =
      ground (arith, framed) in
    let whole : ltb (length (put_uint32 n ++ (payload ++ rest))) (4 + n) ≡ false =
      ground (arith, framed) in
    let small : ltb max_frame_size n ≡ false = ground (arith, fits) in
    rw (has_header, header, small, whole, cut_payload n payload rest, h) refl

read_full-append :
    (front back : List ℕ) → read_full (length front) (front ++ back) ≡ (some front, back)
read_full-append [] back = refl
read_full-append (b ∷ front) back = rw (read_full-append front back) refl

read_header :
    (n : ℕ) (rest : List ℕ) → read_full 4 (put_uint32 n ++ rest) ≡ (some (put_uint32 n), rest)
unfolding put_uint32
read_header n rest = refl

recv_frame-made :
    (codec : JsonCodec) (f : Frame) (payload rest : List ℕ)
    → length payload ≤ max_frame_size
    → codec.unmarshal payload ≡ ok f
    → recv_frame codec (put_uint32 (length payload) ++ (payload ++ rest)) ≡ (ok f, rest)
unfolding recv_frame recv_header recv_payload
recv_frame-made codec f payload rest fits h =
    let n = length payload in
    let header : uint32 (put_uint32 n) ≡ n =
      rw (sym (append-nil (put_uint32 n))) (uint32-put_uint32 n [] (omega (arith, fits))) in
    let small : ltb max_frame_size n ≡ false = ground (arith, fits) in
    let whole : decode_frame codec (put_uint32 n ++ payload) ≡ ok (f, 4 + n) =
      rw (append-nil payload) at (decode_frame-made codec f payload [] fits h) in
    rw (read_header n (payload ++ rest), header, small, read_full-append payload rest, whole) refl

-- An encoded frame is a header and the JSON, which the decoder reads back.
pub encode_frame-ok :
    (codec : JsonCodec) (f : Frame) (buf : List ℕ)
    → Faithful codec f
    → encode_frame codec f ≡ ok buf
    → (payload : List ℕ) × (length payload ≤ max_frame_size)
      × (codec.unmarshal payload ≡ ok f)
      × (buf ≡ put_uint32 (length payload) ++ payload)
unfolding encode_frame Faithful
encode_frame-ok codec f buf faithful h = elim (Result-cases (codec.marshal f)) [
  | inl (payload, made) ↦
      let parts = frame_bytes-ok payload buf (rw made at h) in
      (payload, parts.0, faithful payload made, parts.1)
  | inr (e, failed) ↦ ground (arith, failed, h)
]

-- Decoding an encoded frame, with anything after it, gives the frame and the number of its bytes.
pub decode_frame-encode_frame :
    (codec : JsonCodec) (f : Frame) (buf rest : List ℕ)
    → Faithful codec f
    → encode_frame codec f ≡ ok buf
    → decode_frame codec (buf ++ rest) ≡ ok (f, length buf)
decode_frame-encode_frame codec f buf rest faithful h =
    let (payload, fits, read, is) = encode_frame-ok codec f buf faithful h in
    subst (λ b. decode_frame codec (b ++ rest) ≡ ok (f, length b)) (sym is)
      (rw
        (
          append_assoc (put_uint32 (length payload)) payload rest,
          decode_frame-made codec f payload rest fits read,
        )
        (ap (λ n. ok (f, n)) (sym (length-header (length payload) payload))))

-- The reader of a connection takes an encoded frame off the front and leaves what follows.
pub recv_frame-encode_frame :
    (codec : JsonCodec) (f : Frame) (buf rest : List ℕ)
    → Faithful codec f
    → encode_frame codec f ≡ ok buf
    → recv_frame codec (buf ++ rest) ≡ (ok f, rest)
recv_frame-encode_frame codec f buf rest faithful h =
    let (payload, fits, read, is) = encode_frame-ok codec f buf faithful h in
    subst (λ b. recv_frame codec (b ++ rest) ≡ (ok f, rest)) (sym is)
      (rw (append_assoc (put_uint32 (length payload)) payload rest)
        (recv_frame-made codec f payload rest fits read))

abbrev pub append_frame :
    Result WireError (List ℕ) → Result WireError (List ℕ) → Result WireError (List ℕ)
append_frame first rest = first >>= λ buf. rest >>= λ wire. ok (buf ++ wire)

-- The bytes of frames that are sent one after another.
unfoldable pub encode_frames : JsonCodec → List Frame → Result WireError (List ℕ)
encode_frames codec [] = ok []
encode_frames codec (f ∷ frames) = append_frame (encode_frame codec f) (encode_frames codec frames)

pub append_frame-ok :
    (first rest : Result WireError (List ℕ)) (wire : List ℕ)
    → append_frame first rest ≡ ok wire
    → (buf more : List ℕ) × (first ≡ ok buf) × (rest ≡ ok more) × (buf ++ more ≡ wire)
append_frame-ok (ok buf) (ok more) wire h =
    (buf, more, refl, refl, ok-injective {E = WireError} _ wire h)
append_frame-ok (ok buf) (err e) wire h = ground (arith, h)
append_frame-ok (err e) rest wire h = ground (arith, h)

abbrev pub keep_frame :
    (List ℕ → List Frame × List ℕ) → Result WireError Frame × List ℕ → List Frame × List ℕ
keep_frame next (err e, left) = ([], left)
keep_frame next (ok f, left) = (f ∷ (next left).0, (next left).1)

-- The first `n` frames that the reader gets, and the bytes then left; it stops at an error.
unfoldable pub recv_frames : JsonCodec → ℕ → List ℕ → List Frame × List ℕ
recv_frames codec zero wire = ([], wire)
recv_frames codec (suc n) wire = keep_frame (recv_frames codec n) (recv_frame codec wire)

-- Frames sent one after another are read back as the same frames in the same order, whatever follows them.
pub recv_frames-encode_frames :
    (codec : JsonCodec) (frames : List Frame) (wire rest : List ℕ)
    → All (Faithful codec) frames
    → encode_frames codec frames ≡ ok wire
    → recv_frames codec (length frames) (wire ++ rest) ≡ (frames, rest)
unfolding encode_frames recv_frames
recv_frames-encode_frames codec [] wire rest faithful h =
    rw (sym (ok-injective {E = WireError} [] wire h)) refl
recv_frames-encode_frames codec (f ∷ frames) wire rest (first, others) h =
    let (buf, more, one, next, is) =
      append_frame-ok (encode_frame codec f) (encode_frames codec frames) wire h in
    let read : recv_frame codec (wire ++ rest) ≡ (ok f, more ++ rest) =
      subst (λ w. recv_frame codec (w ++ rest) ≡ (ok f, more ++ rest)) is
        (rw (append_assoc buf more rest)
          (recv_frame-encode_frame codec f buf (more ++ rest) first one)) in
    rw (read, recv_frames-encode_frames codec frames more rest others next) refl
