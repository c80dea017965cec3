-- ===== src/Protocol/Frame/Laws.antt =====
-- Laws of `EncodeFrame` and `decodeFrames` on one frame.
use rongta_f11_open.Base.{
  ℕ, ◌+◌, ◌-◌, ◌*◌, ◌/◌, ◌^◌, ◌≤◌, ◌<◌, ◌≡◌, ◌≢◌, refl, ap, ◌∙◌, not, ◌∷◌, ◌++◌, append_assoc,
  arith, ◌==◌, ==_refl, length, length-append, get_or, drop, take-append_eq, drop-append_eq, Bytes,
  IsByte, AllBytes, byte, uint16, put_uint16, put_uint32, get_uint16, ok, err, new, ◌>>◌, fail_if,
}
use rongta_f11_open.Protocol.Checksum.{checksum}
use rongta_f11_open.Protocol.Checksum.Laws.{checksum-lt}
use rongta_f11_open.Protocol.Frame.{Frame, frame_body, frame_bytes, decode_frame}
use rongta_f11_open.Protocol.Frame.Reads.{read_frame, decode_frame-read_frame}

-- The fields are bytes, and the payload is one that `EncodeFrame` takes.
pub record IsFrame (f : Frame) : Type 0 where
  pub class_byte : IsByte f.app_class
  pub command_byte : IsByte f.command
  pub subcommand_byte : IsByte f.subcommand
  pub payload_bytes : AllBytes f.payload
  pub payload_fits : length f.payload ≤ 65530

pub word16 : (n : ℕ) → n < 65536 → byte (uint16 n) + 256 * byte (uint16 n / 256) ≡ n
word16 n h = omega arith

pub word32 :
    (n : ℕ)
    → n < 2 ^ 32
    → byte n + 256 * byte (n / 256) + 65536 * byte (n / 65536) + 16777216 * byte (n / 16777216) ≡ n
word32 n h = omega arith

-- The frame whose body is given.
unfoldable pub of_body : Bytes → Frame
of_body body = record {
  app_class = get_or body 0 0;
  command = get_or body 1 0;
  subcommand = get_or body 2 0;
  payload = drop 5 body;
}

-- A body with its sync bytes and length in front, and a checksum `crc` behind.
abbrev pub sealed : Bytes → ℕ → Bytes → Bytes
sealed body crc rest =
    0xa3
    ∷ 0x1e
    ∷ 0x1c
    ∷ 0
    ∷ (put_uint16 (uint16 (length body)) ++ (body ++ (put_uint32 crc ++ rest)))

module _ (body rest : Bytes) (crc : ℕ) (lo : 5 ≤ length body) (hi : length body < 65536)
    (word : crc < 2 ^ 32) where
  -- The checks that `decodeFrames` makes on a sealed body, once its parts are computed.
  read_frame-sealed : read_frame (sealed body crc rest) ≡ (
      fail_if (not (checksum body == crc)) "CRC"
      >> (fail_if (not (get_uint16 body 3 == length body - 5)) "length" >> ok (of_body body, rest)))
  unfolding read_frame of_body
  read_frame-sealed =
      rw
        (
          length-append body (put_uint32 crc ++ rest),
          word16 (length body) hi,
          take-append_eq body (put_uint32 crc ++ rest) (length body) refl,
          drop-append_eq body (put_uint32 crc ++ rest) (length body) refl,
          word32 crc word,
        )
        (ground arith)

  decode_frame-sealed : decode_frame (sealed body crc rest) ≡ (
      fail_if (not (checksum body == crc)) "CRC"
      >> (fail_if (not (get_uint16 body 3 == length body - 5)) "length" >> ok (of_body body, rest)))
  decode_frame-sealed = decode_frame-read_frame (sealed body crc rest) ∙ read_frame-sealed

  -- A body under a checksum that is not its own is refused.
  pub decode_frame-bad_crc :
      checksum body ≢ crc → decode_frame (sealed body crc rest) ≡ err (new "CRC")
  decode_frame-bad_crc ne = rw decode_frame-sealed (ground arith)

decode_frame-wire :
    (body rest : Bytes)
    → AllBytes body
    → 5 ≤ length body
    → length body < 65536
    → get_uint16 body 3 ≡ length body - 5
    → decode_frame (sealed body (checksum body) rest) ≡ ok (of_body body, rest)
decode_frame-wire body rest hb lo hi hp = rw (
  decode_frame-sealed body rest (checksum body) lo hi (checksum-lt body hb),
  ==_refl (checksum body),
  hp,
  ==_refl (length body - 5),
)

pub length-frame_body : (f : Frame) → length (frame_body f) ≡ length f.payload + 5
unfolding frame_body
length-frame_body f = omega arith

pub frame_body-bytes : (f : Frame) → IsFrame f → AllBytes (frame_body f)
unfolding frame_body
frame_body-bytes f h = (
  h.class_byte,
  (h.command_byte, (h.subcommand_byte, (omega arith, (omega arith, h.payload_bytes)))),
)

frame_body-length_field :
    (f : Frame) → length f.payload ≤ 65530 → get_uint16 (frame_body f) 3 ≡ length (frame_body f) - 5
unfolding frame_body
frame_body-length_field f h = omega arith

of_body-frame_body : (f : Frame) → of_body (frame_body f) ≡ f
unfolding of_body frame_body
of_body-frame_body f = refl

frame_bytes-sealed :
    (f : Frame) (rest : Bytes)
    → frame_bytes f ++ rest ≡ sealed (frame_body f) (checksum (frame_body f)) rest
unfolding frame_bytes
frame_bytes-sealed f rest =
    rw (append_assoc (frame_body f) (put_uint32 (checksum (frame_body f))) rest)

-- The loop of `decodeFrames` reads the bytes of a frame back as that frame, and stops behind it.
pub decode_frame-frame_bytes :
    (f : Frame) (rest : Bytes) → IsFrame f → decode_frame (frame_bytes f ++ rest) ≡ ok (f, rest)
decode_frame-frame_bytes f rest h = rw (frame_bytes-sealed f rest) (
    decode_frame-wire (frame_body f) rest (frame_body-bytes f h)
      (omega (arith, length-frame_body f)) (omega (arith, length-frame_body f, h.payload_fits))
      (frame_body-length_field f h.payload_fits)
    ∙ ap (λ g. ok (g, rest)) (of_body-frame_body f))
