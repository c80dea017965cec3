-- ===== src/Protocol/Frame.antt =====
-- `Frame`, `EncodeFrame` and `decodeFrames` of Appliance/internal/protocol/protocol.go.
pub mod Laws
pub mod Reads
pub mod Inversion
pub mod Stream
use rongta_f11_open.Base.{
  ℕ, zero, suc, ◌+◌, ◌-◌, Bool, true, not, ◌&&◌, ◌||◌, List, [], ◌∷◌, ◌++◌, ltb, ◌==◌,
  if◌then◌else◌, length, get_or, take, drop, Bytes, uint16, put_uint16, put_uint32, get_uint16,
  get_uint32, Result, ok, err, new, stuck, ◌>>=◌, ◌>>◌, fail_if,
}
use rongta_f11_open.Base.Reads.{reads}
use rongta_f11_open.Protocol.Checksum.{checksum}

pub record Frame : Type 0 where
  pub app_class : ℕ
  pub command : ℕ
  pub subcommand : ℕ
  pub payload : Bytes

-- The body: class, command, subcommand, payload length, payload.
unfoldable pub frame_body : Frame → Bytes
frame_body f =
    f.app_class ∷ f.command ∷ f.subcommand ∷ (put_uint16 (uint16 (length f.payload)) ++ f.payload)

-- Sync bytes, body length, body, CRC.
unfoldable pub frame_bytes : Frame → Bytes
frame_bytes f =
    let body = frame_body f in
    0xa3
    ∷ 0x1e
    ∷ 0x1c
    ∷ 0
    ∷ (put_uint16 (uint16 (length body)) ++ (body ++ put_uint32 (checksum body)))

unfoldable pub encode_frame : Frame → Result Bytes
encode_frame f =
    if ltb 65530 (length f.payload) then err (new "payload too large") else ok (frame_bytes f)

abbrev pub is_synced : Bytes → Bool
is_synced rest =
    get_or rest 0 0 == 0xa3
    && (get_or rest 1 0 == 0x1e && (get_or rest 2 0 == 0x1c && get_or rest 3 0 == 0))

-- `i+15 > len(data) || data[i] != 0xa3 || ...`: the bytes are read where the first test fails.
unfoldable pub is_unsynced : Bytes → Result Bool
is_unsynced rest =
    let read : Result Bool = (do reads 4 rest; ok (not (is_synced rest))) in
    if ltb (length rest) 15 then ok true else read

-- The loop body of `decodeFrames`; `rest` is `data[i:]`. The result is the frame and `data[end:]`.
unfoldable pub decode_frame : Bytes → Result (Frame × Bytes)
unfolding is_unsynced
decode_frame rest = do
  unsynced ← is_unsynced rest
  fail_if unsynced "sync/type"
  reads 6 rest
  let n = get_uint16 rest 4
  fail_if (ltb n 5) "short body"
  fail_if (ltb (length rest) (6 + n + 4)) "truncated"
  reads (6 + n + 4) rest
  let body = take n (drop 6 rest)
  let crc = take 4 (drop n (drop 6 rest))
  fail_if (not (checksum body == get_uint32 crc)) "CRC"
  reads 5 body
  let plen = get_uint16 body 3
  fail_if (not (plen == length body - 5)) "length"
  let f : Frame = record {
    app_class = get_or body 0 0;
    command = get_or body 1 0;
    subcommand = get_or body 2 0;
    payload = drop 5 body;
  }
  ok (f, drop 4 (drop n (drop 6 rest)))

-- The loop. The source appends to `out`; here the frames that follow are put behind this one.
unfoldable pub decode_frames_loop : ℕ → Bytes → Result (List Frame)
decode_frames_loop fuel [] = ok []
decode_frames_loop zero (b ∷ bs) = stuck
decode_frames_loop (suc fuel) (b ∷ bs) = do
  (f, rest) ← decode_frame (b ∷ bs)
  fs ← decode_frames_loop fuel rest
  ok (f ∷ fs)

-- A frame takes fifteen bytes at least, so the input's length is enough fuel.
unfoldable pub decode_frames : Bytes → Result (List Frame)
unfolding decode_frames_loop
decode_frames data' = decode_frames_loop (length data') data'
