-- ===== src/Protocol/Job.antt =====
-- `Settings`, `DecodedJob`, `EncodeRowFrame`, `encodeRows`, `EncodeJob`, `EncodeNativeJob`, `DecodeRow`
-- and `DecodeJob` of Appliance/internal/protocol/protocol.go.
pub mod Returns
pub mod Encode
pub mod Frames
pub mod Decode
pub mod RoundTrip
pub mod Pages
use rongta_f11_open.Base.{
  ℕ, zero, suc, ◌+◌, ◌-◌, ◌/◌, String, Bool, true, false, not, ◌&&◌, ◌||◌, List, [], ◌∷◌, ◌++◌,
  Option, none, some, ltb, leb, ◌==◌, if◌then◌else◌, length, get_or, take, drop, Bytes, byte,
  uint16, put_uint16, get_uint16, bytes_equal, Result, ok, err, panic, stuck, new, errorf, wrapped,
  wrapped_nil, ◌>>=◌, ◌>>◌, fail_if,
}
use rongta_f11_open.Base.Reads.{reads}
use rongta_f11_open.Protocol.Frame.{Frame, encode_frame, decode_frames}
use rongta_f11_open.Protocol.Huffman.{Huffman, build_huffman, serialized_traversals, encode}
use rongta_f11_open.Protocol.Huffman.Decode.{decode}
use rongta_f11_open.Protocol.Raster.{monochrome, native_monochrome}
use rongta_f11_open.Protocol.Rebuild.{tree_from}

pub record Settings : Type 0 where
  pub speed : ℕ
  pub density : ℕ
  pub tracking : ℕ
  pub copies : ℕ

pub record DecodedJob : Type 0 where
  pub width_bytes : ℕ
  pub height : ℕ
  pub copies : ℕ
  pub rows : List Bytes

abbrev pub command_frame : ℕ → ℕ → Bytes → ℕ → Frame
command_frame c s p app = record { app_class = app; command = c; subcommand = s; payload = p }

-- `frame`.
unfoldable pub frame : ℕ → ℕ → Bytes → ℕ → Result Bytes
frame c s p app = encode_frame (command_frame c s p app)

-- The payload of a row: index, size, kind, row length, five zeros, padding, bits.
unfoldable pub row_payload : ℕ → Bytes → Bytes × ℕ → Bytes
row_payload index row (packed, pad) =
    put_uint16 (uint16 index)
    ++ (put_uint16 (uint16 (8 + length packed))
        ++ (0x11 ∷ byte (length row) ∷ 0 ∷ 0 ∷ 0 ∷ 0 ∷ 0 ∷ pad ∷ packed))

unfoldable pub encode_row_frame : ℕ → Bytes → Huffman → Result Bytes
unfolding row_payload frame
encode_row_frame index row tree = do
  fail_if ((not (length row == 199) && not (length row == 208)) || ltb 65535 index) "row"
  frame 5 0x0d (row_payload index row (encode tree row)) 0x10

-- `add` whose error is ignored: an error leaves `out` as it is.
unfoldable pub add_ignored : ℕ → ℕ → Bytes → ℕ → Bytes → Bytes
add_ignored c sub p app out = elim (frame c sub p app) [
  | ok x ↦ out ++ x
  | err e ↦ out
  | panic ↦ out
  | stuck ↦ out
]

-- `for i, r := range rows`, where `index` is `i+1`.
unfoldable pub add_rows : ℕ → List Bytes → Huffman → Bytes → Result Bytes
unfolding encode_row_frame
add_rows index [] tree out = ok out
add_rows index (r ∷ rs) tree out = do
  x ← encode_row_frame index r tree
  add_rows (index + 1) rs tree (out ++ x)

unfoldable pub concat_rows : List Bytes → Bytes
concat_rows [] = []
concat_rows (r ∷ rs) = r ++ concat_rows rs

unfoldable pub bad_settings : Settings → Bool
bad_settings s =
    ltb s.speed 1
    || (ltb 255 s.speed
        || (ltb s.density 1
            || (ltb 15 s.density || (ltb 255 s.tracking || (ltb s.copies 1 || ltb 255 s.copies)))))

unfoldable pub start_payload : ℕ → ℕ → Bytes
start_payload width height =
    put_uint16 (uint16 width) ++ (put_uint16 (uint16 height) ++ (0 ∷ 0 ∷ 1 ∷ []))

unfoldable pub sentinel_payload : ℕ → Bytes
sentinel_payload row_bytes = 0 ∷ 0 ∷ 8 ∷ 0 ∷ 0x11 ∷ byte row_bytes ∷ 0 ∷ 0 ∷ 0 ∷ 0 ∷ 0 ∷ 1 ∷ []

unfoldable pub encode_rows : List Bytes → ℕ → ℕ → Settings → Result Bytes
unfolding bad_settings start_payload sentinel_payload add_ignored add_rows concat_rows
encode_rows rows output_width height s = do
  fail_if (bad_settings s) "print settings"
  let row_bytes = output_width / 8
  tree ← build_huffman (concat_rows rows)
  out0 ← frame 5 0x11 (byte s.tracking ∷ []) 0x11
  let out1 = add_ignored 5 7 (byte s.speed ∷ []) 0x11 out0
  let out2 = add_ignored 5 4 (3 ∷ byte s.density ∷ 8 ∷ []) 0x11 out1
  let out3 = add_ignored 5 0x0b (start_payload output_width height) 0x11 out2
  let out4 = add_ignored 5 0x0e (serialized_traversals tree) 0x11 out3
  let out5 = add_ignored 5 0x0d (sentinel_payload row_bytes) 0x10 out4
  out6 ← add_rows 1 rows tree out5
  let out7 = add_ignored 5 0x0c [] 0x11 out6
  ok (add_ignored 5 8 (byte s.copies ∷ 0x13 ∷ 0 ∷ []) 0x11 out7)

unfoldable pub encode_job : Bytes → ℕ → ℕ → Settings → Result Bytes
unfolding encode_rows
encode_job gray width height s = do
  rows ← monochrome gray width height
  encode_rows rows 1592 height s

unfoldable pub encode_native_job : Bytes → ℕ → ℕ → Settings → Result Bytes
unfolding encode_rows
encode_native_job gray width height s = do
  rows ← native_monochrome gray width height
  encode_rows rows 1664 height s

-- `DecodeRow`; its %w of a nil error is the first case.
unfoldable pub decode_row_frames : List Frame → Huffman → Result Bytes
decode_row_frames [] tree = err (wrapped_nil "frame: ")
decode_row_frames (f ∷ fs) tree = do
  fail_if (ltb (length f.payload) 12) "row header"
  reads 12 f.payload
  decode tree (drop 12 f.payload) (get_or f.payload 11 0) (get_or f.payload 5 0)

unfoldable pub decode_row : Bytes → Huffman → Result Bytes
unfolding decode_row_frames
decode_row packet tree = elim (decode_frames packet) [
  | ok fs ↦ decode_row_frames fs tree
  | err e ↦ err (wrapped "frame: " e)
  | panic ↦ panic
  | stuck ↦ stuck
]

-- `fs[i]`: out of range it panics.
unfoldable pub frame_at : List Frame → ℕ → Result Frame
frame_at [] i = panic
frame_at (f ∷ fs) zero = ok f
frame_at (f ∷ fs) (suc i) = frame_at fs i

-- `expect`; a size of `none` is the source's -1.
unfoldable pub size_differs : Option ℕ → Bytes → Bool
size_differs (some n) p = not (length p == n)
size_differs none p = false

unfoldable pub expect : List Frame → ℕ → ℕ → ℕ → ℕ → Option ℕ → Result Bytes
unfolding frame_at size_differs
expect fs i app command sub size = do
  f ← frame_at fs i
  let differs =
      not (f.app_class == app)
      || (not (f.command == command) || (not (f.subcommand == sub) || size_differs size f.payload))
  if differs then err (errorf "unexpected frame " i) else ok f.payload

-- `if p, e := expect(...); e != nil || bad(p) { return errors.New(message) }`, where `bad` reads the
-- first `n` bytes of `p`.
unfoldable pub require : Result Bytes → ℕ → (Bytes → Bool) → String → Result Bytes
require (ok p) n bad message = do reads n p; if bad p then err (new message) else ok p
require (err e) n bad message = err (new message)
require panic n bad message = panic
require stuck n bad message = stuck

unfoldable pub bad_row_fields : ℕ → ℕ → Bytes → Bool
bad_row_fields index row_bytes p =
    not (get_uint16 p 0 == index)
    || (not (get_uint16 p 2 == length p - 4)
        || (not (get_or p 4 0 == 0x11)
            || (not (get_or p 5 0 == row_bytes)
                || (not (bytes_equal (take 5 (drop 6 p)) (0 ∷ 0 ∷ 0 ∷ 0 ∷ 0 ∷ []))
                    || ltb 7 (get_or p 11 0)))))

-- The length first, then the bytes behind it.
unfoldable pub bad_row_header : ℕ → ℕ → Bytes → Result Bool
unfolding bad_row_fields
bad_row_header index row_bytes p =
    if ltb (length p) 12 then ok true else (do reads 12 p; ok (bad_row_fields index row_bytes p))

-- The loop over the rows, with the rounds left.
unfoldable pub decode_rows : ℕ → ℕ → List Frame → ℕ → Huffman → Result (List Bytes)
unfolding expect require bad_row_header
decode_rows zero i fs row_bytes tree = ok []
decode_rows (suc n) i fs row_bytes tree = do
  p ← expect fs (6 + i) 0x10 5 0x0d none
  bad ← bad_row_header (i + 1) row_bytes p
  fail_if bad "row header"
  reads 12 p
  r ←
      require (decode tree (drop 12 p) (get_or p 11 0) row_bytes) 0
        (λ r. not (length r == row_bytes)) "row data"
  rs ← decode_rows n (i + 1) fs row_bytes tree
  ok (r ∷ rs)

-- The frames behind the geometry, for `h` rows of `row_bytes` bytes.
unfoldable pub decode_job_rows : List Frame → ℕ → ℕ → Huffman → Result DecodedJob
unfolding decode_rows sentinel_payload
decode_job_rows fs h row_bytes tree = do
  fail_if (not (length fs == h + 8)) "frame count"
  sentinel ← expect fs 5 0x10 5 0x0d (some 12)
  fail_if (not (bytes_equal sentinel (sentinel_payload row_bytes))) "sentinel"
  rows ← decode_rows h 0 fs row_bytes tree
  expect fs (6 + h) 0x11 5 0x0c (some 0)
  copies ←
      require (expect fs (7 + h) 0x11 5 0x08 (some 3)) 3
        (λ p. get_or p 0 0 == 0 || (not (get_or p 1 0 == 0x13) || not (get_or p 2 0 == 0)))
        "copies frame"
  reads 1 copies
  let job : DecodedJob = record {
    width_bytes = row_bytes;
    height = h;
    copies = get_or copies 0 0;
    rows = rows;
  }
  ok job

unfoldable pub decode_job_frames : List Frame → Result DecodedJob
unfolding decode_job_rows
decode_job_frames fs = do
  fail_if (ltb (length fs) 8) "frame count"
  require (expect fs 0 0x11 5 0x11 (some 1)) 1 (λ p. ltb 255 (get_or p 0 0)) "tracking frame"
  require (expect fs 1 0x11 5 0x07 (some 1)) 1 (λ p. get_or p 0 0 == 0) "speed frame"
  require (expect fs 2 0x11 5 0x04 (some 3)) 3
      (λ p.
        not (get_or p 0 0 == 3)
        || (ltb (get_or p 1 0) 1 || (ltb 15 (get_or p 1 0) || not (get_or p 2 0 == 8))))
      "density frame"
  start ← expect fs 3 0x11 5 0x0b (some 7)
  reads 7 start
  let w = get_uint16 start 0
  let h = get_uint16 start 2
  fail_if
      ((not (w == 1592) && not (w == 1664))
        || (leb h 0
            || (not (get_or start 4 0 == 0)
                || (not (get_or start 5 0 == 0) || not (get_or start 6 0 == 1)))))
      "geometry"
  let row_bytes = w / 8
  tree_payload ← expect fs 4 0x11 5 0x0e none
  tree ← tree_from tree_payload
  decode_job_rows fs h row_bytes tree

-- `64<<20` is the limit on the stream.
unfoldable pub decode_job : Bytes → Result DecodedJob
unfolding decode_job_frames
decode_job data' = do
  fail_if (length data' == 0 || ltb 67108864 (length data')) "stream size"
  fs ← decode_frames data'
  decode_job_frames fs
