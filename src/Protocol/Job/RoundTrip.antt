-- ===== src/Protocol/Job/RoundTrip.antt =====
-- `DecodeJob` behind `encodeRows`.
use rongta_f11_open.Base.{
  ℕ, ◌+◌, ◌*◌, ◌/◌, ◌≤◌, ◌<◌, ◌≡◌, refl, sym, ap, ◌∙◌, ◌⊎◌, false, not, ◌&&◌, ◌||◌, List, [], ◌∷◌,
  ◌++◌, ltb, leb, ◌==◌, arith, length, length-append, All, Bytes, AllBytes, byte, uint16,
  put_uint32, ok, ==_refl,
}
use rongta_f11_open.Base.Reads.{reads}
use rongta_f11_open.Protocol.Frame.{Frame, frame_body, frame_bytes, decode_frames}
use rongta_f11_open.Protocol.Checksum.{checksum}
use rongta_f11_open.Protocol.Frame.Laws.{length-frame_body}
use rongta_f11_open.Protocol.Frame.Stream.{frames_bytes, decode_frames-frames_bytes}
use rongta_f11_open.Protocol.Huffman.{Huffman, counts, encode, serialized_traversals}
use rongta_f11_open.Protocol.Huffman.Decode.{decode}
use rongta_f11_open.Protocol.Huffman.Packed.{encode-IsPacked}
use rongta_f11_open.Protocol.Huffman.Build.{IsBuilt, build_huffman-IsBuilt, HasCode-row}
use rongta_f11_open.Protocol.Rebuild.{tree_from}
use rongta_f11_open.Protocol.Rebuild.RoundTrip.{tree_from-IsCopy, copy_decodes}
use rongta_f11_open.Protocol.Job.{
  Settings, start_payload, concat_rows, encode_rows, require, decode_job_frames, decode_job,
}
use rongta_f11_open.Protocol.Job.Encode.{
  row_frame, row_frames, length-row_payload, frames_bytes-append, IsRow, IsSmall,
}
use rongta_f11_open.Protocol.Job.Frames.{
  IsSettings, header_frames, end_frame, copies_frame, job_frames, job_frames-AllFrames,
  traversals_fit, length-start_payload, length-sentinel_payload, encode_rows-frames,
}
use rongta_f11_open.Protocol.Job.Decode.{decode_job_rows-frames}

-- A row of bytes, of the width of the job.
pub record IsBytesRow (row_bytes : ℕ) (row : Bytes) : Type 0 where
  pub bytes : AllBytes row
  pub width : length row ≡ row_bytes

row_counted :
    (all row : Bytes) → ((b : ℕ) → counts row b ≤ counts all b) → All (λ b. 0 < counts all b) row
unfolding counts
row_counted all [] h = tt
row_counted all (b ∷ row) h =
    (ground (arith, h b, ==_refl b), row_counted all row (λ x. omega (arith, h x)))

counts-append : (xs ys : Bytes) (b : ℕ) → counts (xs ++ ys) b ≡ counts xs b + counts ys b
unfolding counts
counts-append [] ys b = omega arith
counts-append (x ∷ xs) ys b = omega (arith, counts-append xs ys b)

-- The coder of a job has a code for every byte of its rows.
rows-IsRow :
    {all : Bytes} {h : Huffman} (row_bytes : ℕ) (rows : List Bytes)
    → IsBuilt all h
    → ((b : ℕ) → counts (concat_rows rows) b ≤ counts all b)
    → All (IsBytesRow row_bytes) rows
    → All (IsRow h row_bytes) rows
unfolding concat_rows
rows-IsRow row_bytes [] k h rs = tt
rows-IsRow {all} row_bytes (row ∷ rows) k h (r, rs) = (
  record {
    width = r.width;
    codes =
        HasCode-row k row r.bytes
          (row_counted all row (λ b. omega (arith, h b, counts-append row (concat_rows rows) b)));
  },
  rows-IsRow row_bytes rows k (λ b. omega (arith, h b, counts-append row (concat_rows rows) b)) rs,
)

length-frame_bytes : (f : Frame) → length (frame_bytes f) ≡ length f.payload + 15
unfolding frame_bytes
length-frame_bytes f = omega (
  arith,
  length-frame_body f,
  length-append (frame_body f) (put_uint32 (checksum (frame_body f))),
)

length-row_frames_bytes :
    {h : Huffman} (row_bytes index : ℕ) (rows : List Bytes)
    → IsSmall h
    → row_bytes ≤ 208
    → All (IsRow h row_bytes) rows
    → length (frames_bytes (row_frames index rows h)) ≤ 13400 * length rows
unfolding frames_bytes row_frames
length-row_frames_bytes row_bytes index [] k wide rs = omega arith
length-row_frames_bytes {h} row_bytes index (row ∷ rows) k wide (r, rs) =
    let p = encode-IsPacked k.coder k.small row r.codes in
    let f : Frame = row_frame index row h in
    omega (
      arith,
      length-append (frame_bytes f) (frames_bytes (row_frames (index + 1) rows h)),
      length-frame_bytes f,
      length-row_payload index row (encode h row),
      p.size,
      r.width,
      length-row_frames_bytes row_bytes (index + 1) rows k wide rs,
    )

abbrev total_size : List Frame → ℕ
total_size [] = 0
total_size (f ∷ fs) = length f.payload + 15 + total_size fs

length-frames_bytes : (fs : List Frame) → length (frames_bytes fs) ≡ total_size fs
unfolding frames_bytes
length-frames_bytes [] = refl
length-frames_bytes (f ∷ fs) = omega (
  arith,
  length-append (frame_bytes f) (frames_bytes fs),
  length-frame_bytes f,
  length-frames_bytes fs,
)

-- A job of at most 5000 rows stays under the limit of the stream.
job_size :
    {h : Huffman} (rows : List Bytes) (width row_bytes : ℕ) (s : Settings)
    → IsSmall h
    → row_bytes ≤ 208
    → All (IsRow h row_bytes) rows
    → length rows ≤ 5000
    → (0 < length (frames_bytes (job_frames rows width (length rows) s h)))
      × (length (frames_bytes (job_frames rows width (length rows) s h)) ≤ 67108864)
unfolding job_frames
job_size {h} rows width row_bytes s k wide rs few =
    let header : List Frame = header_frames width (length rows) s h in
    let tail : List Frame = end_frame ∷ copies_frame s ∷ [] in
    let all = ap length (frames_bytes-append header (row_frames 1 rows h ++ tail)) in
    let behind = ap length (frames_bytes-append (row_frames 1 rows h) tail) in
    omega (
      arith,
      all,
      behind,
      length-append (frames_bytes header) (frames_bytes (row_frames 1 rows h ++ tail)),
      length-append (frames_bytes (row_frames 1 rows h)) (frames_bytes tail),
      length-frames_bytes header,
      length-frames_bytes tail,
      length-start_payload width (length rows),
      length-sentinel_payload (width / 8),
      traversals_fit k,
      length-row_frames_bytes row_bytes 1 rows k wide rs,
    )

-- The decoder on the frames of a job.
decode_job_frames-job_frames :
    {h : Huffman} (h' : Huffman) (rows : List Bytes) (width : ℕ) (s : Settings)
    → IsSettings s
    → IsSmall h
    → (width ≡ 1592) ⊎ (width ≡ 1664)
    → All (IsRow h (width / 8)) rows
    → ((row : Bytes)
        → IsRow h (width / 8) row
        → decode h' (encode h row).0 (encode h row).1 (width / 8) ≡ ok row)
    → tree_from (serialized_traversals h) ≡ ok h'
    → 1 ≤ length rows
    → length rows ≤ 65535
    → decode_job_frames (job_frames rows width (length rows) s h)
      ≡ ok
          (record { width_bytes = width / 8; height = length rows; copies = s.copies; rows = rows })
unfolding decode_job_frames job_frames start_payload reads
decode_job_frames-job_frames {h} h' rows width s valid k wide rs decodes copy pos small =
    let n : ℕ = length rows in
    let fs : List Frame = job_frames rows width n s h in
    let long : ltb (length fs) 8 ≡ false =
      ground (arith, length-append (row_frames 1 rows h) (end_frame ∷ copies_frame s ∷ [])) in
    let tail =
      decode_job_rows-frames h' rows width (width / 8) s valid k (omega arith) refl rs decodes
        small in
    let tracking : ltb 255 (byte s.tracking) ≡ false = ground arith in
    let speed : (byte s.speed == 0) ≡ false = ground (arith, valid.speed_pos, valid.speed_byte) in
    let low : ltb (byte s.density) 1 ≡ false =
      ground (arith, valid.density_pos, valid.density_max) in
    let high : ltb 15 (byte s.density) ≡ false =
      ground (arith, valid.density_pos, valid.density_max) in
    let w : byte (uint16 width) + 256 * byte (uint16 width / 256) ≡ width = omega arith in
    let lines : byte (uint16 n) + 256 * byte (uint16 n / 256) ≡ n = omega arith in
    let known : (not (width == 1592) && not (width == 1664)) ≡ false = ground arith in
    let some_lines : leb n 0 ≡ false = ground arith in
    rw (long, require, tracking, speed, low, high, w, lines, known, some_lines, copy) tail

-- For settings in range, a print width of 1592 or 1664 and 1 to 5000 rows of bytes that are as long as
-- the width asks, `encodeRows` returns a stream, and `DecodeJob` returns from it a job of these rows,
-- with their number, their width in bytes and the number of copies of the settings.
pub encode_rows-round_trip :
    (rows : List Bytes) (width : ℕ) (s : Settings)
    → IsSettings s
    → (width ≡ 1592) ⊎ (width ≡ 1664)
    → All (IsBytesRow (width / 8)) rows
    → 1 ≤ length rows
    → length rows ≤ 5000
    → (stream : Bytes) × (encode_rows rows width (length rows) s ≡ ok stream)
      × (decode_job stream
          ≡ ok (record {
            width_bytes = width / 8;
            height = length rows;
            copies = s.copies;
            rows = rows;
          }))
unfolding decode_job
encode_rows-round_trip rows width s valid wide rs pos few =
    let (h, built, b) = build_huffman-IsBuilt (concat_rows rows) in
    let (h', copy, c) = tree_from-IsCopy b in
    let k : IsSmall h = record {
      coder = b.coder;
      small = omega (arith, b.nodes_small, b.count_right);
    } in
    let coded : All (IsRow h (width / 8)) rows =
      rows-IsRow (width / 8) rows b (λ x. omega arith) rs in
    let narrow : (width / 8 ≡ 199) ⊎ (width / 8 ≡ 208) = ground arith in
    let fs : List Frame = job_frames rows width (length rows) s h in
    let (some_bytes, limit) = job_size rows width (width / 8) s k (omega arith) coded few in
    let passes : (length (frames_bytes fs) == 0 || ltb 67108864 (length (frames_bytes fs)))
        ≡ false =
      ground arith in
    let frames : decode_frames (frames_bytes fs) ≡ ok fs =
      decode_frames-frames_bytes fs
        (job_frames-AllFrames rows width (length rows) (width / 8) s k (omega arith) coded) in
    let decoded =
      decode_job_frames-job_frames h' rows width s valid k wide coded
        (λ row r.
          ap (λ n. decode h' (encode h row).0 (encode h row).1 n) (sym r.width)
          ∙ copy_decodes c row r.codes)
        copy pos (omega arith) in
    (
      frames_bytes fs,
      encode_rows-frames rows width (length rows) (width / 8) s built valid k narrow coded
          (omega arith),
      rw (passes, frames) decoded,
    )
