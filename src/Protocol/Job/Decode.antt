-- ===== src/Protocol/Job/Decode.antt =====
-- `DecodeJob` on the frames that the encoders write.
use rongta_f11_open.Base.{
  ℕ, zero, suc, ◌+◌, ◌*◌, ◌/◌, ◌≤◌, ◌<◌, ◌≡◌, refl, sym, ap, ◌∙◌, true, false, List, [], ◌∷◌, ◌++◌,
  Option, some, none, ◌==◌, append_assoc, arith, drop, length, length-append, get_or, All, Bytes,
  byte, bytes_equal, bytes_equal_refl, ltb, ok, ==_refl,
}
use rongta_f11_open.Base.Reads.{reads, reads-eq}
use rongta_f11_open.Protocol.Frame.{Frame}
use rongta_f11_open.Protocol.Huffman.{Huffman, encode}
use rongta_f11_open.Protocol.Huffman.Decode.{decode}
use rongta_f11_open.Protocol.Huffman.Packed.{encode-IsPacked}
use rongta_f11_open.Protocol.Job.{
  Settings, command_frame, row_payload, sentinel_payload, frame_at, size_differs, expect, require,
  bad_row_fields, bad_row_header, decode_rows, decode_job_rows,
}
use rongta_f11_open.Protocol.Job.Encode.{row_frame, row_frames, length-row_frames, IsRow, IsSmall}
use rongta_f11_open.Protocol.Job.Frames.{
  IsSettings, header_frames, end_frame, copies_frame, job_frames,
}

frame_at-behind :
    (front : List Frame) (f : Frame) (back : List Frame) (i : ℕ)
    → i ≡ length front
    → frame_at (front ++ (f ∷ back)) i ≡ ok f
unfolding frame_at
frame_at-behind [] f back zero h = refl
frame_at-behind [] f back (suc i) h = absurd (omega arith)
frame_at-behind (g ∷ front) f back zero h = absurd (omega arith)
frame_at-behind (g ∷ front) f back (suc i) h = frame_at-behind front f back i (omega arith)

-- A frame at its place, of its kind and of the size asked for.
expect-behind :
    (front : List Frame) (app c s : ℕ) (p : Bytes) (back : List Frame) (i : ℕ) (size : Option ℕ)
    → i ≡ length front
    → size_differs size p ≡ false
    → expect (front ++ (command_frame c s p app ∷ back)) i app c s size ≡ ok p
unfolding expect
expect-behind front app c s p back i size h fits =
    rw
      (
        frame_at-behind front (command_frame c s p app) back i h,
        ==_refl app,
        ==_refl c,
        ==_refl s,
        fits,
      )
      refl

row_header_passes :
    (index : ℕ) (row : Bytes) (row_bytes : ℕ) (packed : Bytes × ℕ)
    → index ≤ 65535
    → row_bytes ≤ 208
    → length row ≡ row_bytes
    → length packed.0 ≤ 64 * row_bytes + 1
    → packed.1 < 8
    → bad_row_header index row_bytes (row_payload index row packed) ≡ ok false
unfolding bad_row_header row_payload
row_header_passes index row row_bytes (packed, pad) hi hb len size small =
    let good : bad_row_fields index row_bytes (row_payload index row (packed, pad)) ≡ false =
      unfold bad_row_fields in ground arith in
    let long : ltb (length (row_payload index row (packed, pad))) 12 ≡ false = ground arith in
    let read : reads 12 (row_payload index row (packed, pad)) ≡ ok tt =
      reads-eq 12 (row_payload index row (packed, pad)) (omega arith) in
    rw (long, read, good) refl

-- The rows come back from their frames, wherever these stand.
decode_rows-frames :
    {h : Huffman} (h' : Huffman) (rows : List Bytes) (i row_bytes : ℕ) (front back : List Frame)
    → IsSmall h
    → row_bytes ≤ 208
    → All (IsRow h row_bytes) rows
    → ((row : Bytes)
        → IsRow h row_bytes row
        → decode h' (encode h row).0 (encode h row).1 row_bytes ≡ ok row)
    → 6 + i ≡ length front
    → i + length rows ≤ 65535
    → decode_rows (length rows) i (front ++ (row_frames (i + 1) rows h ++ back)) row_bytes h'
      ≡ ok rows
unfolding decode_rows row_frames
decode_rows-frames h' [] i row_bytes front back k wide rs decodes place small = refl
decode_rows-frames {h} h' (row ∷ rows) i row_bytes front back k wide (r, rs) decodes place small =
    let packed = encode h row in
    let p = encode-IsPacked k.coder k.small row r.codes in
    let payload : Bytes = row_payload (i + 1) row packed in
    let later : List Frame = row_frames (i + 1 + 1) rows h ++ back in
    let read : expect (front ++ (row_frame (i + 1) row h ∷ later)) (6 + i) 0x10 5 0x0d none
        ≡ ok payload =
      expect-behind front 0x10 5 0x0d payload later (6 + i) none place
        (unfold size_differs in refl) in
    let passes : bad_row_header (i + 1) row_bytes payload ≡ ok false =
      row_header_passes (i + 1) row row_bytes packed (omega arith) wide r.width
        (omega (arith, p.size, r.width)) p.pad_small in
    let decoded : decode h' (drop 12 payload) (get_or payload 11 0) row_bytes ≡ ok row =
      unfold row_payload in decodes row r in
    let fields : reads 12 payload ≡ ok tt =
      reads-eq 12 payload (unfold row_payload in omega arith) in
    let nothing : reads 0 row ≡ ok tt = reads-eq 0 row (omega arith) in
    let long : (length row == row_bytes) ≡ true = rw r.width (==_refl row_bytes) in
    let rest : decode_rows (length rows) (i + 1) (front ++ (row_frame (i + 1) row h ∷ later))
          row_bytes h'
        ≡ ok rows =
      ap (λ fs. decode_rows (length rows) (i + 1) fs row_bytes h')
        (sym (append_assoc front (row_frame (i + 1) row h ∷ []) later))
      ∙ decode_rows-frames h' rows (i + 1) row_bytes (front ++ (row_frame (i + 1) row h ∷ [])) back
          k wide rs decodes (omega (arith, length-append front (row_frame (i + 1) row h ∷ [])))
          (omega arith) in
    rw (read, passes, fields, decoded, require, nothing, long, rest) refl

-- The decoder on the frames behind the geometry.
pub decode_job_rows-frames :
    {h : Huffman} (h' : Huffman) (rows : List Bytes) (width row_bytes : ℕ) (s : Settings)
    → IsSettings s
    → IsSmall h
    → row_bytes ≤ 208
    → row_bytes ≡ width / 8
    → All (IsRow h row_bytes) rows
    → ((row : Bytes)
        → IsRow h row_bytes row
        → decode h' (encode h row).0 (encode h row).1 row_bytes ≡ ok row)
    → length rows ≤ 65535
    → decode_job_rows (job_frames rows width (length rows) s h) (length rows) row_bytes h'
      ≡ ok
          (record { width_bytes = row_bytes; height = length rows; copies = s.copies; rows = rows })
unfolding decode_job_rows job_frames reads
decode_job_rows-frames {h} h' rows width row_bytes s valid k wide same rs decodes small =
    let n : ℕ = length rows in
    let header : List Frame = header_frames width n s h in
    let tail : List Frame = end_frame ∷ copies_frame s ∷ [] in
    let fs : List Frame = job_frames rows width n s h in
    let counted : (length fs == n + 8) ≡ true =
      ground (arith, length-append (row_frames 1 rows h) tail, length-row_frames 1 rows h) in
    let body : List Frame = header ++ row_frames 1 rows h in
    let body_length : length body ≡ 6 + n =
      omega (arith, length-append header (row_frames 1 rows h), length-row_frames 1 rows h) in
    let by_body : fs ≡ body ++ tail = sym (append_assoc header (row_frames 1 rows h) tail) in
    let by_end : fs ≡ (body ++ (end_frame ∷ [])) ++ (copies_frame s ∷ []) =
      by_body ∙ sym (append_assoc body (end_frame ∷ []) (copies_frame s ∷ [])) in
    let wanted : bytes_equal (sentinel_payload (width / 8)) (sentinel_payload row_bytes) ≡ true =
      rw same (bytes_equal_refl (sentinel_payload (width / 8))) in
    let read : decode_rows n 0 fs row_bytes h' ≡ ok rows =
      decode_rows-frames h' rows 0 row_bytes header tail k wide rs decodes refl (omega arith) in
    let ended : expect fs (6 + n) 0x11 5 0x0c (some 0) ≡ ok [] = rw by_body (
      expect-behind body 0x11 5 0x0c [] (copies_frame s ∷ []) (6 + n) (some 0) (sym body_length)
        (unfold size_differs in refl)) in
    let copies : expect fs (7 + n) 0x11 5 0x08 (some 3) ≡ ok (byte s.copies ∷ 0x13 ∷ 0 ∷ []) =
      rw by_end (
        expect-behind (body ++ (end_frame ∷ [])) 0x11 5 0x08 (byte s.copies ∷ 0x13 ∷ 0 ∷ []) []
          (7 + n) (some 3) (omega (arith, length-append body (end_frame ∷ [])))
          (unfold size_differs in refl)) in
    let value : byte s.copies ≡ s.copies = omega (arith, valid.copies_byte) in
    let pos : (s.copies == 0) ≡ false = ground (arith, valid.copies_pos) in
    rw (counted, wanted, read, ended, copies, require, value, pos) refl
