-- ===== src/Protocol/Job/Encode.antt =====
-- The encoders of a job as a list of frames.
use rongta_f11_open.Base.{
  ℕ, suc, ◌+◌, ◌≤◌, ◌<◌, ◌≡◌, refl, sym, ap, ◌∙◌, ◌⊎◌, false, not, ◌&&◌, ◌||◌, List, [], ◌∷◌, ◌++◌,
  ltb, ◌==◌, append_assoc, append-nil, arith, length, All, Bytes, AllBytes, ok,
}
use rongta_f11_open.Protocol.Frame.{Frame, frame_bytes, encode_frame}
use rongta_f11_open.Protocol.Frame.Laws.{IsFrame}
use rongta_f11_open.Protocol.Frame.Stream.{AllFrames, frames_bytes}
use rongta_f11_open.Protocol.Huffman.{Huffman, encode}
use rongta_f11_open.Protocol.Huffman.Codes.{tree_size}
use rongta_f11_open.Protocol.Huffman.RoundTrip.{HasCode, IsCoder}
use rongta_f11_open.Protocol.Huffman.Packed.{encode-IsPacked}
use rongta_f11_open.Protocol.Job.{
  command_frame, frame, row_payload, encode_row_frame, add_ignored, add_rows,
}

pub frames_bytes-append :
    (fs gs : List Frame) → frames_bytes (fs ++ gs) ≡ frames_bytes fs ++ frames_bytes gs
unfolding frames_bytes
frames_bytes-append [] gs = refl
frames_bytes-append (f ∷ fs) gs =
    ap (λ t. frame_bytes f ++ t) (frames_bytes-append fs gs)
    ∙ sym (append_assoc (frame_bytes f) (frames_bytes fs) (frames_bytes gs))

frames_bytes-snoc :
    (fs : List Frame) (f : Frame) → frames_bytes fs ++ frame_bytes f ≡ frames_bytes (fs ++ (f ∷ []))
frames_bytes-snoc fs f =
    let one : frame_bytes f ≡ frames_bytes (f ∷ []) =
      unfold frames_bytes in sym (append-nil (frame_bytes f)) in
    ap (λ t. frames_bytes fs ++ t) one ∙ sym (frames_bytes-append fs (f ∷ []))

pub frame_fits :
    (c s : ℕ) (p : Bytes) (app : ℕ)
    → length p ≤ 65530
    → frame c s p app ≡ ok (frame_bytes (command_frame c s p app))
unfolding frame encode_frame
frame_fits c s p app h = ground arith

pub add_ignored_fits :
    (c s : ℕ) (p : Bytes) (app : ℕ) (fs : List Frame)
    → length p ≤ 65530
    → add_ignored c s p app (frames_bytes fs) ≡ frames_bytes (fs ++ (command_frame c s p app ∷ []))
unfolding add_ignored
add_ignored_fits c s p app fs h = rw (add_ignored, frame_fits c s p app h) (frames_bytes-snoc fs _)

-- The frame of a row, and of rows counted from `index` on.
abbrev pub row_frame : ℕ → Bytes → Huffman → Frame
row_frame index row h = command_frame 5 0x0d (row_payload index row (encode h row)) 0x10

unfoldable pub row_frames : ℕ → List Bytes → Huffman → List Frame
row_frames index [] h = []
row_frames index (r ∷ rs) h = row_frame index r h ∷ row_frames (index + 1) rs h

pub length-row_frames :
    (index : ℕ) (rows : List Bytes) (h : Huffman) → length (row_frames index rows h) ≡ length rows
unfolding row_frames
length-row_frames index [] h = refl
length-row_frames index (r ∷ rs) h = ap suc (length-row_frames (index + 1) rs h)

-- A row as the two rasters make it, whose bytes have codes.
pub record IsRow (h : Huffman) (row_bytes : ℕ) (row : Bytes) : Type 0 where
  pub width : length row ≡ row_bytes
  pub codes : All (HasCode h) row

-- A coder small enough for its rows and its tree to fit a frame.
pub record IsSmall (h : Huffman) : Type 0 where
  pub coder : IsCoder h
  pub small : tree_size h.root ≤ 511

pub length-row_payload :
    (index : ℕ) (row : Bytes) (packed : Bytes × ℕ)
    → length (row_payload index row packed) ≡ 12 + length packed.0
unfolding row_payload
length-row_payload index row (packed, pad) = omega arith

row_payload-AllBytes :
    (index : ℕ) (row : Bytes) (packed : Bytes × ℕ)
    → AllBytes packed.0
    → packed.1 < 8
    → AllBytes (row_payload index row packed)
unfolding row_payload
row_payload-AllBytes index row (packed, pad) h k = (
  omega arith,
  (
    omega arith,
    (
      omega arith,
      (
        omega arith,
        (
          omega arith,
          (
            omega arith,
            (
              omega arith,
              (omega arith, (omega arith, (omega arith, (omega arith, (omega arith, h))))),
            ),
          ),
        ),
      ),
    ),
  ),
)

row_payload_fits :
    {h : Huffman} (row_bytes index : ℕ) (row : Bytes)
    → IsSmall h
    → row_bytes ≤ 208
    → IsRow h row_bytes row
    → length (row_payload index row (encode h row)) ≤ 65530
row_payload_fits {h} row_bytes index row k wide r =
    let p = encode-IsPacked k.coder k.small row r.codes in
    omega (arith, length-row_payload index row (encode h row), p.size, r.width)

row_frame-IsFrame :
    {h : Huffman} (row_bytes index : ℕ) (row : Bytes)
    → IsSmall h
    → row_bytes ≤ 208
    → IsRow h row_bytes row
    → IsFrame (row_frame index row h)
row_frame-IsFrame {h} row_bytes index row k wide r =
    let p = encode-IsPacked k.coder k.small row r.codes in
    record {
      class_byte = omega arith;
      command_byte = omega arith;
      subcommand_byte = omega arith;
      payload_bytes = row_payload-AllBytes index row (encode h row) p.bytes p.pad_small;
      payload_fits = row_payload_fits row_bytes index row k wide r;
    }

pub row_frames-AllFrames :
    {h : Huffman} (row_bytes index : ℕ) (rows : List Bytes)
    → IsSmall h
    → row_bytes ≤ 208
    → All (IsRow h row_bytes) rows
    → AllFrames (row_frames index rows h)
unfolding row_frames
row_frames-AllFrames row_bytes index [] k wide rs = tt
row_frames-AllFrames row_bytes index (row ∷ rows) k wide (r, rs) = (
  row_frame-IsFrame row_bytes index row k wide r,
  row_frames-AllFrames row_bytes (index + 1) rows k wide rs,
)

pub add_rows_fits :
    {h : Huffman} (row_bytes index : ℕ) (rows : List Bytes) (fs : List Frame)
    → IsSmall h
    → (row_bytes ≡ 199) ⊎ (row_bytes ≡ 208)
    → All (IsRow h row_bytes) rows
    → index + length rows ≤ 65536
    → add_rows index rows h (frames_bytes fs) ≡ ok (frames_bytes (fs ++ row_frames index rows h))
unfolding add_rows encode_row_frame row_frames
add_rows_fits row_bytes index [] fs k wide rs small = rw (append-nil fs)
add_rows_fits {h} row_bytes index (row ∷ rows) fs k wide (r, rs) small =
    let passes : ((not (length row == 199) && not (length row == 208)) || ltb 65535 index) ≡ false =
      ground (arith, r.width) in
    let fits =
      frame_fits 5 0x0d (row_payload index row (encode h row)) 0x10
        (row_payload_fits row_bytes index row k (omega arith) r) in
    rw (passes, fits, frames_bytes-snoc fs (row_frame index row h))
      (add_rows_fits row_bytes (index + 1) rows (fs ++ (row_frame index row h ∷ [])) k wide rs
          (omega arith)
        ∙ ap (λ t. ok (frames_bytes t))
            (append_assoc fs (row_frame index row h ∷ []) (row_frames (index + 1) rows h)))
