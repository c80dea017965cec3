-- ===== src/Protocol/Job/Frames.antt =====
-- The stream of a whole job as its frames.
use rongta_f11_open.Base.{
  ℕ, ◌/◌, ◌≤◌, ◌<◌, ◌≡◌, refl, sym, ap, ◌∙◌, ◌⊎◌, false, List, [], ◌∷◌, ◌++◌, append_assoc,
  append-nil, arith, take, length, length-append, All, All-append, Bytes, AllBytes, byte, Result,
  ok, ◌>>=◌,
}
use rongta_f11_open.Protocol.Frame.{Frame}
use rongta_f11_open.Protocol.Frame.Laws.{IsFrame}
use rongta_f11_open.Protocol.Frame.Stream.{AllFrames, frames_bytes}
use rongta_f11_open.Protocol.Huffman.{
  Huffman, build_huffman, put_words, preorder, inorder, serialized_traversals,
}
use rongta_f11_open.Protocol.Rebuild.Words.{length-put_words}
use rongta_f11_open.Protocol.Rebuild.Build.{length-preorder, length-inorder}
use rongta_f11_open.Protocol.Job.{
  Settings, command_frame, frame, start_payload, sentinel_payload, bad_settings, concat_rows,
  encode_rows, add_ignored, add_rows,
}
use rongta_f11_open.Protocol.Job.Encode.{
  frame_fits, add_ignored_fits, add_rows_fits, row_frames, row_frames-AllFrames, IsRow, IsSmall,
}

-- Settings in the ranges that `encodeRows` accepts.
pub record IsSettings (s : Settings) : Type 0 where
  pub speed_pos : 1 ≤ s.speed
  pub speed_byte : s.speed ≤ 255
  pub density_pos : 1 ≤ s.density
  pub density_max : s.density ≤ 15
  pub tracking_byte : s.tracking ≤ 255
  pub copies_pos : 1 ≤ s.copies
  pub copies_byte : s.copies ≤ 255

settings_pass : (s : Settings) → IsSettings s → bad_settings s ≡ false
unfolding bad_settings
settings_pass s k = ground (
  arith, k.speed_pos, k.speed_byte, k.density_pos, k.density_max, k.tracking_byte, k.copies_pos,
  k.copies_byte,
)

-- The six frames in front of the rows, and the two behind them.
abbrev pub header_frames : ℕ → ℕ → Settings → Huffman → List Frame
header_frames width height s h =
    command_frame 5 0x11 (byte s.tracking ∷ []) 0x11
    ∷ command_frame 5 7 (byte s.speed ∷ []) 0x11
    ∷ command_frame 5 4 (3 ∷ byte s.density ∷ 8 ∷ []) 0x11
    ∷ command_frame 5 0x0b (start_payload width height) 0x11
    ∷ command_frame 5 0x0e (serialized_traversals h) 0x11
    ∷ command_frame 5 0x0d (sentinel_payload (width / 8)) 0x10
    ∷ []

abbrev pub end_frame : Frame
end_frame = command_frame 5 0x0c [] 0x11

abbrev pub copies_frame : Settings → Frame
copies_frame s = command_frame 5 8 (byte s.copies ∷ 0x13 ∷ 0 ∷ []) 0x11

unfoldable pub job_frames : List Bytes → ℕ → ℕ → Settings → Huffman → List Frame
job_frames rows width height s h =
    header_frames width height s h ++ (row_frames 1 rows h ++ (end_frame ∷ copies_frame s ∷ []))

put_words-AllBytes : (xs : List ℕ) → AllBytes (put_words xs)
unfolding put_words
put_words-AllBytes [] = tt
put_words-AllBytes (x ∷ xs) = (omega arith, (omega arith, put_words-AllBytes xs))

traversals-AllBytes : (h : Huffman) → AllBytes (serialized_traversals h)
unfolding serialized_traversals
traversals-AllBytes h = put_words-AllBytes (preorder h.root ++ inorder h.root)

pub traversals_fit : {h : Huffman} → IsSmall h → length (serialized_traversals h) ≤ 65530
unfolding serialized_traversals
traversals_fit {h} k = omega (
  arith,
  k.small,
  length-put_words (preorder h.root ++ inorder h.root),
  length-append (preorder h.root) (inorder h.root),
  length-preorder h.root,
  length-inorder h.root,
)

command_frame-IsFrame :
    (s : ℕ) (p : Bytes) (app : ℕ)
    → s < 256
    → app < 256
    → AllBytes p
    → length p ≤ 65530
    → IsFrame (command_frame 5 s p app)
command_frame-IsFrame s p app hs ha hp fits = record {
  class_byte = ha;
  command_byte = omega arith;
  subcommand_byte = hs;
  payload_bytes = hp;
  payload_fits = fits;
}

start-IsFrame :
    (width height : ℕ) → IsFrame (command_frame 5 0x0b (start_payload width height) 0x11)
unfolding start_payload
start-IsFrame width height =
    command_frame-IsFrame 0x0b _ 0x11 (omega arith) (omega arith) (omega arith) (omega arith)

sentinel-IsFrame :
    (row_bytes : ℕ) → IsFrame (command_frame 5 0x0d (sentinel_payload row_bytes) 0x10)
unfolding sentinel_payload
sentinel-IsFrame row_bytes =
    command_frame-IsFrame 0x0d _ 0x10 (omega arith) (omega arith) (omega arith) (omega arith)

pub job_frames-AllFrames :
    {h : Huffman} (rows : List Bytes) (width height row_bytes : ℕ) (s : Settings)
    → IsSmall h
    → row_bytes ≤ 208
    → All (IsRow h row_bytes) rows
    → AllFrames (job_frames rows width height s h)
unfolding job_frames
job_frames-AllFrames {h} rows width height row_bytes s k wide rs = (
  command_frame-IsFrame 0x11 _ 0x11 (omega arith) (omega arith) (omega arith) (omega arith),
  (
    command_frame-IsFrame 7 _ 0x11 (omega arith) (omega arith) (omega arith) (omega arith),
    (
      command_frame-IsFrame 4 _ 0x11 (omega arith) (omega arith) (omega arith) (omega arith),
      (
        start-IsFrame width height,
        (
          command_frame-IsFrame 0x0e _ 0x11 (omega arith) (omega arith) (traversals-AllBytes h)
              (traversals_fit k),
          (
            sentinel-IsFrame (width / 8),
            All-append IsFrame (row_frames 1 rows h) (end_frame ∷ copies_frame s ∷ [])
                (row_frames-AllFrames row_bytes 1 rows k wide rs)
                (
                  command_frame-IsFrame 0x0c _ 0x11 (omega arith) (omega arith) tt (omega arith),
                  (
                    command_frame-IsFrame 8 _ 0x11 (omega arith) (omega arith) (omega arith)
                        (omega arith),
                    tt,
                  ),
                ),
          ),
        ),
      ),
    ),
  ),
)

pub length-start_payload : (width height : ℕ) → length (start_payload width height) ≡ 7
unfolding start_payload
length-start_payload width height = refl

pub length-sentinel_payload : (row_bytes : ℕ) → length (sentinel_payload row_bytes) ≡ 12
unfolding sentinel_payload
length-sentinel_payload row_bytes = refl

header_bytes :
    {h : Huffman} (width height : ℕ) (s : Settings)
    → IsSmall h
    → add_ignored 5 0x0d (sentinel_payload (width / 8)) 0x10 (
        add_ignored 5 0x0e (serialized_traversals h) 0x11 (
          add_ignored 5 0x0b (start_payload width height) 0x11 (
            add_ignored 5 4 (3 ∷ byte s.density ∷ 8 ∷ []) 0x11 (
              add_ignored 5 7
                (byte s.speed ∷ [])
                0x11
                (frames_bytes (command_frame 5 0x11 (byte s.tracking ∷ []) 0x11 ∷ []))))))
      ≡ frames_bytes (header_frames width height s h)
header_bytes {h} width height s k =
    rw
      (
        add_ignored_fits 5 7 (byte s.speed ∷ []) 0x11 (take 1 (header_frames width height s h))
            (omega arith),
        add_ignored_fits 5 4 (3 ∷ byte s.density ∷ 8 ∷ []) 0x11
            (take 2 (header_frames width height s h)) (omega arith),
        add_ignored_fits 5 0x0b (start_payload width height) 0x11
            (take 3 (header_frames width height s h))
            (omega (arith, length-start_payload width height)),
        add_ignored_fits 5 0x0e (serialized_traversals h) 0x11
            (take 4 (header_frames width height s h)) (traversals_fit k),
        add_ignored_fits 5 0x0d (sentinel_payload (width / 8)) 0x10
            (take 5 (header_frames width height s h))
            (omega (arith, length-sentinel_payload (width / 8))),
      )
      refl

trailer_bytes :
    (fs : List Frame) (s : Settings)
    → add_ignored 5 8
        (byte s.copies ∷ 0x13 ∷ 0 ∷ [])
        0x11
        (add_ignored 5 0x0c [] 0x11 (frames_bytes fs))
      ≡ frames_bytes (fs ++ (end_frame ∷ copies_frame s ∷ []))
trailer_bytes fs s =
    rw
      (
        add_ignored_fits 5 0x0c [] 0x11 fs (omega arith),
        add_ignored_fits 5 8 (byte s.copies ∷ 0x13 ∷ 0 ∷ []) 0x11 (fs ++ (end_frame ∷ []))
            (omega arith),
      )
      (ap frames_bytes (append_assoc fs (end_frame ∷ []) (copies_frame s ∷ [])))

first_bytes :
    (t : ℕ)
    → frame 5 0x11 (byte t ∷ []) 0x11
      ≡ ok (frames_bytes (command_frame 5 0x11 (byte t ∷ []) 0x11 ∷ []))
unfolding frames_bytes
first_bytes t = frame_fits 5 0x11 (byte t ∷ []) 0x11 (omega arith) ∙ ap ok (sym (append-nil _))

pub encode_rows-frames :
    {h : Huffman} (rows : List Bytes) (width height row_bytes : ℕ) (s : Settings)
    → build_huffman (concat_rows rows) ≡ ok h
    → IsSettings s
    → IsSmall h
    → (row_bytes ≡ 199) ⊎ (row_bytes ≡ 208)
    → All (IsRow h row_bytes) rows
    → length rows ≤ 65535
    → encode_rows rows width height s ≡ ok (frames_bytes (job_frames rows width height s h))
unfolding encode_rows job_frames
encode_rows-frames {h} rows width height row_bytes s built valid k wide rs small =
    let header : List Frame = header_frames width height s h in
    let rest : Bytes → Result Bytes = λ o.
      ok (add_ignored 5 8 (byte s.copies ∷ 0x13 ∷ 0 ∷ []) 0x11 (add_ignored 5 0x0c [] 0x11 o)) in
    rw (settings_pass s valid, built, first_bytes s.tracking)
      (ap (λ o. add_rows 1 rows h o >>= rest) (header_bytes width height s k)
        ∙ ap (λ m. m >>= rest) (add_rows_fits row_bytes 1 rows header k wide rs (omega arith))
        ∙ ap ok (trailer_bytes (header ++ row_frames 1 rows h) s)
        ∙ ap (λ fs. ok (frames_bytes fs))
            (append_assoc header (row_frames 1 rows h) (end_frame ∷ copies_frame s ∷ [])))
