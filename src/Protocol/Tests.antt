-- ===== src/Protocol/Tests.antt =====
-- Concrete runs of the protocol package, and the theorems at concrete inputs.
use rongta_f11_open.Base.{
  zero, suc, inr, AllBytes, ℕ, ◌+◌, ◌-◌, ◌/◌, ◌≤◌, ◌≡◌, ◌≢◌, ◌↔◌, refl, [], ◌∷◌, ◌++◌, List, Bytes,
  Result, ok, err, new, length-replicate, replicate, arith,
}
use rongta_f11_open.Protocol.Checksum.{checksum, crc_bytes, crc_byte, crc_rounds, crc_shift}
use rongta_f11_open.Protocol.Checksum.Laws.{checksum_one_byte}
use rongta_f11_open.Protocol.Frame.{Frame, frame_body, frame_bytes, decode_frames, encode_frame}
use rongta_f11_open.Protocol.Frame.Laws.{IsFrame, sealed}
use rongta_f11_open.Protocol.Frame.Stream.{
  AllFrames, frames_bytes, decode_frames-eq-ok_iff, decode_frames_one_byte, decode_frames_returns,
}
use rongta_f11_open.Protocol.Huffman.{Huffman, build_huffman, encode, counts, serialized_traversals}
use rongta_f11_open.Protocol.Huffman.Build.{build_huffman-round_trip}
use rongta_f11_open.Protocol.Huffman.Decode.{decode}
use rongta_f11_open.Protocol.Huffman.Codes.{IsFull}
use rongta_f11_open.Protocol.Rebuild.{tree_from}
use rongta_f11_open.Protocol.Rebuild.Returns.{tree_from-Ends}
use rongta_f11_open.Protocol.Rebuild.RoundTrip.{tree_from-serialized_traversals}
use rongta_f11_open.Protocol.Job.{Settings, encode_rows, encode_job, encode_native_job, decode_job}
use rongta_f11_open.Protocol.Job.Frames.{IsSettings}
use rongta_f11_open.Protocol.Job.RoundTrip.{encode_rows-round_trip}
use rongta_f11_open.Protocol.Job.Pages.{encode_native_job-decode_job, encode_job-decode_job}
use rongta_f11_open.Base.Ends.{Ends}
use rongta_f11_open.Protocol.Raster.{is_dark, monochrome, native_monochrome}
use rongta_f11_open.Protocol.Raster.Laws.{IsPage, monochrome-IsPage, native_monochrome-IsPage}

abbrev sample_frame : Frame
sample_frame = record { app_class = 0x10; command = 5; subcommand = 3; payload = 1 ∷ 2 ∷ [] }

-- A frame in full: sync bytes, length, body, checksum.
sample_frame_bytes :
    encode_frame sample_frame
    ≡ ok (163 ∷ 30 ∷ 28 ∷ 0 ∷ 7 ∷ 0 ∷ 16 ∷ 5 ∷ 3 ∷ 2 ∷ 0 ∷ 1 ∷ 2 ∷ 35 ∷ 195 ∷ 12 ∷ 218 ∷ [])
unfolding encode_frame frame_bytes frame_body checksum crc_bytes crc_byte crc_rounds crc_shift
sample_frame_bytes = refl

sample_frame-IsFrame : IsFrame sample_frame
sample_frame-IsFrame = omega arith

checksum_one_byte_example : checksum (1 ∷ 2 ∷ 7 ∷ 3 ∷ []) ≢ checksum (1 ∷ 2 ∷ 8 ∷ 3 ∷ [])
checksum_one_byte_example =
    checksum_one_byte (1 ∷ 2 ∷ []) (3 ∷ []) 7 8 (omega arith) (omega arith) (omega arith)
      (omega arith) (omega arith)

decode_frames-eq-ok_iff_example :
    (decode_frames (frame_bytes sample_frame ++ frame_bytes sample_frame) ≡ ok (sample_frame ∷ []))
    ↔ (AllFrames (sample_frame ∷ [])
        × (frame_bytes sample_frame ++ frame_bytes sample_frame ≡ frames_bytes (sample_frame ∷ [])))
decode_frames-eq-ok_iff_example =
    decode_frames-eq-ok_iff (frame_bytes sample_frame ++ frame_bytes sample_frame)
      (sample_frame ∷ []) (unfold frame_bytes frame_body checksum in omega arith)

decode_frames_returns_example :
    (decode_frames (163 ∷ 30 ∷ []) ≢ Result.panic) × (decode_frames (163 ∷ 30 ∷ []) ≢ Result.stuck)
decode_frames_returns_example = decode_frames_returns (163 ∷ 30 ∷ [])

decode_frames_one_byte_example :
    decode_frames
      (sealed (16 ∷ 5 ∷ 3 ∷ 2 ∷ 0 ∷ 1 ∷ 9 ∷ []) (checksum (frame_body sample_frame)) (1 ∷ []))
    ≡ err (new "CRC")
decode_frames_one_byte_example =
    decode_frames_one_byte sample_frame (16 ∷ 5 ∷ 3 ∷ 2 ∷ 0 ∷ 1 ∷ []) [] (1 ∷ []) 2 9
      sample_frame-IsFrame (unfold frame_body in refl) (omega arith) (omega arith)

build_huffman-round_trip_example :
    (h : Huffman) × (build_huffman (1 ∷ 1 ∷ 2 ∷ []) ≡ ok h)
    × (h.node_count ≤ 511)
    × (decode h (encode h (1 ∷ 2 ∷ [])).0 (encode h (1 ∷ 2 ∷ [])).1 2 ≡ ok (1 ∷ 2 ∷ []))
build_huffman-round_trip_example =
    build_huffman-round_trip (1 ∷ 1 ∷ 2 ∷ []) (1 ∷ 2 ∷ []) (omega arith)
      (unfold counts in omega arith)

abbrev grey_line : Bytes
grey_line = replicate 1664 100

native_monochrome-IsPage_example :
    (rows : List Bytes) × (native_monochrome grey_line 1664 1 ≡ ok rows)
    × IsPage rows 1 208 (λ y x. is_dark grey_line 1664 y x x)
native_monochrome-IsPage_example =
    native_monochrome-IsPage grey_line 1 (omega arith) (omega arith)
      (length-replicate {A = ℕ} 1664 100)

monochrome-IsPage_example :
    (rows : List Bytes) × (monochrome grey_line 1664 1 ≡ ok rows)
    × IsPage rows 1 199 (λ y x. is_dark grey_line 1664 y x (x + (1664 - 1592) / 2))
monochrome-IsPage_example =
    monochrome-IsPage grey_line 1664 1 (omega arith) (omega arith) (omega arith)
      (length-replicate {A = ℕ} 1664 100)

tree_from-serialized_traversals_example :
    (h : Huffman) × (h' : Huffman) × (build_huffman (1 ∷ 1 ∷ 2 ∷ []) ≡ ok h)
    × (tree_from (serialized_traversals h) ≡ ok h')
    × (h'.node_count ≡ h.node_count)
    × (decode h' (encode h (1 ∷ 2 ∷ [])).0 (encode h (1 ∷ 2 ∷ [])).1 2 ≡ ok (1 ∷ 2 ∷ []))
tree_from-serialized_traversals_example =
    tree_from-serialized_traversals (1 ∷ 1 ∷ 2 ∷ []) (1 ∷ 2 ∷ []) (omega arith)
      (unfold counts in omega arith)

tree_from-Ends_example : Ends (λ h. IsFull h.root) (tree_from (1 ∷ 0 ∷ 1 ∷ 0 ∷ []))
tree_from-Ends_example = tree_from-Ends (1 ∷ 0 ∷ 1 ∷ 0 ∷ [])

abbrev sample_settings : Settings
sample_settings = record { speed = 3; density = 8; tracking = 0; copies = 2 }

sample_settings-IsSettings : IsSettings sample_settings
sample_settings-IsSettings = record {
  speed_pos = omega arith;
  speed_byte = omega arith;
  density_pos = omega arith;
  density_max = omega arith;
  tracking_byte = omega arith;
  copies_pos = omega arith;
  copies_byte = omega arith;
}

encode_native_job-decode_job_example :
    (stream : Bytes) × (rows : List Bytes) × (encode_native_job grey_line 1664 1 sample_settings
      ≡ ok stream)
    × (decode_job stream ≡ ok (record { width_bytes = 208; height = 1; copies = 2; rows = rows }))
    × IsPage rows 1 208 (λ y x. is_dark grey_line 1664 y x x)
encode_native_job-decode_job_example =
    encode_native_job-decode_job grey_line 1 sample_settings sample_settings-IsSettings
      (omega arith) (omega arith) (length-replicate {A = ℕ} 1664 100)

encode_job-decode_job_example :
    (stream : Bytes) × (rows : List Bytes) × (encode_job grey_line 1664 1 sample_settings
      ≡ ok stream)
    × (decode_job stream ≡ ok (record { width_bytes = 199; height = 1; copies = 2; rows = rows }))
    × IsPage rows 1 199 (λ y x. is_dark grey_line 1664 y x (x + (1664 - 1592) / 2))
encode_job-decode_job_example =
    encode_job-decode_job grey_line 1664 1 sample_settings sample_settings-IsSettings (omega arith)
      (omega arith) (omega arith) (length-replicate {A = ℕ} 1664 100)

-- A row of 208 equal bytes.
abbrev sample_row : Bytes
sample_row = replicate 208 90

sample_bytes : (n : ℕ) → AllBytes (replicate n 90)
sample_bytes zero = tt
sample_bytes (suc n) = (omega arith, sample_bytes n)

encode_rows-round_trip_example :
    (stream : Bytes) × (encode_rows (sample_row ∷ []) 1664 1 sample_settings ≡ ok stream)
    × (decode_job stream
        ≡ ok (record { width_bytes = 208; height = 1; copies = 2; rows = sample_row ∷ [] }))
encode_rows-round_trip_example =
    encode_rows-round_trip (sample_row ∷ []) 1664 sample_settings sample_settings-IsSettings
      (inr refl) (record { bytes = sample_bytes 208; width = length-replicate {A = ℕ} 208 90 }, tt)
      (omega arith) (omega arith)
