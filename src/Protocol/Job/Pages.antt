-- ===== src/Protocol/Job/Pages.antt =====
-- `EncodeJob`, `EncodeNativeJob` and `DecodeJob` from a page of pixels to its dots.
use rongta_f11_open.Base.{
  ℕ, suc, ◌+◌, ◌-◌, ◌*◌, ◌/◌, ◌≤◌, ◌<◌, ◌≡◌, refl, sym, ap, ◌∙◌, Bool, inl, inr, List, [], ◌∷◌,
  arith, length, get_or, All, Bytes, ok,
}
use rongta_f11_open.Protocol.Raster.{is_dark, native_monochrome}
use rongta_f11_open.Protocol.Raster.Laws.{IsPage, monochrome-IsPage, native_monochrome-IsPage}
use rongta_f11_open.Protocol.Job.{Settings, encode_rows, encode_job, encode_native_job, decode_job}
use rongta_f11_open.Protocol.Job.Frames.{IsSettings}
use rongta_f11_open.Protocol.Job.RoundTrip.{IsBytesRow, encode_rows-round_trip}

rows-IsBytesRow :
    (size : ℕ) (rows : List Bytes)
    → ((y : ℕ) → y < length rows → IsBytesRow size (get_or rows y []))
    → All (IsBytesRow size) rows
rows-IsBytesRow size [] h = tt
rows-IsBytesRow size (r ∷ rows) h =
    (h 0 (omega arith), rows-IsBytesRow size rows (λ y k. h (suc y) (omega arith)))

page-IsBytesRow :
    {rows : List Bytes} {height size : ℕ} {dark : ℕ → ℕ → Bool}
    → IsPage rows height size dark
    → All (IsBytesRow size) rows
page-IsBytesRow {rows} {height} {size} p = rows-IsBytesRow size rows λ y k.
    let d = p.row_right y (omega (arith, p.height_right)) in
    record { bytes = d.row_bytes; width = d.size }

-- The rows that `NativeMonochrome` makes are those that `DecodeJob` returns.
pub native_monochrome-decode_job :
    (gray : Bytes) (height : ℕ) (s : Settings)
    → IsSettings s
    → 0 < height
    → height ≤ 5000
    → length gray ≡ 1664 * height
    → (stream : Bytes) × (rows : List Bytes) × (native_monochrome gray 1664 height ≡ ok rows)
      × (encode_native_job gray 1664 height s ≡ ok stream)
      × (decode_job stream
          ≡ ok (record { width_bytes = 208; height = height; copies = s.copies; rows = rows }))
      × (length rows ≡ height)
unfolding encode_native_job
native_monochrome-decode_job gray height s valid pos few size =
    let (rows, made, page) = native_monochrome-IsPage gray height pos (omega arith) size in
    let (stream, sent, back) =
      encode_rows-round_trip rows 1664 s valid (inr refl) (page-IsBytesRow page)
        (omega (arith, page.height_right)) (omega (arith, page.height_right)) in
    (
      stream,
      rows,
      made,
      rw made (ap (λ n. encode_rows rows 1664 n s) (sym page.height_right) ∙ sent),
      back
          ∙ ap (λ n. ok (record { width_bytes = 208; height = n; copies = s.copies; rows = rows }))
              page.height_right,
      page.height_right,
    )

-- For a page 1664 wide, of 1 to 5000 lines and as many pixels as these need, and settings in range,
-- `EncodeNativeJob` returns a stream from which `DecodeJob` returns the page: one row of 208 bytes for
-- each line, a dot set exactly where the pixel is below its threshold, and the copies of the settings.
pub encode_native_job-decode_job :
    (gray : Bytes) (height : ℕ) (s : Settings)
    → IsSettings s
    → 0 < height
    → height ≤ 5000
    → length gray ≡ 1664 * height
    → (stream : Bytes) × (rows : List Bytes) × (encode_native_job gray 1664 height s ≡ ok stream)
      × (decode_job stream
          ≡ ok (record { width_bytes = 208; height = height; copies = s.copies; rows = rows }))
      × IsPage rows height 208 (λ y x. is_dark gray 1664 y x x)
unfolding encode_native_job
encode_native_job-decode_job gray height s valid pos few size =
    let (rows, made, page) = native_monochrome-IsPage gray height pos (omega arith) size in
    let (stream, sent, back) =
      encode_rows-round_trip rows 1664 s valid (inr refl) (page-IsBytesRow page)
        (omega (arith, page.height_right)) (omega (arith, page.height_right)) in
    (
      stream,
      rows,
      rw made (ap (λ n. encode_rows rows 1664 n s) (sym page.height_right) ∙ sent),
      back
          ∙ ap (λ n. ok (record { width_bytes = 208; height = n; copies = s.copies; rows = rows }))
              page.height_right,
      page,
    )

-- For a page at least 1592 wide, of 1 to 5000 lines and as many pixels as these need, and settings in
-- range, `EncodeJob` returns a stream from which `DecodeJob` returns the 1592 columns in the middle of
-- the page: one row of 199 bytes for each line, a dot set exactly where the pixel is below its
-- threshold, and the copies of the settings.
pub encode_job-decode_job :
    (gray : Bytes) (width height : ℕ) (s : Settings)
    → IsSettings s
    → 1592 ≤ width
    → 0 < height
    → height ≤ 5000
    → length gray ≡ width * height
    → (stream : Bytes) × (rows : List Bytes) × (encode_job gray width height s ≡ ok stream)
      × (decode_job stream
          ≡ ok (record { width_bytes = 199; height = height; copies = s.copies; rows = rows }))
      × IsPage rows height 199 (λ y x. is_dark gray width y x (x + (width - 1592) / 2))
unfolding encode_job
encode_job-decode_job gray width height s valid wide pos few size =
    let (rows, made, page) = monochrome-IsPage gray width height wide pos (omega arith) size in
    let (stream, sent, back) =
      encode_rows-round_trip rows 1592 s valid (inl refl) (page-IsBytesRow page)
        (omega (arith, page.height_right)) (omega (arith, page.height_right)) in
    (
      stream,
      rows,
      rw made (ap (λ n. encode_rows rows 1592 n s) (sym page.height_right) ∙ sent),
      back
          ∙ ap (λ n. ok (record { width_bytes = 199; height = n; copies = s.copies; rows = rows }))
              page.height_right,
      page,
    )
