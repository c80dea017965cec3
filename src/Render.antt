-- ===== src/Render.antt =====
-- The reading of a page, `token` and `ParsePGMRange` with its two callers in
-- Appliance/internal/render/pgm.go. strconv.Atoi is an argument; a number below 0, which is refused like
-- 0 whatever the limits, is given as 0. An int has 64 bits; the memory that
-- `make` asks for is taken to be there.
pub mod Laws
mod Tests
use rongta_f11_open.Base.{
  ℕ, ◌+◌, ◌*◌, ◌%◌, ◌^◌, Bool, true, false, not, ◌&&◌, ◌||◌, List, [], ◌∷◌, ◌++◌, ltb, leb, ◌==◌,
  if◌then◌else◌, length, take, drop, Bytes, bytes_equal, Result, ok, err, panic, new, masked, ◌>>=◌,
  ◌>>◌, fail_if,
}
use rongta_f11_open.Text.{codes, is_empty}

pub record Image : Type 0 where
  pub width : ℕ
  pub height : ℕ
  pub gray : Bytes

abbrev pub is_blank : ℕ → Bool
is_blank b = b == 32 || (b == 10 || (b == 13 || b == 9))

-- The inner loop of `token`: `x` is what was read of the word.
unfoldable pub word_loop : Bytes → Bytes → Result (Bytes × Bytes)
word_loop x [] = ok (x, [])
word_loop x (b ∷ bs) =
    let longer = x ++ (b ∷ []) in
    let more = word_loop longer bs in
    if is_blank b
    then ok (x, bs)
    else if ltb 32 (length longer)
    then err (new "PGM token too long")
    else more

-- `token`, within a comment or not: the word, and what is left of the bytes.
unfoldable pub token_loop : Bool → Bytes → Result (Bytes × Bytes)
unfolding word_loop
token_loop comment [] = err (new "EOF")
token_loop comment (b ∷ bs) =
    let inside = token_loop true bs in
    let outside = token_loop false bs in
    if comment
    then (if b == 10 then outside else inside)
    else if b == 35
    then inside
    else if is_blank b
    then outside
    else word_loop (b ∷ []) bs

unfoldable pub token : Bytes → Result (Bytes × Bytes)
unfolding token_loop
token = token_loop false

-- The limits of width and height.
pub record Limits : Type 0 where
  pub min_width : ℕ
  pub max_width : ℕ
  pub min_height : ℕ
  pub max_height : ℕ

unfoldable pub out_of_limits : Limits → ℕ → ℕ → Bool
out_of_limits l w h =
    ltb w l.min_width
    || (ltb l.max_width w
        || (ltb h l.min_height
            || (ltb l.max_height h
                || (leb l.min_width 0
                    || (ltb l.max_width l.min_width
                        || (leb l.min_height 0 || ltb l.max_height l.min_height))))))

-- `w*h`, an int of 64 bits: it wraps, and from 2 ^ 63 on it is negative.
unfoldable pub pixel_count : ℕ → ℕ → ℕ
pixel_count w h = w * h % 2 ^ 64

-- The pixels behind the header. `make` panics for a negative length.
unfoldable pub read_pixels : ℕ → ℕ → Bytes → Result Image
unfolding pixel_count
read_pixels w h raw =
    let n = pixel_count w h in
    if leb (2 ^ 63) n then panic else (do
      fail_if (ltb (length raw) n) "PGM raster size"
      fail_if (not (is_empty (drop n raw))) "trailing PGM data"
      ok (record { width = w; height = h; gray = take n raw }))

module _ (atoi : Bytes → Result ℕ) where
  unfoldable pub parse_pgm_range : Bytes → Limits → Result Image
  unfolding token out_of_limits read_pixels
  parse_pgm_range raw l = do
    (magic, raw1) ← masked "binary PGM required" (token raw)
    fail_if (not (bytes_equal magic (codes "P5"))) "binary PGM required"
    (ws, raw2) ← token raw1
    (hs, raw3) ← token raw2
    (ms, raw4) ← token raw3
    w ← atoi ws
    h ← atoi hs
    max ← masked "8-bit PGM required" (atoi ms)
    fail_if (not (max == 255)) "8-bit PGM required"
    fail_if (out_of_limits l w h) "unexpected geometry"
    read_pixels w h raw4

  unfoldable pub parse_pgm_height_range : Bytes → ℕ → ℕ → ℕ → Result Image
  unfolding parse_pgm_range
  parse_pgm_height_range raw want_width min_height max_height = parse_pgm_range raw (record {
    min_width = want_width;
    max_width = want_width;
    min_height = min_height;
    max_height = max_height;
  })

  unfoldable pub parse_pgm : Bytes → ℕ → ℕ → Result Image
  unfolding parse_pgm_height_range
  parse_pgm raw want_width want_height =
      parse_pgm_height_range raw want_width want_height want_height
