-- ===== src/Render/Tests.antt =====
-- The reading of a page at concrete bytes.
use rongta_f11_open.Base.{ℕ, ◌≡◌, refl, [], ◌∷◌, ◌++◌, ◌+◌, ◌-◌, ◌*◌, Bytes, Result, ok, arith}
use rongta_f11_open.Text.{codes}
use rongta_f11_open.Render.{
  Image, Limits, word_loop, token_loop, token, out_of_limits, pixel_count, read_pixels,
  parse_pgm_range,
}
use rongta_f11_open.Render.Laws.{IsImage, parse_pgm_range-IsImage}

-- The value of digits.
abbrev digits : ℕ → Bytes → ℕ
digits n [] = n
digits n (b ∷ bs) = digits (n * 10 + (b - 48)) bs

abbrev decimal : Bytes → Result ℕ
decimal text = ok (digits 0 text)

abbrev sample_bytes : Bytes
sample_bytes = codes "P5\n# two pixels\n2 1\n255\n" ++ (7 ∷ 250 ∷ [])

abbrev sample_image : Image
sample_image = record { width = 2; height = 1; gray = 7 ∷ 250 ∷ [] }

abbrev sample_limits : Limits
sample_limits = record { min_width = 1; max_width = 2; min_height = 1; max_height = 1 }

sample_bytes-parsed : parse_pgm_range decimal sample_bytes sample_limits ≡ ok sample_image
unfolding parse_pgm_range token token_loop word_loop out_of_limits read_pixels pixel_count
sample_bytes-parsed = refl

parse_pgm_range-IsImage_example : IsImage sample_bytes sample_limits sample_image
parse_pgm_range-IsImage_example =
    parse_pgm_range-IsImage decimal sample_bytes sample_limits sample_image (omega arith)
      sample_bytes-parsed
