-- ===== src/Commands/Stream.antt =====
-- The check of a job before it is printed, in `build` of Appliance/cmd/bannerprint/main.go,
-- Appliance/cmd/giftprint/main.go and Appliance/cmd/raidprint/main.go, and in `Print` of
-- Appliance/internal/twitchraid/print.go.
pub mod Laws
use rongta_f11_open.Base.{
  ℕ, ◌+◌, ◌/◌, String, Bool, true, false, not, ◌&&◌, ◌||◌, List, [], ◌∷◌, ◌==◌, if◌then◌else◌,
  length, Bytes, bytes_equal, Result, ok, err, panic, errorf, ◌>>=◌, ◌>>◌, fail_if, masked,
}
use rongta_f11_open.Protocol.Raster.{native_monochrome}
use rongta_f11_open.Protocol.Job.{Settings, DecodedJob, encode_native_job, decode_job}

abbrev pub print_settings : Settings
print_settings = record { speed = 12; density = 9; tracking = 0; copies = 1 }

-- The loop over `intended`; a row that the job lacks is an index out of range.
unfoldable pub same_rows : String → ℕ → List Bytes → List Bytes → Result (Unit {0})
same_rows message i [] rows = ok tt
same_rows message i (x ∷ xs) [] = panic
same_rows message i (x ∷ xs) (y ∷ ys) =
    let rest = same_rows message (i + 1) xs ys in
    if not (bytes_equal x y) then err (errorf message (i + 1)) else rest

abbrev pub wrong_geometry : ℕ → DecodedJob → Bool
wrong_geometry height d =
    not (d.width_bytes == 1664 / 8) || (not (d.height == height) || not (d.copies == 1))

-- `build` of bannerprint and of giftprint, with the page that they draw.
unfoldable pub build_stream : Bytes → ℕ → Result Bytes
unfolding same_rows
build_stream gray height = do
  intended ← native_monochrome gray 1664 height
  stream ← encode_native_job gray 1664 height print_settings
  d ← decode_job stream
  fail_if (wrong_geometry height d || not (length d.rows == length intended))
      "decoded geometry mismatch"
  same_rows "decoded raster mismatch at row" 0 intended d.rows
  ok stream

-- `build` of raidprint.
unfoldable pub build_raid_stream : Bytes → ℕ → Result Bytes
unfolding same_rows
build_raid_stream gray height = do
  intended ← native_monochrome gray 1664 height
  stream ← encode_native_job gray 1664 height print_settings
  d ← masked "decoded raid geometry mismatch" (decode_job stream)
  fail_if (wrong_geometry height d || not (length d.rows == length intended))
      "decoded raid geometry mismatch"
  same_rows "raid raster mismatch row" 0 intended d.rows
  ok stream

-- The first half of `Print` of twitchraid.
unfoldable pub raid_stream : Bytes → ℕ → Result Bytes
unfolding same_rows
raid_stream gray height = do
  intended ← native_monochrome gray 1664 height
  stream ← encode_native_job gray 1664 height print_settings
  d ← masked "raid stream geometry mismatch" (decode_job stream)
  fail_if (wrong_geometry height d) "raid stream geometry mismatch"
  same_rows "raid raster mismatch row" 0 intended d.rows
  ok stream
