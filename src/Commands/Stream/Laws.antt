-- ===== src/Commands/Stream/Laws.antt =====
-- The check never refuses the job of a page of the right size.
use rongta_f11_open.Base.{
  ℕ, ◌+◌, ◌*◌, ◌≤◌, ◌<◌, ◌≡◌, refl, String, List, [], ◌∷◌, length, Bytes, bytes_equal_refl, ok,
  arith, ==_refl,
}
use rongta_f11_open.Protocol.Job.{encode_native_job}
use rongta_f11_open.Protocol.Job.Frames.{IsSettings}
use rongta_f11_open.Protocol.Job.Pages.{native_monochrome-decode_job}
use rongta_f11_open.Commands.Stream.{
  print_settings, same_rows, build_stream, build_raid_stream, raid_stream,
}

same_rows_refl :
    (message : String) (i : ℕ) (rows : List Bytes) → same_rows message i rows rows ≡ ok tt
unfolding same_rows
same_rows_refl message i [] = refl
same_rows_refl message i (x ∷ xs) = rw (bytes_equal_refl x) (same_rows_refl message (i + 1) xs)

print_settings-IsSettings : IsSettings print_settings
print_settings-IsSettings = omega arith

-- For a page 1664 wide, of 1 to 5000 lines and as many pixels as these need, the checks that
-- bannerprint, giftprint, raidprint and the raid printer make of the decoded job never refuse it: each
-- returns the stream of EncodeNativeJob.
pub build_stream_lem :
    (gray : Bytes) (height : ℕ)
    → 0 < height
    → height ≤ 5000
    → length gray ≡ 1664 * height
    → (stream : Bytes) × (encode_native_job gray 1664 height print_settings ≡ ok stream)
      × (build_stream gray height ≡ ok stream)
      × (build_raid_stream gray height ≡ ok stream)
      × (raid_stream gray height ≡ ok stream)
unfolding build_stream build_raid_stream raid_stream
build_stream_lem gray height pos few size =
    let (stream, rows, made, sent, back, counted) =
      native_monochrome-decode_job gray height print_settings print_settings-IsSettings pos few
        size in
    (
      stream,
      sent,
      rw (made, sent, back, ==_refl height, ==_refl (length rows), same_rows_refl _ 0 rows) refl,
      rw (made, sent, back, ==_refl height, ==_refl (length rows), same_rows_refl _ 0 rows) refl,
      rw (made, sent, back, ==_refl height, same_rows_refl _ 0 rows) refl,
    )
