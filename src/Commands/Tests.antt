-- ===== src/Commands/Tests.antt =====
-- The theorems on the commands at concrete inputs.
use rongta_f11_open.Base.{
  ℕ, ◌+◌, ◌-◌, inl, inr, ◌*◌, ◌≤◌, ◌<◌, ◌≡◌, ◌⊎◌, refl, ap, sym, ◌∙◌, true, false, List, [], ◌∷◌,
  ◌++◌, length, arith, if◌then◌else◌, Bytes, replicate, length-replicate, none, Result, ok, err,
  new,
}
use rongta_f11_open.Base.Ends.{Ends, Returns, value, error, Ends-if}
use rongta_f11_open.Text.{
  Text, codes, byte_length, itoa, text_equal, join, fields, trim_space, is_space,
}
use rongta_f11_open.Pages.Gift.{GiftReport, render_gift, clean, clean_names}
use rongta_f11_open.Pages.Raid
use rongta_f11_open.Pages.Raid.{RaidReport, render_raid}
use rongta_f11_open.Protocol.Job.{encode_native_job}
use rongta_f11_open.Commands.Stream.{print_settings, build_stream, build_raid_stream, raid_stream}
use rongta_f11_open.Commands.Stream.Laws.{build_stream_lem}
use rongta_f11_open.Commands.Queue.{
  Runner, is_queue, matches_queue, all_queue_runes, is_queue_rune, resolve_queue,
  resolve_banner_queue, verify_queue, verify_banner_queue,
}
use rongta_f11_open.Commands.Queue.Laws.{resolve_queue-Ends, resolve_queue-resolve_banner_queue}
use rongta_f11_open.Commands.Crop.{is_ink, crop_to_ink}
use rongta_f11_open.Commands.Crop.Laws.{IsCrop, crop_to_ink-IsCrop}
use rongta_f11_open.Commands.Spool.{Submitter, submit, spool}
use rongta_f11_open.Commands.Spool.Laws.{AtMostOne}
use rongta_f11_open.Commands.Banner.{Config, font_go_bold, job_title, build, run_built, run_config}
use rongta_f11_open.Commands.Banner.Laws.{IsBannerCall, run_config-sent}
use rongta_f11_open.Commands.Receipts.{
  GiftConfig, RaidConfig, Receipt, build_gift, build_raid, run_receipt, run_gift, run_raid,
}
use rongta_f11_open.Commands.Receipts.Laws.{IsReceiptCall, run_gift-sent, run_raid-sent}

-- A page without ink.
unfoldable pub white : ℕ → Bytes
white n = replicate n 255

pub length-white : (n : ℕ) → length (white n) ≡ n
unfolding white
length-white n = length-replicate n 255

build_stream_lem_example :
    (stream : Bytes) × (encode_native_job (white (1664 * 2)) 1664 2 print_settings ≡ ok stream)
    × (build_stream (white (1664 * 2)) 2 ≡ ok stream)
    × (build_raid_stream (white (1664 * 2)) 2 ≡ ok stream)
    × (raid_stream (white (1664 * 2)) 2 ≡ ok stream)
build_stream_lem_example =
    build_stream_lem (white (1664 * 2)) 2 (omega arith) (omega arith) (length-white (1664 * 2))

-- lpstat names the queue as the default one and as that of a device.
abbrev listing : List Text → Result Text
listing [] = err (new "no arguments")
listing (option ∷ args) =
    if text_equal option (codes "-d")
    then ok (codes "system default destination: Rongta_F11_Media")
    else ok (codes "device for Rongta_F11_Media: usb://Rongta/F11")

-- Every other command, which is check-f11-runtime, finds the printer.
abbrev commands : Runner
commands name args = if text_equal name (codes "lpstat") then listing args else ok (codes "ok")

listing-Returns : (args : List Text) → Returns (listing args)
listing-Returns [] = error
listing-Returns (option ∷ args) =
    Ends-if (text_equal option (codes "-d")) (λ _. value tt) (λ _. value tt)

commands-Returns : (name : Text) (args : List Text) → Returns (commands name args)
commands-Returns name args =
    Ends-if (text_equal name (codes "lpstat")) (λ _. listing-Returns args) (λ _. value tt)

resolve_queue-Ends_example : Ends (λ q. is_queue q ≡ true) (resolve_queue commands 2 [])
resolve_queue-Ends_example = resolve_queue-Ends commands [] commands-Returns

resolve_queue-resolve_banner_queue_example :
    resolve_banner_queue commands (codes "Rongta_F11_Media") ≡ ok (codes "Rongta_F11_Media")
resolve_queue-resolve_banner_queue_example =
    resolve_queue-resolve_banner_queue commands (codes "Rongta_F11_Media")
      (codes "Rongta_F11_Media")
      (unfold resolve_queue is_queue matches_queue all_queue_runes is_queue_rune in refl)

crop_to_ink-IsCrop_example :
    ((start rows : ℕ) × (out : Bytes) × (crop_to_ink (white (1664 * 3)) 1664 3 ≡ ok (out, rows))
      × IsCrop (white (1664 * 3)) 3 start rows out)
    ⊎ ((crop_to_ink (white (1664 * 3)) 1664 3 ≡ err (new "rendered banner has no ink"))
        × ((y x : ℕ) → y < 3 → x < 1664 → is_ink (white (1664 * 3)) 1664 y x ≡ false))
crop_to_ink-IsCrop_example =
    crop_to_ink-IsCrop (white (1664 * 3)) 3 (omega arith) (omega arith) (length-white (1664 * 3))

abbrev sample_config : Config
sample_config = record {
  queue = codes "Rongta_F11_Media";
  preview_png = [];
  line_count = 0;
  font = font_go_bold;
  preview = false;
  text = codes "GO TEAM";
}

-- A page with a dot of ink.
abbrev inked : Bytes
inked = 0 ∷ white (1664 * 3045 - 1)

length-inked : length inked ≡ 1664 * 3045
length-inked = omega (arith, length-white (1664 * 3045 - 1))

abbrev draw_inked : Config → Result (List Text × Bytes)
draw_inked c = ok (codes "GO TEAM" ∷ [], inked)

draw_inked-size :
    (c : Config) (lines : List Text) (page : Bytes)
    → draw_inked c ≡ ok (lines, page)
    → length page ≡ 1664 * 3045
draw_inked-size c lines page e = let same : inked ≡ page = cc in ap length (sym same) ∙ length-inked

abbrev lp : Submitter
lp name raw args = ok (codes "request id is F11-1")

run_config-sent_example :
    AtMostOne
      (λ s.
        (c : Config) × (Result.ok sample_config ≡ ok c)
        × IsBannerCall draw_inked commands c s
        × (byte_length (job_title c.text) ≤ 80))
      (run_config draw_inked
        (λ path gray rows. ok tt)
        (λ raw. [])
        commands
        lp
        (λ out. none)
        (ok sample_config)).sent
run_config-sent_example =
    run_config-sent draw_inked (λ path gray rows. ok tt) draw_inked-size (λ raw. []) commands lp
      (λ out. none) (ok sample_config)

-- The banner is handed to lp.
sample_config-sent :
    length
      (run_config draw_inked
        (λ path gray rows. ok tt)
        (λ raw. [])
        commands
        lp
        (λ out. none)
        (ok sample_config)).sent
    ≡ 1
unfolding run_config run_built build spool submit resolve_banner_queue verify_banner_queue is_queue
    matches_queue all_queue_runes is_queue_rune trim_space is_space
sample_config-sent = elim (crop_to_ink-IsCrop inked 3045 (omega arith) (omega arith) length-inked) [
  | inr (_, blank) ↦ absurd (let none_there = blank 0 0 (omega arith) (omega arith) in cc)
  | inl (start, rows, out, cut, crop) ↦
      let within : start + rows ≤ 3045 = crop.within in
      let (_, _, made, _, _) = build_stream_lem out rows crop.some_rows (omega arith) crop.size in
      rw (cut, made) refl
]

abbrev sample_gift : GiftConfig
sample_gift = record {
  queue = codes "Rongta_F11_Media";
  gifter = codes "ann";
  preview_png = [];
  preview_pgm = [];
  total = 10;
  missing = 9;
  recipients = codes "bob" ∷ [];
  preview = false;
}

abbrev paint_white {ℓ} : {Plan : Type ℓ} → Plan → Result Bytes
paint_white p = ok (white (1664 * 2233))

paint_white-size {ℓ} :
    {Plan : Type ℓ} (p : Plan) (gray : Bytes) → paint_white p ≡ ok gray → length gray ≡ 1664 * 2233
paint_white-size p gray e =
    let same : white (1664 * 2233) ≡ gray = cc in ap length (sym same) ∙ length-white (1664 * 2233)

run_gift-sent_example :
    AtMostOne
      (λ s.
        (r : Receipt GiftReport) × (build_gift paint_white sample_gift ≡ ok r)
        × IsReceiptCall commands false (codes "Twitch gift celebration: " ++ itoa 10) r.gray s)
      (run_gift
        (λ raw. [])
        commands
        lp
        (λ out. none)
        paint_white
        (λ c gray. ok tt)
        sample_gift).sent
run_gift-sent_example =
    run_gift-sent (λ raw. []) commands lp (λ out. none) paint_white (λ c gray. ok tt) sample_gift
      paint_white-size

-- The receipt is handed to lp.
sample_gift-sent :
    length
      (run_gift
        (λ raw. [])
        commands
        lp
        (λ out. none)
        paint_white
        (λ c gray. ok tt)
        sample_gift).sent
    ≡ 1
unfolding run_gift build_gift run_receipt spool submit resolve_queue verify_queue is_queue
    matches_queue all_queue_runes is_queue_rune render_gift clean clean_names join fields trim_space
    is_space
sample_gift-sent =
    let (_, _, made, _, _) =
      build_stream_lem (white (1664 * 2233)) 2233 (omega arith) (omega arith)
        (length-white (1664 * 2233)) in
    rw made refl

abbrev sample_raid : RaidConfig
sample_raid = record {
  queue = codes "Rongta_F11_Media";
  channel = codes "ann";
  preview_png = [];
  viewers = 12;
  preview = false;
  rest_count = 0;
}

run_raid-sent_example :
    AtMostOne
      (λ s.
        (r : Receipt RaidReport) × (build_raid (λ s. s) paint_white sample_raid ≡ ok r)
        × IsReceiptCall commands false (codes "Twitch raid: " ++ codes "ann") r.gray s)
      (run_raid
        (λ raw. [])
        commands
        lp
        (λ out. none)
        (λ s. s)
        paint_white
        (λ path gray. ok tt)
        sample_raid).sent
run_raid-sent_example =
    run_raid-sent (λ raw. []) commands lp (λ out. none) (λ s. s) paint_white (λ path gray. ok tt)
      sample_raid paint_white-size

-- The receipt is handed to lp.
sample_raid-sent :
    length
      (run_raid
        (λ raw. [])
        commands
        lp
        (λ out. none)
        (λ s. s)
        paint_white
        (λ path gray. ok tt)
        sample_raid).sent
    ≡ 1
unfolding run_raid build_raid run_receipt spool submit resolve_queue verify_queue is_queue
    matches_queue all_queue_runes is_queue_rune render_raid Raid.clean join fields trim_space
    is_space
sample_raid-sent =
    let (_, _, _, made, _) =
      build_stream_lem (white (1664 * 2233)) 2233 (omega arith) (omega arith)
        (length-white (1664 * 2233)) in
    rw made refl
