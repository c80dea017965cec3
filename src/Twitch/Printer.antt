-- ===== src/Twitch/Printer.antt =====
-- The printers that the processors call: `BannerPrinter.Print` of
-- Appliance/internal/twitchbanner/twitchbanner.go, `GiftPrinter.Print` of twitchgift/print.go, and
-- `Printer.Print` of twitchraid/print.go. The runner of commands, the decoding of what a command
-- reports, the search for a job's id and raidpage.Render are arguments.
use rongta_f11_open.Base.{
  String, Bool, not, ◌||◌, List, [], ◌∷◌, ◌++◌, Bytes, Option, none, some, Result, ok, err, new,
  annotated, ◌>>=◌, ◌>>◌, fail_if,
}
use rongta_f11_open.Text.{Text, codes, itoa, join}
use rongta_f11_open.Gift.{Celebration}
use rongta_f11_open.Twitch.Raid.{RaidEvent}
use rongta_f11_open.Commands.Stream.{raid_stream}
use rongta_f11_open.Commands.Spool.{Submitter, lp_args}

-- What bannerprint and giftprint report.
pub record CommandReport : Type 0 where
  pub done : Bool
  pub submitted : Bool
  pub job_id : Text

-- The end of both: the report is decoded, and has to confirm the submission.
unfoldable pub confirm : (Text → Result CommandReport) → String → Text → Result Text
confirm decode message out = do
  r ← decode out
  fail_if (not r.done || not r.submitted) message
  ok r.job_id

module _ (run : Text → List Text → Result Text) (decode : Text → Result CommandReport) where
  unfoldable pub print_banner : Text → Text → Text → Result Text
  unfolding confirm
  print_banner binary queue text = do
    out ← annotated "bannerprint" (
        run binary
          (codes "--queue" ∷ queue ∷ codes "--lines" ∷ codes "auto" ∷ codes "--" ∷ text ∷ []))
    confirm decode "bannerprint did not confirm submission" out

  unfoldable pub print_gift : Text → Text → Celebration → Result Text
  unfolding confirm
  print_gift binary queue c = do
    out ← annotated "giftprint" (
        run binary (
          codes "--queue"
          ∷ queue
          ∷ codes "--gifter"
          ∷ c.gifter
          ∷ codes "--total"
          ∷ itoa c.total
          ∷ codes "--missing"
          ∷ itoa c.missing
          ∷ codes "--recipients"
          ∷ join c.recipients (44 ∷ [])
          ∷ []))
    confirm decode "giftprint did not confirm submission" out

-- Behind the check of the stream.
unfoldable pub send_raid :
    Submitter → (Text → Option Text) → Text → Text → RaidEvent → Bytes → Result Text
send_raid run find_job binary queue e stream = do
  out ←
      annotated "CUPS status unknown; do not retry"
        (run binary stream (lp_args queue (codes "Twitch raid: " ++ e.channel)))
  elim (find_job out) [
    | none ↦ err (new "raidprint output did not include a CUPS job ID")
    | some id ↦ ok id
  ]

unfoldable pub print_raid :
    (RaidEvent → Result Bytes)
    → Submitter
    → (Text → Option Text)
    → Text
    → Text
    → RaidEvent
    → Result Text
unfolding raid_stream send_raid
print_raid render run find_job binary queue e = do
  gray ← render e
  stream ← raid_stream gray 2233
  send_raid run find_job binary queue e stream
