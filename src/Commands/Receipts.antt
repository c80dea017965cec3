-- ===== src/Commands/Receipts.antt =====
-- `parseArgs`, `build`, `writePreviews` and `run` of Appliance/cmd/giftprint/main.go and
-- Appliance/cmd/raidprint/main.go. The parsing of flags, the painting of a page, the files of a preview
-- and the hash are arguments. Numbers below 0, which are refused, are not represented.
pub mod Laws
use rongta_f11_open.Base.{
  ℕ, String, Bool, true, false, not, ◌&&◌, ◌||◌, List, [], ◌∷◌, ◌++◌, ltb, leb, ◌==◌, if◌then◌else◌,
  length, Bytes, Option, Result, ok, err, panic, stuck, ◌>>=◌, ◌>>◌, fail_if,
}
use rongta_f11_open.Text.{Text, codes, is_empty, trim_space, split, itoa}
use rongta_f11_open.Pages.Gift.{GiftPage, GiftReport, GiftPlan, render_gift}
use rongta_f11_open.Pages.Raid.{Centered, RaidReport, render_raid}
use rongta_f11_open.Commands.Queue.{Runner, matches_queue, resolve_queue, verify_queue}
use rongta_f11_open.Commands.Stream.{build_stream, build_raid_stream}
use rongta_f11_open.Commands.Spool.{Submitter, Ran, spool}

pub record GiftConfig : Type 0 where
  pub queue : Text
  pub gifter : Text
  pub preview_png : Text
  pub preview_pgm : Text
  pub total : ℕ
  pub missing : ℕ
  pub recipients : List Text
  pub preview : Bool

-- What package flag makes of the arguments of giftprint.
pub record GiftFlags : Type 0 where
  pub queue : Text
  pub gifter : Text
  pub total : ℕ
  pub missing : ℕ
  pub preview : Bool
  pub preview_png : Text
  pub preview_pgm : Text
  pub recipients : Text
  pub rest_count : ℕ

pub record RaidConfig : Type 0 where
  pub queue : Text
  pub channel : Text
  pub preview_png : Text
  pub viewers : ℕ
  pub preview : Bool
  pub rest_count : ℕ

-- The loop over the recipients.
unfoldable pub keep_recipients : List Text → List Text
keep_recipients [] = []
keep_recipients (n ∷ names) =
    let rest = keep_recipients names in if is_empty (trim_space n) then rest else n ∷ rest

unfoldable pub parse_gift_args :
    (List Text → Text → Result GiftFlags) → List Text → Text → Result GiftConfig
unfolding keep_recipients
parse_gift_args parse_flags args env = do
  f ← parse_flags args env
  fail_if (not (f.rest_count == 0)) "unexpected positional arguments"
  fail_if (not (is_empty f.queue) && not (matches_queue f.queue)) "invalid queue"
  fail_if (ltb f.total 10 || ltb 1000 f.total) "total must be 10..1000 and missing nonnegative"
  let recipients = keep_recipients (split f.recipients 44)
  fail_if (is_empty f.gifter || length recipients == 0) "gifter and at least one recipient required"
  fail_if (not f.preview && (not (is_empty f.preview_png) || not (is_empty f.preview_pgm)))
      "preview output requires --preview"
  ok (record {
    queue = f.queue;
    gifter = f.gifter;
    preview_png = f.preview_png;
    preview_pgm = f.preview_pgm;
    total = f.total;
    missing = f.missing;
    recipients = recipients;
    preview = f.preview;
  })

-- raidprint's flags are its configuration.
unfoldable pub parse_raid_args :
    (List Text → Text → Result RaidConfig) → List Text → Text → Result RaidConfig
parse_raid_args parse_flags args env = do
  c ← parse_flags args env
  fail_if
      (not (c.rest_count == 0)
        || (is_empty c.channel || (leb c.viewers 0 || ltb 1000000 c.viewers)))
      "channel, viewers, and no positional arguments required"
  fail_if (not (is_empty c.queue) && not (matches_queue c.queue)) "invalid queue"
  fail_if (not c.preview && not (is_empty c.preview_png)) "preview-png requires preview"
  ok c

-- The job of a receipt, with what `run` reports of it.
pub record Receipt {ℓ} (Report : Type ℓ) : Type ℓ where
  pub stream : Bytes
  pub gray : Bytes
  pub report : Report

unfoldable pub build_gift : (GiftPlan → Result Bytes) → GiftConfig → Result (Receipt GiftReport)
build_gift paint c = do
  (gray, report) ← render_gift paint (record {
    total = c.total;
    gifter = c.gifter;
    recipients = c.recipients;
    missing = c.missing;
  })
  stream ← build_stream gray 2233
  ok (record { stream = stream; gray = gray; report = report })

unfoldable pub build_raid :
    (Text → Text) → (List Centered → Result Bytes) → RaidConfig → Result (Receipt RaidReport)
build_raid to_upper paint c = do
  (gray, report) ← render_raid to_upper paint c.channel c.viewers
  stream ← build_raid_stream gray 2233
  ok (record { stream = stream; gray = gray; report = report })

-- What both programs report.
pub record Printed {ℓ} (Report : Type ℓ) : Type ℓ where
  pub preview : Bool
  pub queue : Text
  pub report : Report
  pub bytes : ℕ
  pub sha256 : Text
  pub submitted : Bool
  pub job_id : Text

module _ (sha256 : Bytes → Text) (runner : Runner) (submitter : Submitter)
    (find_job : Text → Option Text) where
  abbrev pub printed_report {ℓ} :
      {Report : Type ℓ} → Bool → Receipt Report → Bool → Text × Text → Printed Report
  printed_report preview r submitted (queue, job) = record {
    preview = preview;
    queue = queue;
    report = r.report;
    bytes = length r.stream;
    sha256 = sha256 r.stream;
    submitted = submitted;
    job_id = job;
  }

  -- `run` of both behind `build` and the previews.
  unfoldable pub run_receipt {ℓ} :
      {Report : Type ℓ} → Bool → Text → Text → Result (Receipt Report) → Ran (Printed Report)
  run_receipt preview queue title panic = record { sent = []; answer = panic }
  run_receipt preview queue title stuck = record { sent = []; answer = stuck }
  run_receipt preview queue title (err why) = record { sent = []; answer = err why }
  run_receipt {Report = Report} preview queue title (ok r) =
      let spooled =
        spool submitter find_job (resolve_queue runner 2) (verify_queue runner)
          "CUPS status unknown; do not retry" title r.stream queue in
      let shown : Ran (Printed Report) = record {
        sent = [];
        answer =
            ok
              (printed_report preview r false (if is_empty queue then codes "auto" else queue, []));
      } in
      let printed : Ran (Printed Report) = record {
        sent = spooled.sent;
        answer = spooled.answer >>= λ done. ok (printed_report preview r true done);
      } in
      if preview then shown else printed

  -- `run` of giftprint behind `parseArgs`; `write_previews` is `writePreviews`.
  unfoldable pub run_gift :
      (GiftPlan → Result Bytes)
      → (GiftConfig → Bytes → Result (Unit {0}))
      → GiftConfig
      → Ran (Printed GiftReport)
  unfolding build_gift run_receipt
  run_gift paint write_previews c =
      run_receipt c.preview c.queue (codes "Twitch gift celebration: " ++ itoa c.total)
        (do r ← build_gift paint c; write_previews c r.gray; ok r)

  -- `run` of raidprint behind `parseArgs`; `write_preview` is the file of `PreviewPNG`.
  unfoldable pub run_raid :
      (Text → Text)
      → (List Centered → Result Bytes)
      → (Text → Bytes → Result (Unit {0}))
      → RaidConfig
      → Ran (Printed RaidReport)
  unfolding build_raid run_receipt
  run_raid to_upper paint write_preview c =
      run_receipt c.preview c.queue (codes "Twitch raid: " ++ c.channel) (do
        r ← build_raid to_upper paint c
        (if is_empty c.preview_png then ok tt else write_preview c.preview_png r.gray)
        ok r)
