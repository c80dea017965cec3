-- ===== src/Commands/Receipts/Laws.antt =====
-- What giftprint and raidprint print.
use rongta_f11_open.Base.{
  ℕ, ◌*◌, ◌≡◌, ◌∙◌, refl, sym, subst, ap, ◌++◌, Bool, true, false, List, Bytes, Option, Result, ok,
  err, panic, stuck, ◌>>=◌, ◌>>◌, >>=-eq-ok, arith, if◌then◌else◌, length, inl, inr, Bool-cases,
}
use rongta_f11_open.Text.{Text, codes, is_empty, itoa}
use rongta_f11_open.Protocol.Job.{encode_native_job}
use rongta_f11_open.Pages.Gift.{
  GiftReport, GiftPlan, GiftPage, render_gift, plan_gift, clean, clean_names,
}
use rongta_f11_open.Pages.Gift
use rongta_f11_open.Pages.Raid
use rongta_f11_open.Pages.Raid.{Centered, RaidReport, render_raid, plan_raid}
use rongta_f11_open.Commands.Queue.{Runner, is_queue, resolve_queue, verify_queue}
use rongta_f11_open.Commands.Queue.Laws.{
  resolve_queue-resolve_banner_queue, resolve_banner_queue-eq-ok,
}
use rongta_f11_open.Commands.Stream.{print_settings, build_stream, build_raid_stream}
use rongta_f11_open.Commands.Stream.Laws.{build_stream_lem}
use rongta_f11_open.Commands.Spool.{Submitter, Submission, lp_args}
use rongta_f11_open.Commands.Spool.Laws.{IsSpooled, AtMostOne, AtMostOne-weaken, spool-sent}
use rongta_f11_open.Commands.Receipts.{
  GiftConfig, RaidConfig, Receipt, build_gift, build_raid, run_receipt, run_gift, run_raid,
}

-- A call of lp for a receipt: no preview, a queue of the printer that was verified, and the stream of
-- EncodeNativeJob for the page.
pub record IsReceiptCall (runner : Runner) (preview : Bool) (title : Text) (gray : Bytes)
    (s : Submission) : Type 0 where
  pub not_preview : preview ≡ false
  pub queue : Text
  pub known : is_queue queue ≡ true
  pub verified : verify_queue runner queue ≡ ok tt
  pub called : s.args ≡ lp_args queue title
  pub encoded : encode_native_job gray 1664 2233 print_settings ≡ ok s.stream

abbrev OnReceipt {ℓ} : {Report : Type ℓ} → Result (Receipt Report) → Type 0
OnReceipt (ok r) = encode_native_job r.gray 1664 2233 print_settings ≡ ok r.stream
OnReceipt (err why) = Unit {0}
OnReceipt panic = Unit {0}
OnReceipt stuck = Unit {0}

-- A stream that was checked is that of EncodeNativeJob.
built_as :
    (gray : Bytes) {stream : Bytes} (build : Bytes → ℕ → Result Bytes) {made : Bytes}
    → build gray 2233 ≡ ok made
    → encode_native_job gray 1664 2233 print_settings ≡ ok made
    → build gray 2233 ≡ ok stream
    → encode_native_job gray 1664 2233 print_settings ≡ ok stream
built_as gray {stream} build {made} e coded e' =
    let same : made ≡ stream = ground arith in coded ∙ ap ok same

build_stream-encoded :
    (gray : Bytes) {stream : Bytes}
    → length gray ≡ 1664 * 2233
    → build_stream gray 2233 ≡ ok stream
    → encode_native_job gray 1664 2233 print_settings ≡ ok stream
build_stream-encoded gray size e =
    let (_, coded, made, _, _) = build_stream_lem gray 2233 (omega arith) (omega arith) size in
    built_as gray build_stream made coded e

build_raid_stream-encoded :
    (gray : Bytes) {stream : Bytes}
    → length gray ≡ 1664 * 2233
    → build_raid_stream gray 2233 ≡ ok stream
    → encode_native_job gray 1664 2233 print_settings ≡ ok stream
build_raid_stream-encoded gray size e =
    let (_, coded, _, made, _) = build_stream_lem gray 2233 (omega arith) (omega arith) size in
    built_as gray build_raid_stream made coded e

-- The pages have as many pixels as the paper asks.
abbrev OnPage {ℓ} : {Report : Type ℓ} → Result (Bytes × Report) → Type 0
OnPage (ok (gray, report)) = length gray ≡ 1664 * 2233
OnPage (err why) = Unit {0}
OnPage panic = Unit {0}
OnPage stuck = Unit {0}

gift-size :
    (paint : GiftPlan → Result Bytes)
    → ((p : GiftPlan) (gray : Bytes) → paint p ≡ ok gray → length gray ≡ 1664 * 2233)
    → (c : GiftPage) {gray : Bytes} {report : GiftReport} → render_gift paint c ≡ ok (gray, report)
    → length gray ≡ 1664 * 2233
unfolding render_gift
gift-size paint paints c e = elim (Bool-cases (Gift.is_bad c)) [
  | inl bad ↦ absurd (let e' = rw bad at e in ground arith)
  | inr good ↦
      let (gray, painted, e2) =
        >>=-eq-ok (paint (plan_gift c (clean c.gifter) (clean_names c.recipients))) _
          (rw good at e) in
      subst OnPage e2 (paints _ gray painted)
]

raid-size :
    (to_upper : Text → Text) (paint : List Centered → Result Bytes)
    → ((p : List Centered) (gray : Bytes) → paint p ≡ ok gray → length gray ≡ 1664 * 2233)
    → (name : Text) (viewers : ℕ) {gray : Bytes} {report : RaidReport}
    → render_raid to_upper paint name viewers ≡ ok (gray, report)
    → length gray ≡ 1664 * 2233
unfolding render_raid
raid-size to_upper paint paints name viewers e = elim (Bool-cases (Raid.is_bad name viewers)) [
  | inl bad ↦ absurd (let e' = rw bad at e in ground arith)
  | inr good ↦
      let (gray, painted, e2) =
        >>=-eq-ok (paint (plan_raid to_upper (Raid.clean name) viewers)) _ (rw good at e) in
      subst OnPage e2 (paints _ gray painted)
]

gift-encoded :
    (paint : GiftPlan → Result Bytes)
    → ((p : GiftPlan) (gray : Bytes) → paint p ≡ ok gray → length gray ≡ 1664 * 2233)
    → (c : GiftConfig) {r : Receipt GiftReport} → build_gift paint c ≡ ok r
    → encode_native_job r.gray 1664 2233 print_settings ≡ ok r.stream
unfolding build_gift
gift-encoded paint paints c e =
    let ((gray, report), drawn, e1) = >>=-eq-ok (render_gift paint _) _ e in
    let (stream, made, e2) = >>=-eq-ok (build_stream gray 2233) _ e1 in
    subst OnReceipt e2 (build_stream-encoded gray (gift-size paint paints _ drawn) made)

raid-encoded :
    (to_upper : Text → Text) (paint : List Centered → Result Bytes)
    → ((p : List Centered) (gray : Bytes) → paint p ≡ ok gray → length gray ≡ 1664 * 2233)
    → (c : RaidConfig) {r : Receipt RaidReport} → build_raid to_upper paint c ≡ ok r
    → encode_native_job r.gray 1664 2233 print_settings ≡ ok r.stream
unfolding build_raid
raid-encoded to_upper paint paints c e =
    let ((gray, report), drawn, e1) = >>=-eq-ok (render_raid to_upper paint _ _) _ e in
    let (stream, made, e2) = >>=-eq-ok (build_raid_stream gray 2233) _ e1 in
    subst OnReceipt e2
      (build_raid_stream-encoded gray (raid-size to_upper paint paints _ _ drawn) made)

call_lem {ℓ} :
    {Report : Type ℓ} (runner : Runner) (queue title : Text) (r : Receipt Report)
    → OnReceipt (ok r)
    → (s : Submission)
    → IsSpooled (resolve_queue runner 2) (verify_queue runner) title r.stream queue s
    → IsReceiptCall runner false title r.gray s
call_lem runner queue title r coded s k = record {
  not_preview = refl;
  queue = k.found;
  known =
      resolve_banner_queue-eq-ok runner queue
        (resolve_queue-resolve_banner_queue runner queue k.found k.resolved);
  verified = k.verified;
  called = k.called;
  encoded = coded ∙ ap ok (sym k.streamed);
}

-- A receipt that is built, and whose preview is written where one is asked for.
abbrev with_preview :
    {Report : Type 0}
    → Result (Receipt Report)
    → (Receipt Report → Result (Unit {0}))
    → Result (Receipt Report)
with_preview built write = do r ← built; write r; ok r

with_preview-eq-ok :
    {Report : Type 0} (built : Result (Receipt Report)) (write : Receipt Report → Result (Unit {0}))
    {r : Receipt Report}
    → with_preview built write ≡ ok r
    → built ≡ ok r
with_preview-eq-ok built write e =
    let (r', made, e1) = >>=-eq-ok built _ e in
    let (_, _, e2) = >>=-eq-ok (write r') _ e1 in made ∙ e2

module _ (sha256 : Bytes → Text) (runner : Runner) (submitter : Submitter)
    (find_job : Text → Option Text) where
  run_receipt-sent :
      {Report : Type 0} (preview : Bool) (queue title : Text) (r : Result (Receipt Report))
      → ((done : Receipt Report) → r ≡ ok done → OnReceipt (ok done))
      → AtMostOne
          (λ s.
            (done : Receipt Report) × (r ≡ ok done)
            × IsReceiptCall runner preview title done.gray s)
          (run_receipt sha256 runner submitter find_job preview queue title r).sent
  unfolding run_receipt
  run_receipt-sent preview queue title panic h = tt
  run_receipt-sent preview queue title stuck h = tt
  run_receipt-sent preview queue title (err why) h = tt
  run_receipt-sent true queue title (ok r) h = tt
  run_receipt-sent {Report} false queue title (ok r) h =
      AtMostOne-weaken
        {P = IsSpooled (resolve_queue runner 2) (verify_queue runner) title r.stream queue}
        {Q = λ s.
          (done : Receipt Report) × (◌≡◌ {A = Result (Receipt Report)} (ok r) (ok done))
          × IsReceiptCall runner false title done.gray s}
        (λ s k. (r, refl, call_lem runner queue title r (h r refl) s k)) _
        (spool-sent submitter find_job (resolve_queue runner 2) (verify_queue runner) _ title
          r.stream queue)

  -- If the painting gives pages of 1664 times 2233 pixels: giftprint calls lp at most once and never
  -- for a preview, for a queue of the printer that was verified, and with the stream of EncodeNativeJob
  -- for the page that was built.
  pub run_gift-sent :
      (paint : GiftPlan → Result Bytes) (write_previews : GiftConfig → Bytes → Result (Unit {0}))
      (c : GiftConfig)
      → ((p : GiftPlan) (gray : Bytes) → paint p ≡ ok gray → length gray ≡ 1664 * 2233)
      → AtMostOne
          (λ s.
            (r : Receipt GiftReport) × (build_gift paint c ≡ ok r)
            × IsReceiptCall runner c.preview
                (codes "Twitch gift celebration: " ++ itoa c.total)
                r.gray
                s)
          (run_gift sha256 runner submitter find_job paint write_previews c).sent
  unfolding run_gift
  run_gift-sent paint write_previews c paints =
      let built = build_gift paint c in
      let write : Receipt GiftReport → Result (Unit {0}) = λ r. write_previews c r.gray in
      let title = codes "Twitch gift celebration: " ++ itoa c.total in
      AtMostOne-weaken
        {P = λ s.
          (r : Receipt GiftReport) × (with_preview built write ≡ ok r)
          × IsReceiptCall runner c.preview title r.gray s}
        {Q = λ s.
          (r : Receipt GiftReport) × (built ≡ ok r) × IsReceiptCall runner c.preview title r.gray s}
        (λ s k. (k.0, with_preview-eq-ok built write k.1, k.2)) _
        (run_receipt-sent c.preview c.queue title (with_preview built write)
          (λ r e. gift-encoded paint paints c (with_preview-eq-ok built write e)))

  -- If the painting gives pages of 1664 times 2233 pixels: raidprint calls lp at most once and never
  -- for a preview, for a queue of the printer that was verified, and with the stream of EncodeNativeJob
  -- for the page that was built.
  pub run_raid-sent :
      (to_upper : Text → Text) (paint : List Centered → Result Bytes)
      (write_preview : Text → Bytes → Result (Unit {0})) (c : RaidConfig)
      → ((p : List Centered) (gray : Bytes) → paint p ≡ ok gray → length gray ≡ 1664 * 2233)
      → AtMostOne
          (λ s.
            (r : Receipt RaidReport) × (build_raid to_upper paint c ≡ ok r)
            × IsReceiptCall runner c.preview (codes "Twitch raid: " ++ c.channel) r.gray s)
          (run_raid sha256 runner submitter find_job to_upper paint write_preview c).sent
  unfolding run_raid
  run_raid-sent to_upper paint write_preview c paints =
      let built = build_raid to_upper paint c in
      let write : Receipt RaidReport → Result (Unit {0}) =
        λ r. if is_empty c.preview_png then ok tt else write_preview c.preview_png r.gray in
      let title = codes "Twitch raid: " ++ c.channel in
      AtMostOne-weaken
        {P = λ s.
          (r : Receipt RaidReport) × (with_preview built write ≡ ok r)
          × IsReceiptCall runner c.preview title r.gray s}
        {Q = λ s.
          (r : Receipt RaidReport) × (built ≡ ok r) × IsReceiptCall runner c.preview title r.gray s}
        (λ s k. (k.0, with_preview-eq-ok built write k.1, k.2)) _
        (run_receipt-sent c.preview c.queue title (with_preview built write)
          (λ r e. raid-encoded to_upper paint paints c (with_preview-eq-ok built write e)))
