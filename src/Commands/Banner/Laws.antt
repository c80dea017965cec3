-- ===== src/Commands/Banner/Laws.antt =====
-- What bannerprint prints.
use rongta_f11_open.Base.{
  ℕ, ◌+◌, ◌*◌, ◌≤◌, ◌≡◌, refl, sym, ap, ◌∙◌, subst, inl, inr, true, false, List, [], ◌∷◌, ◌++◌, ltb,
  if◌then◌else◌, length, Bytes, Option, Result, ok, err, panic, stuck, >>=-eq-ok, arith, Bool-cases,
}
use rongta_f11_open.Text.{Text, codes, is_empty, rune_length, byte_length}
use rongta_f11_open.Text.Fields.{byte_length-append}
use rongta_f11_open.Protocol.Job.{encode_native_job}
use rongta_f11_open.Commands.Queue.{Runner, is_queue, resolve_banner_queue, verify_banner_queue}
use rongta_f11_open.Commands.Queue.Laws.{resolve_banner_queue-eq-ok}
use rongta_f11_open.Commands.Crop.{crop_to_ink}
use rongta_f11_open.Commands.Crop.Laws.{IsCrop, crop_to_ink-IsCrop}
use rongta_f11_open.Commands.Stream.{print_settings, build_stream}
use rongta_f11_open.Commands.Stream.Laws.{build_stream_lem}
use rongta_f11_open.Commands.Spool.{Submitter, Submission, lp_args}
use rongta_f11_open.Commands.Spool.Laws.{
  IsSpooled, AtMostOne, AtMostOne-weaken, AtMostOne-if, spool-sent,
}
use rongta_f11_open.Commands.Banner.{Config, title_loop, job_title, build, run_built, run_config}

title_loop-short :
    (title text : Text) → byte_length title ≤ 80 → byte_length (title_loop title text) ≤ 80
unfolding title_loop
title_loop-short title [] h = h
title_loop-short title (r ∷ rs) h = elim (Bool-cases (ltb 80 (byte_length title + rune_length r))) [
  | inl full ↦ rw full h
  | inr room ↦
      rw room (
        title_loop-short (title ++ (r ∷ [])) rs (ground (arith, byte_length-append title (r ∷ []))))
]

pub job_title-short : (text : Text) → byte_length (job_title text) ≤ 80
unfolding job_title
job_title-short text = title_loop-short (codes "bannerprint: ") text (omega arith)

-- The stream of a banner: the part of the drawn page that holds its ink, as EncodeNativeJob codes it.
pub record IsBuilt (draw : Config → Result (List Text × Bytes)) (c : Config) (stream : Bytes)
    (lines : List Text) (rows : ℕ) : Type 0 where
  pub page : Bytes
  pub drawn : draw c ≡ ok (lines, page)
  pub start : ℕ
  pub gray : Bytes
  pub cropped : IsCrop page 3045 start rows gray
  pub encoded : encode_native_job gray 1664 rows print_settings ≡ ok stream

-- A call of lp for a banner.
pub record IsBannerCall (draw : Config → Result (List Text × Bytes)) (runner : Runner) (c : Config)
    (s : Submission) : Type 0 where
  pub not_preview : c.preview ≡ false
  pub queue : Text
  pub known : is_queue queue ≡ true
  pub verified : verify_banner_queue runner queue ≡ ok tt
  pub called : s.args ≡ lp_args queue (job_title c.text)
  pub lines : List Text
  pub rows : ℕ
  pub built : IsBuilt draw c s.stream lines rows

call_lem :
    {draw : Config → Result (List Text × Bytes)} {runner : Runner} (c : Config) (stream : Bytes)
    (lines : List Text) (rows : ℕ)
    → c.preview ≡ false
    → IsBuilt draw c stream lines rows
    → (s : Submission)
    → IsSpooled
        (resolve_banner_queue runner)
        (verify_banner_queue runner)
        (job_title c.text)
        stream
        c.queue
        s
    → IsBannerCall draw runner c s
call_lem {draw} {runner} c stream lines rows printing built s k = record {
  not_preview = printing;
  queue = k.found;
  known = resolve_banner_queue-eq-ok runner c.queue k.resolved;
  verified = k.verified;
  called = k.called;
  lines = lines;
  rows = rows;
  built = subst (λ t. IsBuilt draw c t lines rows) (sym k.streamed) built;
}

encoded_as :
    {stream stream' : Bytes} {r : Result Bytes} → stream' ≡ stream → r ≡ ok stream' → r ≡ ok stream
encoded_as same e = e ∙ ap ok same

module _ (draw : Config → Result (List Text × Bytes))
    (write_preview : Text → Bytes → ℕ → Result (Unit {0}))
    (draws : (c : Config) (lines : List Text) (page : Bytes)
      → draw c ≡ ok (lines, page)
      → length page ≡ 1664 * 3045) where
  build-IsBuilt :
      (c : Config) (stream : Bytes) (lines : List Text) (rows : ℕ)
      → build draw write_preview c ≡ ok (stream, lines, rows)
      → IsBuilt draw c stream lines rows
  unfolding build
  build-IsBuilt c stream lines rows e =
      let ((lines', page), drawn, e1) = >>=-eq-ok (draw c) _ e in
      let ((gray, rows'), cut, e2) = >>=-eq-ok (crop_to_ink page 1664 3045) _ e1 in
      let (stream', made, e3) = >>=-eq-ok (build_stream gray rows') _ e2 in
      let (_, _, e4) =
        >>=-eq-ok (if is_empty c.preview_png then ok tt else write_preview c.preview_png gray rows')
          _ e3 in
      let same_stream : stream' ≡ stream = ground arith in
      let same_lines : lines' ≡ lines = ground arith in
      let same_rows : rows' ≡ rows = ground arith in
      elim (crop_to_ink-IsCrop page 3045 (omega arith) (omega arith) (draws c lines' page drawn)) [
        | inr (refused, blank) ↦ absurd (ground arith)
        | inl (start, rows2, out, cut', crop) ↦
            let same_out : out ≡ gray = ground arith in
            let same_count : rows2 ≡ rows = ground arith in
            let crop' : IsCrop page 3045 start rows gray =
              subst (λ n. IsCrop page 3045 start n gray) same_count
                (subst (IsCrop page 3045 start rows2) same_out crop) in
            let within : start + rows ≤ 3045 = crop'.within in
            let (stream2, encoded, made', _, _) =
              build_stream_lem gray rows crop'.some_rows (omega arith) crop'.size in
            let made2 : build_stream gray rows ≡ ok stream =
              ap (build_stream gray) (sym same_rows) ∙ encoded_as same_stream made in
            let last : stream2 ≡ stream = ground arith in
            record {
              page = page;
              drawn = drawn ∙ ap (λ ls. ok (ls, page)) same_lines;
              start = start;
              gray = gray;
              cropped = crop';
              encoded = encoded_as last encoded;
            }
      ]

  module _ (sha256 : Bytes → Text) (runner : Runner) (submitter : Submitter)
      (find_job : Text → Option Text) where
    run_built-sent :
        (c : Config) (r : Result (Bytes × List Text × ℕ))
        → build draw write_preview c ≡ r
        → AtMostOne
            (IsBannerCall draw runner c)
            (run_built draw write_preview sha256 runner submitter find_job c r).sent
    unfolding run_built
    run_built-sent c panic e = tt
    run_built-sent c stuck e = tt
    run_built-sent c (err why) e = tt
    run_built-sent c (ok (stream, lines, rows)) e =
        AtMostOne-if (IsBannerCall draw runner c) c.preview _ _ (λ preview. tt)
          λ printing.
            AtMostOne-weaken
              (call_lem c stream lines rows printing (build-IsBuilt c stream lines rows e)) _
              (spool-sent submitter find_job (resolve_banner_queue runner)
                (verify_banner_queue runner) _ (job_title c.text) stream c.queue)

    -- If the drawing gives pages of 1664 times 3045 pixels: lp is called at most once, and only for
    -- arguments that are accepted and ask for no preview, for a queue of the printer that was verified,
    -- with a title of at most 80 bytes, and with the stream of EncodeNativeJob for a part of the drawn
    -- page that holds all its ink.
    pub run_config-sent :
        (r : Result Config)
        → AtMostOne
            (λ s.
              (c : Config) × (r ≡ ok c)
              × IsBannerCall draw runner c s
              × (byte_length (job_title c.text) ≤ 80))
            (run_config draw write_preview sha256 runner submitter find_job r).sent
    unfolding run_config
    run_config-sent panic = tt
    run_config-sent stuck = tt
    run_config-sent (err why) = tt
    run_config-sent (ok c) =
        AtMostOne-weaken {P = IsBannerCall draw runner c}
          {Q = λ s.
            (d : Config) × (◌≡◌ {A = Result Config} (ok c) (ok d))
            × IsBannerCall draw runner d s
            × (byte_length (job_title d.text) ≤ 80)}
          (λ s h. (c, refl, h, job_title-short c.text)) _
          (run_built-sent c (build draw write_preview c) refl)
