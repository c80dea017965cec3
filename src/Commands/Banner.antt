-- ===== src/Commands/Banner.antt =====
-- `parseArgs`, `build`, `jobTitle`, `fontDisplayName` and `run` of Appliance/cmd/bannerprint/main.go.
-- The parsing of flags, the tables of unicode, the drawing with a font (banner.SupportsText, and
-- banner.PlanLines with banner.Render), the file of a preview and the hash are arguments. The report's
-- font size and inches, floats, are left out.
pub mod Laws
use rongta_f11_open.Base.{
  ℕ, ◌+◌, String, Bool, true, false, not, ◌&&◌, ◌||◌, List, [], ◌∷◌, ◌++◌, ltb, ◌==◌, if◌then◌else◌,
  length, Bytes, Option, Result, ok, err, panic, stuck, new, ◌>>=◌, ◌>>◌, fail_if,
}
use rongta_f11_open.Text.{Text, codes, is_empty, text_equal, rune_length, byte_length, fields, join}
use rongta_f11_open.Commands.Queue.{
  Runner, matches_queue, resolve_banner_queue, verify_banner_queue,
}
use rongta_f11_open.Commands.Crop.{crop_to_ink}
use rongta_f11_open.Commands.Stream.{build_stream}
use rongta_f11_open.Commands.Spool.{Submitter, Ran, spool}

pub data FontStyle : Type 0 where
  font_go_bold font_comic_sans : FontStyle

pub record Config : Type 0 where
  pub queue : Text
  pub preview_png : Text
  pub line_count : ℕ
  pub font : FontStyle
  pub preview : Bool
  pub text : Text

pub record BannerReport : Type 0 where
  pub preview : Bool
  pub queue : Text
  pub lines : List Text
  pub font : FontStyle
  pub font_name : String
  pub width_dots : ℕ
  pub rows : ℕ
  pub bytes : ℕ
  pub sha256 : Text
  pub submitted : Bool
  pub job_id : Text

-- What package flag makes of the arguments.
pub record Flags : Type 0 where
  pub queue : Text
  pub lines : Text
  pub font : Text
  pub preview : Bool
  pub preview_png : Text
  pub args : List Text

abbrev pub line_count_of : Text → Result ℕ
line_count_of lines =
    if text_equal lines (codes "auto")
    then ok 0
    else if text_equal lines (codes "1")
    then ok 1
    else if text_equal lines (codes "2")
    then ok 2
    else if text_equal lines (codes "3")
    then ok 3
    else err (new "lines must be auto, 1, 2, or 3")

abbrev pub font_of : Text → Result FontStyle
font_of name =
    if text_equal name (codes "bold")
    then ok font_go_bold
    else if text_equal name (codes "comic-sans")
    then ok font_comic_sans
    else err (new "font must be bold or comic-sans")

module _ (is_print is_mark : ℕ → Bool) where
  -- The loop over the runes of the text.
  unfoldable pub all_supported : Text → Bool
  all_supported [] = true
  all_supported (r ∷ rs) = (is_print r && not (is_mark r)) && all_supported rs

  unfoldable pub parse_args :
      (List Text → Text → Result Flags)
      → (Text → Bool)
      → (FontStyle → Text → Bool)
      → List Text
      → Text
      → Result Config
  unfolding all_supported
  parse_args parse_flags valid_utf8 supports_text args env_queue = do
    f ← parse_flags args env_queue
    fail_if (not (is_empty f.queue) && not (matches_queue f.queue)) "invalid queue"
    count ← line_count_of f.lines
    style ← font_of f.font
    fail_if (not f.preview && not (is_empty f.preview_png)) "preview-png requires preview"
    let raw = join f.args (32 ∷ [])
    fail_if (not (valid_utf8 raw)) "text must be valid UTF-8"
    fail_if (not (all_supported raw))
        "text contains unsupported control, format, or combining characters"
    let text = join (fields raw) (32 ∷ [])
    fail_if (is_empty text || (ltb 256 (byte_length text) || ltb 16 (length (fields text))))
        "text must contain 1 to 256 bytes and at most 16 words"
    fail_if (not (supports_text style text)) "selected font does not support every character"
    ok (record {
      queue = f.queue;
      preview_png = f.preview_png;
      line_count = count;
      font = style;
      preview = f.preview;
      text = text;
    })

-- `fontDisplayName`.
unfoldable pub font_display_name : FontStyle → String
font_display_name font_comic_sans = "Comic Neue Bold (Comic Sans style, SIL OFL 1.1)"
font_display_name font_go_bold = "Go Bold"

-- The loop of `jobTitle`.
unfoldable pub title_loop : Text → Text → Text
title_loop title [] = title
title_loop title (r ∷ rs) =
    let longer = title_loop (title ++ (r ∷ [])) rs in
    if ltb 80 (byte_length title + rune_length r) then title else longer

unfoldable pub job_title : Text → Text
unfolding title_loop
job_title text = title_loop (codes "bannerprint: ") text

-- The stream, the lines of the layout, and the number of rows.
unfoldable pub build :
    (Config → Result (List Text × Bytes))
    → (Text → Bytes → ℕ → Result (Unit {0}))
    → Config
    → Result (Bytes × List Text × ℕ)
build draw write_preview c = do
  (lines, page) ← draw c
  (gray, rows) ← crop_to_ink page 1664 3045
  stream ← build_stream gray rows
  (if is_empty c.preview_png then ok tt else write_preview c.preview_png gray rows)
  ok (stream, lines, rows)

module _ (draw : Config → Result (List Text × Bytes))
    (write_preview : Text → Bytes → ℕ → Result (Unit {0})) (sha256 : Bytes → Text) (runner : Runner)
    (submitter : Submitter) (find_job : Text → Option Text) where
  abbrev pub banner_report : Config → Bytes × List Text × ℕ → Bool → Text × Text → BannerReport
  banner_report c (stream, lines, rows) submitted (queue, job) = record {
    preview = c.preview;
    queue = queue;
    lines = lines;
    font = c.font;
    font_name = font_display_name c.font;
    width_dots = 1664;
    rows = rows;
    bytes = length stream;
    sha256 = sha256 stream;
    submitted = submitted;
    job_id = job;
  }

  -- `run` behind `build`.
  unfoldable pub run_built : Config → Result (Bytes × List Text × ℕ) → Ran BannerReport
  run_built c panic = record { sent = []; answer = panic }
  run_built c stuck = record { sent = []; answer = stuck }
  run_built c (err why) = record { sent = []; answer = err why }
  run_built c (ok (stream, lines, rows)) =
      let spooled =
        spool submitter find_job (resolve_banner_queue runner) (verify_banner_queue runner)
          "CUPS submission status unknown; do not retry automatically" (job_title c.text) stream
          c.queue in
      let shown : Ran BannerReport = record {
        sent = [];
        answer = ok (
            banner_report c (stream, lines, rows) false
              (if is_empty c.queue then codes "auto" else c.queue, []));
      } in
      let printed : Ran BannerReport = record {
        sent = spooled.sent;
        answer = spooled.answer >>= λ done. ok (banner_report c (stream, lines, rows) true done);
      } in
      if c.preview then shown else printed

  -- `run` behind `parseArgs`.
  unfoldable pub run_config : Result Config → Ran BannerReport
  unfolding run_built build
  run_config panic = record { sent = []; answer = panic }
  run_config stuck = record { sent = []; answer = stuck }
  run_config (err why) = record { sent = []; answer = err why }
  run_config (ok c) = run_built c (build draw write_preview c)
