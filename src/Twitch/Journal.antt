-- ===== src/Twitch/Journal.antt =====
-- `Journal` of Appliance/internal/twitchbanner/twitchbanner.go: the ids of the events that were
-- reserved for printing, in memory and in a file of one JSON entry a line.
pub mod Laws
use rongta_f11_open.Base.{
  ℕ, zero, suc, ◌+◌, Bool, true, false, not, ◌&&◌, ◌||◌, List, [], ◌∷◌, ◌++◌, if◌then◌else◌, Option,
  none, some, Error, new, errorf, Result, ok, err, panic, stuck, ◌>>=◌, ◌>>◌,
}
use rongta_f11_open.Text.{Text, codes, is_empty, text_equal}

pub record JournalEntry : Type 0 where
  pub event_id : Text
  pub state : Text
  pub bits : ℕ
  pub user : Text
  pub text : Text
  pub job_id : Text

-- A line of the file: empty but for spaces, no JSON entry, or an entry. The last line may lack its
-- newline: it is a part of an entry, or all of it.
pub data Line : Type 0 where
  blank malformed unfinished : Line
  entry unended : JournalEntry → Line

-- `file` is what stands at `path`, and `seen` the map of that name.
pub record Journal : Type 0 where
  pub seen : List Text
  pub file : List Line

-- What opening and reading the file gives: no file, an error, or its lines and then perhaps an error.
pub data Opened : Type 0 where
  missing : Opened
  unopened : Error → Opened
  broken_off : List Line → Error → Opened
  complete : List Line → Opened

unfoldable pub is_seen : Text → List Text → Bool
is_seen x [] = false
is_seen x (y ∷ ys) = text_equal x y || is_seen x ys

unfoldable pub is_refused : JournalEntry → Bool
is_refused e =
    is_empty e.event_id
    || (not (text_equal e.state (codes "reserved")) && not (text_equal e.state (codes "submitted")))

-- The loop over the lines; `line` counts those read before.
unfoldable pub read_lines : ℕ → List Line → List Text → Result (List Text)
unfolding is_refused
read_lines line [] seen = ok seen
read_lines line (blank ∷ lines) seen =
    err (errorf "journal line is empty; refusing to start" (line + 1))
read_lines line (malformed ∷ lines) seen =
    err (errorf "journal line is malformed; refusing to start" (line + 1))
read_lines line (unfinished ∷ lines) seen =
    err (errorf "journal line is malformed; refusing to start" (line + 1))
read_lines line (unended e ∷ lines) seen =
    let rest = read_lines (line + 1) lines (e.event_id ∷ seen) in
    if is_refused e
    then err (errorf "journal line is malformed; refusing to start" (line + 1))
    else rest
read_lines line (entry e ∷ lines) seen =
    let rest = read_lines (line + 1) lines (e.event_id ∷ seen) in
    if is_refused e
    then err (errorf "journal line is malformed; refusing to start" (line + 1))
    else rest

unfoldable pub open_journal : Opened → Result Journal
unfolding read_lines
open_journal missing = ok (record { seen = []; file = [] })
open_journal (unopened e) = err e
open_journal (broken_off lines e) = do read_lines 0 lines []; err e
open_journal (complete lines) = do
  seen ← read_lines 0 lines []
  ok (record { seen = seen; file = lines })

-- What is written stands behind an unended last line, and the two are no entry.
abbrev pub behind_part : Line → Line
behind_part blank = unfinished
behind_part malformed = malformed
behind_part unfinished = unfinished
behind_part (entry e) = malformed
behind_part (unended e) = unfinished

unfoldable pub put_line : Line → List Line → List Line
put_line l [] = l ∷ []
put_line l (blank ∷ lines) = blank ∷ put_line l lines
put_line l (malformed ∷ lines) = malformed ∷ put_line l lines
put_line l (unfinished ∷ lines) = behind_part l ∷ lines
put_line l (entry e ∷ lines) = entry e ∷ put_line l lines
put_line l (unended e ∷ lines) = behind_part l ∷ lines

-- How an append ends: before a byte is written, within the entry, before its newline, unsynced, or
-- well.
pub data Append : Type 0 where
  unwritten torn newline_lost unsynced : Error → Append
  synced : Append

unfoldable pub append : Append → JournalEntry → Journal → Journal × Option Error
unfolding put_line
append (unwritten why) e j = (j, some why)
append (torn why) e j = (record j { file = put_line unfinished j.file }, some why)
append (newline_lost why) e j = (record j { file = put_line (unended e) j.file }, some why)
append (unsynced why) e j = (record j { file = put_line (entry e) j.file }, some why)
append synced e j = (record j { file = put_line (entry e) j.file }, none)

-- The append in `ReserveEvent`, and what follows it.
unfoldable pub reserve_new : Append → JournalEntry → Journal → Journal × Result Bool
unfolding append
reserve_new how e j =
    let (j1, failed) = append how e j in
    elim failed [
      | some why ↦ (j1, err why)
      | none ↦ (record j1 { seen = e.event_id ∷ j1.seen }, ok true)
    ]

unfoldable pub reserve_event : Append → Text → ℕ → Text → Text → Journal → Journal × Result Bool
unfolding reserve_new is_seen
reserve_event how id amount user text j =
    let e : JournalEntry = record {
      event_id = id;
      state = codes "reserved";
      bits = amount;
      user = user;
      text = text;
      job_id = [];
    } in
    if is_empty id
    then (j, err (new "missing Twitch event ID"))
    else if is_seen id j.seen
    then (j, ok false)
    else reserve_new how e j

-- `Submitted`.
unfoldable pub submitted : Append → Text → Text → Text → Journal → Journal × Option Error
unfolding append
submitted how id job text j =
    append how
      (record {
        event_id = id;
        state = codes "submitted";
        bits = 0;
        user = [];
        text = text;
        job_id = job;
      })
      j
