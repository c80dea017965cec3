-- ===== src/Twitch/Process.antt =====
-- The processors of Appliance/internal/twitchbanner/twitchbanner.go, twitchgift/print.go and
-- twitchraid/print.go: an event is reserved in the journal, printed, and noted as submitted. How the
-- two writes end and what Print returns are arguments.
pub mod Once
pub mod Run
use rongta_f11_open.Base.{
  ℕ, String, Bool, true, false, not, ◌&&◌, List, [], ◌∷◌, ◌++◌, if◌then◌else◌, length, Option, none,
  some, Error, wrapped, Result, ok, err, panic, stuck, ◌>>=◌,
}
use rongta_f11_open.Text.{Text, codes, has_prefix, itoa}
use rongta_f11_open.Gift.{Celebration}
use rongta_f11_open.Twitch.Raid.{RaidEvent}
use rongta_f11_open.Twitch.Journal.{Journal, Append, reserve_event, submitted}
use rongta_f11_open.Twitch.Cheer.{Unicode, Envelope, prepare_cheer}

-- What a call of Process leaves behind: the journal, the calls of Print, and what it returns.
pub record Done {ℓ κ} (Order : Type ℓ) (Value : Type κ) : Type (ℓ ⊔ κ) where
  pub journal : Journal
  pub orders : List Order
  pub answer : Result Value

-- How far an event gets.
pub data Stage : Type 0 where
  refused : Error → Stage
  duplicate : Stage
  print_failed : Error → Stage
  noted : Text → Stage
  unnoted : Text → Error → Stage

-- The part that the three processors share, behind Reserve.
unfoldable pub note_print : Append → Text → Text → Result Text → Journal → Journal × Result Stage
unfolding submitted
note_print submitting id summary panic j = (j, panic)
note_print submitting id summary stuck j = (j, stuck)
note_print submitting id summary (err why) j = (j, ok (print_failed why))
note_print submitting id summary (ok job) j =
    let (j1, failed) = submitted submitting id job summary j in
    (j1, elim failed [ none ↦ ok (noted job) | some why ↦ ok (unnoted job why) ])

-- What follows the answer of Reserve.
unfoldable pub print_reserved {ℓ} :
    {Order : Type ℓ} (submitting : Append) (id summary : Text) (order : Order)
    → (print : Order → Result Text) → Journal
    → Result Bool
    → Done Order Stage
unfolding note_print
print_reserved submitting id summary order print j panic = record {
  journal = j;
  orders = [];
  answer = panic;
}
print_reserved submitting id summary order print j stuck = record {
  journal = j;
  orders = [];
  answer = stuck;
}
print_reserved submitting id summary order print j (err why) = record {
  journal = j;
  orders = [];
  answer = ok (refused why);
}
print_reserved submitting id summary order print j (ok false) = record {
  journal = j;
  orders = [];
  answer = ok duplicate;
}
print_reserved submitting id summary order print j (ok true) =
    let (j1, stage) = note_print submitting id summary (print order) j in
    record { journal = j1; orders = order ∷ []; answer = stage }

unfoldable pub process_event {ℓ} :
    {Order : Type ℓ} (reserving submitting : Append) (id : Text) (amount : ℕ)
    → (user text summary : Text) (order : Order) → (print : Order → Result Text) → Journal
    → Done Order Stage
unfolding reserve_event print_reserved
process_event reserving submitting id amount user text summary order print j =
    let (j1, reserved) = reserve_event reserving id amount user text j in
    print_reserved submitting id summary order print j1 reserved

-- `ProcessResult` of twitchbanner, and of twitchgift and twitchraid.
pub record ProcessResult : Type 0 where
  pub duplicate : Bool
  pub submitted : Bool
  pub job_id : Text
  pub text : Text

pub record JobResult : Type 0 where
  pub duplicate : Bool
  pub submitted : Bool
  pub job_id : Text

abbrev pub cheer_answer : Text → Stage → ProcessResult × Option Error
cheer_answer text (refused why) =
    (record { duplicate = false; submitted = false; job_id = []; text = [] }, some why)
cheer_answer text duplicate =
    (record { duplicate = true; submitted = false; job_id = []; text = [] }, none)
cheer_answer text (print_failed why) = (
  record { duplicate = false; submitted = false; job_id = []; text = text },
  some (wrapped "print status unknown; event is reserved and will not be retried" why),
)
cheer_answer text (noted job) =
    (record { duplicate = false; submitted = true; job_id = job; text = text }, none)
cheer_answer text (unnoted job why) =
    (record { duplicate = false; submitted = true; job_id = job; text = text }, some why)

abbrev pub job_answer : String → Stage → JobResult × Option Error
job_answer message (refused why) =
    (record { duplicate = false; submitted = false; job_id = [] }, some why)
job_answer message duplicate = (record { duplicate = true; submitted = false; job_id = [] }, none)
job_answer message (print_failed why) =
    (record { duplicate = false; submitted = false; job_id = [] }, some (wrapped message why))
job_answer message (noted job) =
    (record { duplicate = false; submitted = true; job_id = job }, none)
job_answer message (unnoted job why) =
    (record { duplicate = false; submitted = true; job_id = job }, some why)

-- `!strings.HasPrefix(id, "testgift:")`
unfoldable pub gift_id : Text → Text
gift_id id = if has_prefix id (codes "testgift:") then id else codes "gift:" ++ id

unfoldable pub gift_summary : Celebration → Text
gift_summary c =
    itoa c.total
    ++ (codes " gift subs; "
        ++ (itoa (length c.recipients)
            ++ (codes " named; " ++ (itoa c.missing ++ codes " missing"))))

unfoldable pub raid_note : RaidEvent → Text
raid_note e = codes "raid viewers=" ++ itoa e.viewers

module _ (reserving submitting : Append) where
  unfoldable pub process_cheer :
      Unicode → (Text → Result Text) → Envelope → Journal → Done Text (ProcessResult × Option Error)
  unfolding process_event prepare_cheer
  process_cheer u print env j =
      let d = prepare_cheer u env.cheer in
      let done =
        process_event reserving submitting env.message_id env.cheer.bits env.cheer.user_name
          env.cheer.message d.text d.text print j in
      let nothing : ProcessResult = record {
        duplicate = false;
        submitted = false;
        job_id = [];
        text = [];
      } in
      if not d.qualifies
      then record { journal = j; orders = []; answer = ok (nothing, none) }
      else record {
        journal = done.journal;
        orders = done.orders;
        answer = done.answer >>= λ s. ok (cheer_answer d.text s);
      }

  unfoldable pub process_gift :
      (Celebration → Result Text)
      → Celebration
      → Journal
      → Done Celebration (JobResult × Option Error)
  unfolding process_event gift_id gift_summary
  process_gift print c j =
      let done =
        process_event reserving submitting (gift_id c.community_id) c.total c.gifter
          (gift_summary c) (gift_summary c) c print j in
      record {
        journal = done.journal;
        orders = done.orders;
        answer = done.answer >>= λ s.
            ok (job_answer "print status unknown; gift is reserved and will not be retried" s);
      }

  unfoldable pub process_raid :
      (RaidEvent → Result Text) → RaidEvent → Journal → Done RaidEvent (JobResult × Option Error)
  unfolding process_event raid_note
  process_raid print e j =
      let done =
        process_event reserving submitting e.message_id e.viewers e.channel (raid_note e)
          (e.channel ++ (32 ∷ raid_note e)) e print j in
      record {
        journal = done.journal;
        orders = done.orders;
        answer = done.answer >>= λ s. ok (job_answer "raid is reserved and will not be retried" s);
      }
