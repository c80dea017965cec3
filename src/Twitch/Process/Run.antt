-- ===== src/Twitch/Process/Run.antt =====
-- Runs of the three processors on one journal, with the process dying and starting again.
use rongta_f11_open.Base.{
  ℕ, ◌+◌, ◌≤◌, ◌<◌, ◌≡◌, refl, subst, inl, inr, Bool, true, false, not, List, [], ◌∷◌, ◌++◌, Option,
  some, none, Result, ok, err, panic, stuck, arith, Bool-cases, Option-cases, >>=-eq-ok,
}
use rongta_f11_open.Text.{Text}
use rongta_f11_open.Text.Count.{same_id, times, times-append}
use rongta_f11_open.Gift.{Celebration}
use rongta_f11_open.Twitch.Raid.{RaidEvent}
use rongta_f11_open.Twitch.Cheer.{Unicode, Envelope, prepare_cheer}
use rongta_f11_open.Twitch.Journal.{
  Journal, complete, Line, open_journal, read_lines, Append, submitted,
}
use rongta_f11_open.Twitch.Journal.Laws.{file_times, spoils, read_lines-IsRead}
use rongta_f11_open.Twitch.Process.{
  note_print, print_reserved, process_event, process_cheer, process_gift, process_raid, gift_id,
}
use rongta_f11_open.Twitch.Process.Once.{
  IsKept, IsKept-same, append-IsKept, granted, reserve_event-IsKept,
}

-- The id of an event, once for each call of Print.
abbrev pub printed {ℓ} : {Order : Type ℓ} → Text → List Order → List Text
printed id [] = []
printed id (o ∷ orders) = id ∷ printed id orders

note_print-IsKept :
    (how : Append) (id summary : Text) (answer : Result Text) (x : Text) (n : ℕ) (j : Journal)
    → IsKept x n j
    → IsKept x n (note_print how id summary answer j).0
unfolding note_print submitted
note_print-IsKept how id summary panic x n j k = k
note_print-IsKept how id summary stuck x n j k = k
note_print-IsKept how id summary (err why) x n j k = k
note_print-IsKept how id summary (ok job) x n j k = append-IsKept how _ x n j k

print_reserved-IsKept {ℓ} :
    {Order : Type ℓ} (how : Append) (id summary : Text) (order : Order)
    (print : Order → Result Text) (x : Text) (n : ℕ) (j : Journal) (r : Result Bool)
    → IsKept x (granted x id r + n) j
    → IsKept x
        (times x (printed id (print_reserved how id summary order print j r).orders) + n)
        (print_reserved how id summary order print j r).journal
unfolding print_reserved
print_reserved-IsKept how id summary order print x n j panic k = k
print_reserved-IsKept how id summary order print x n j stuck k = k
print_reserved-IsKept how id summary order print x n j (err why) k = k
print_reserved-IsKept how id summary order print x n j (ok false) k = k
print_reserved-IsKept how id summary order print x n j (ok true) k =
    IsKept-same (omega arith)
      (note_print-IsKept how id summary (print order) x (same_id x id + n) j k)

-- An event that is processed keeps the journal's count of the calls of Print.
process_event-IsKept {ℓ} :
    {Order : Type ℓ} (reserving submitting : Append) (id : Text) (amount : ℕ)
    (user text summary : Text) (order : Order) (print : Order → Result Text) (x : Text) (n : ℕ)
    (j : Journal)
    → IsKept x n j
    → IsKept x
        (times x (
            printed id
              (process_event reserving submitting id amount user text summary order print j).orders)
          + n)
        (process_event reserving submitting id amount user text summary order print j).journal
unfolding process_event
process_event-IsKept reserving submitting id amount user text summary order print x n j k =
    print_reserved-IsKept submitting id summary order print x n _ _
      (reserve_event-IsKept reserving id amount user text x n j k)

-- What happens to the program: an event with the ends of its two writes and the answer of Print, or
-- its death and a new start on the file as it then is.
pub data Act : Type 0 where
  cheered : Append → Append → (Text → Result Text) → Envelope → Act
  gifted : Append → Append → (Celebration → Result Text) → Celebration → Act
  raided : Append → Append → (RaidEvent → Result Text) → RaidEvent → Act
  restarted : Act

abbrev pub started : Result Journal → Option (Journal × List Text)
started (ok j) = some (j, [])
started (err why) = none
started panic = none
started stuck = none

abbrev KeptAfter : Text → ℕ → Option (Journal × List Text) → Type 0
KeptAfter x n none = Unit {0}
KeptAfter x n (some (j, ids)) = IsKept x (times x ids + n) j

-- A file that is read counts in memory what it counts.
pub open_journal-counts :
    (lines : List Line) {j : Journal} (x : Text)
    → open_journal (complete lines) ≡ ok j
    → (times x j.seen ≡ file_times x lines) × (j.file ≡ lines) × (spoils lines ≡ 0)
unfolding open_journal
open_journal-counts lines {j} x e =
    let (seen, read, made) = >>=-eq-ok (read_lines 0 lines []) _ e in
    let r = read_lines-IsRead 0 lines [] x read in
    let same : (record { seen = seen; file = lines }) ≡ j = ground arith in
    rw (← same) (omega (arith, r.counted), refl, r.whole)

restart-IsKept :
    (x : Text) (n : ℕ) (j : Journal) (r : Result Journal)
    → open_journal (complete j.file) ≡ r
    → IsKept x n j
    → KeptAfter x n (started r)
restart-IsKept x n j (ok j1) e k =
    let (seen, file, whole) = open_journal-counts j.file x e in
    record {
      once = omega (arith, k.once);
      in_memory = omega (arith, seen, whole, k.in_file);
      in_file = rw file (omega (arith, k.in_file));
    }
restart-IsKept x n j (err why) e k = tt
restart-IsKept x n j panic e k = tt
restart-IsKept x n j stuck e k = tt

module _ (u : Unicode) where
  -- The journal behind an act, with the ids of the calls of Print; none if the program does not start.
  abbrev pub act : Journal → Act → Option (Journal × List Text)
  act j (cheered reserving submitting print env) =
      let done = process_cheer reserving submitting u print env j in
      some (done.journal, printed env.message_id done.orders)
  act j (gifted reserving submitting print c) =
      let done = process_gift reserving submitting print c j in
      some (done.journal, printed (gift_id c.community_id) done.orders)
  act j (raided reserving submitting print e) =
      let done = process_raid reserving submitting print e j in
      some (done.journal, printed e.message_id done.orders)
  act j restarted = started (open_journal (complete j.file))

  -- The ids of all calls of Print, in turn.
  unfoldable pub run_acts : Journal → List Act → List Text
  run_acts j [] = []
  run_acts j (a ∷ acts) = elim (act j a) [ none ↦ [] | some (j1, ids) ↦ ids ++ run_acts j1 acts ]

  process_cheer-IsKept :
      (reserving submitting : Append) (print : Text → Result Text) (env : Envelope) (x : Text)
      (n : ℕ) (j : Journal)
      → IsKept x n j
      → IsKept x
          (times x
              (printed env.message_id (process_cheer reserving submitting u print env j).orders)
            + n)
          (process_cheer reserving submitting u print env j).journal
  unfolding process_cheer
  process_cheer-IsKept reserving submitting print env x n j k =
      elim (Bool-cases (not (prepare_cheer u env.cheer).qualifies)) [
        | inl small ↦ rw (process_cheer, small) (IsKept-same (omega arith) k)
        | inr large ↦
            rw (process_cheer, large)
              (process_event-IsKept reserving submitting _ _ _ _ _ _ print x n j k)
      ]

  act-IsKept : (a : Act) (x : Text) (n : ℕ) (j : Journal) → IsKept x n j → KeptAfter x n (act j a)
  unfolding process_gift process_raid
  act-IsKept (cheered reserving submitting print env) x n j k =
      process_cheer-IsKept reserving submitting print env x n j k
  act-IsKept (gifted reserving submitting print c) x n j k =
      process_event-IsKept reserving submitting _ _ _ _ _ _ print x n j k
  act-IsKept (raided reserving submitting print e) x n j k =
      process_event-IsKept reserving submitting _ _ _ _ _ _ print x n j k
  act-IsKept restarted x n j k = restart-IsKept x n j (open_journal (complete j.file)) refl k

  run_acts-IsKept :
      (acts : List Act) (x : Text) (n : ℕ) (j : Journal)
      → IsKept x n j
      → times x (run_acts j acts) + n ≤ 1
  unfolding run_acts
  run_acts-IsKept [] x n j k = omega (arith, k.once)
  run_acts-IsKept (a ∷ acts) x n j k = elim (Option-cases (act j a)) [
    | inl ended ↦ rw (run_acts, ended) (omega (arith, k.once))
    | inr ((j1, ids), went) ↦
        let kept : KeptAfter x n (some (j1, ids)) =
          subst (KeptAfter x n) went (act-IsKept a x n j k) in
        rw (run_acts, went)
          (omega (
            arith,
            times-append x ids (run_acts j1 acts),
            run_acts-IsKept acts x (times x ids + n) j1 kept,
          ))
  ]

-- Whatever stands in the journal's file, if OpenJournal accepts it: in any sequence of cheers, gifts
-- and raids, however their writes and Print end, and of new starts of the program on the file as it
-- then is, Print is called at most once for an id, and not at all for an id that the file held at the
-- start.
pub run_acts-once :
    (u : Unicode) (lines : List Line) (j : Journal) (acts : List Act)
    → open_journal (complete lines) ≡ ok j
    → (x : Text)
    → (times x (run_acts u j acts) ≤ 1) × (0 < file_times x lines → times x (run_acts u j acts) ≡ 0)
run_acts-once u lines j acts e x =
    let (seen, file, whole) = open_journal-counts lines x e in
    let new : IsKept x 0 j = record {
      once = omega arith;
      in_memory = omega arith;
      in_file = omega arith;
    } in
    let old : 0 < file_times x lines → IsKept x 1 j = λ h. record {
      once = omega arith;
      in_memory = omega (arith, seen);
      in_file = rw file (omega arith);
    } in
    (
      omega (arith, run_acts-IsKept u acts x 0 j new),
      λ h. omega (arith, run_acts-IsKept u acts x 1 j (old h)),
    )
