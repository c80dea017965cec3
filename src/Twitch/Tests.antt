-- ===== src/Twitch/Tests.antt =====
-- The theorems on Twitch events at concrete inputs.
use rongta_f11_open.Base.{
  ℕ, ◌≤◌, ◌<◌, ◌≡◌, ◌↔◌, refl, true, false, Bool, ◌&&◌, List, [], ◌∷◌, ◌++◌, ltb, leb, take, arith,
  Bytes, some, Result, ok, err, new,
}
use rongta_f11_open.Text.{Text, codes, text_equal, fields, join}
use rongta_f11_open.Text.Count.{times}
use rongta_f11_open.Twitch.Raid.{RaidEvent}
use rongta_f11_open.Twitch.Cheer.{Unicode, Cheer, Envelope, bounded_text, rune_safe_prefix}
use rongta_f11_open.Twitch.Cheer.Laws.{IsBanner, bounded_text-IsBanner}
use rongta_f11_open.Twitch.Cheer.Prefix.{IsPrefix, rune_safe_prefix-IsPrefix}
use rongta_f11_open.Twitch.Cheer.Notice.{ChatMessage, parse_chat_command}
use rongta_f11_open.Twitch.Cheer.Chat.{IsAnswer, IsRequest, parse_chat_command_iff}
use rongta_f11_open.Twitch.Journal.{
  Journal, JournalEntry, Line, entry, synced, open_journal, read_lines, is_refused,
}
use rongta_f11_open.Twitch.Journal.Laws.{file_times}
use rongta_f11_open.Twitch.Process.Run.{Act, cheered, restarted, run_acts, run_acts-once}
use rongta_f11_open.Twitch.Callback.{Query, Channel, handle_all}
use rongta_f11_open.Twitch.Callback.Laws.{accepted_results, handle_all-accepted}
use rongta_f11_open.Twitch.Api.{
  Subscription, Page, list_pages, list_subscriptions, verify_required, cheer_kind, chat_kind,
  notice_kind, raid_kind,
}
use rongta_f11_open.Twitch.Api.Laws.{IsSubscribed, verify_required_iff}

abbrev is_ascii : ℕ → Bool
is_ascii r = leb 32 r && leb r 126

abbrev ascii : Unicode
ascii = record {
  is_print = is_ascii;
  is_mark = λ r. false;
  is_letter = λ r. leb 65 r && leb r 122;
  is_digit = λ r. leb 48 r && leb r 57;
  to_upper = λ s. s;
}

abbrev sample_cheer : Cheer
sample_cheer = record {
  bits = 1000;
  user_name = codes "ann";
  message = codes "go  team";
  anonymous = false;
}

abbrev old_entry : JournalEntry
old_entry = record {
  event_id = codes "old";
  state = codes "submitted";
  bits = 0;
  user = [];
  text = [];
  job_id = codes "F11-1";
}

abbrev sample_lines : List Line
sample_lines = entry old_entry ∷ []

abbrev sample_journal : Journal
sample_journal = record { seen = codes "old" ∷ []; file = sample_lines }

-- A cheer whose Print fails, a new start, and the same cheer once more.
abbrev sample_acts : List Act
sample_acts =
    let e : Envelope = record { message_id = codes "m"; cheer = sample_cheer } in
    cheered synced synced (λ text. err (new "no paper")) e
    ∷ restarted
    ∷ cheered synced synced (λ text. ok (codes "F11-2")) e
    ∷ []

run_acts-once_example :
    (times (codes "m") (run_acts ascii sample_journal sample_acts) ≤ 1)
    × (0 < file_times (codes "m") sample_lines
        → times (codes "m") (run_acts ascii sample_journal sample_acts) ≡ 0)
run_acts-once_example =
    run_acts-once ascii sample_lines sample_journal sample_acts
      (unfold open_journal read_lines is_refused in refl) (codes "m")

bounded_text-IsBanner_example :
    (words : List Text) × (bounded_text ascii (codes "go  team") ≡ join words (32 ∷ []))
    × IsBanner words
    × (fields (bounded_text ascii (codes "go  team")) ≡ words)
bounded_text-IsBanner_example = bounded_text-IsBanner ascii (codes "go  team")

-- Every string of bytes below 128 is valid UTF-8.
abbrev all_below : Bytes → Bool
all_below [] = true
all_below (b ∷ bs) = ltb b 128 && all_below bs

rune_safe_prefix-IsPrefix_example :
    (t : Bytes) × (rune_safe_prefix all_below (103 ∷ 111 ∷ 33 ∷ []) 2 ≡ ok t)
    × IsPrefix all_below (103 ∷ 111 ∷ 33 ∷ []) 2 t
rune_safe_prefix-IsPrefix_example =
    rune_safe_prefix-IsPrefix all_below (103 ∷ 111 ∷ 33 ∷ []) 2 refl refl

abbrev sample_message : ChatMessage
sample_message = record {
  message_type = codes "notification";
  subscription_type = codes "channel.chat.message";
  broadcaster_id = codes "7";
  chatter_id = codes "7";
  chatter_login = codes "ann";
  message_id = codes "m";
  text = codes "!testbanner hello";
}

parse_chat_command_iff_example :
    ((env : Envelope) × (parse_chat_command text_equal (λ raw. ok sample_message) [] (codes "7")
        ≡ ok (some env))
      × IsAnswer ascii sample_message env)
    ↔ IsRequest text_equal sample_message (codes "7") (codes "!testbanner")
parse_chat_command_iff_example =
    parse_chat_command_iff ascii text_equal (λ raw. ok sample_message) [] (codes "7") sample_message
      refl

abbrev sample_raid : RaidEvent
sample_raid = record { message_id = codes "raid:m"; channel = codes "ann"; viewers = 12 }

abbrev sample_queries : List Query
sample_queries =
    record { state = codes "forged"; code = codes "x"; error = [] }
    ∷ record { state = codes "s"; code = codes "y"; error = [] }
    ∷ record { state = codes "s"; code = codes "z"; error = [] }
    ∷ []

abbrev empty_channel : Channel
empty_channel = record { capacity = 1; waiting = [] }

handle_all-accepted_example :
    ((handle_all (codes "s") sample_queries empty_channel).capacity ≡ 1)
    × ((handle_all (codes "s") sample_queries empty_channel).waiting
        ≡ take 1 ([] ++ accepted_results (codes "s") sample_queries))
handle_all-accepted_example =
    handle_all-accepted (codes "s") sample_queries empty_channel (omega arith)

abbrev sample_subscription : Text → Subscription
sample_subscription kind = record {
  id = codes "1";
  kind = kind;
  status = codes "enabled";
  condition = λ key. codes "7";
  method = codes "websocket";
  session_id = codes "w";
}

abbrev all_subscriptions : List Subscription
all_subscriptions =
    sample_subscription cheer_kind
    ∷ sample_subscription chat_kind
    ∷ sample_subscription notice_kind
    ∷ sample_subscription raid_kind
    ∷ []

abbrev one_page : Text → Result Page
one_page path = ok (record { items = all_subscriptions; cursor = [] })

verify_required_iff_example :
    (verify_required (λ s. s) one_page (codes "7") (codes "w") ≡ ok tt)
    ↔ IsSubscribed (codes "7") (codes "w") all_subscriptions
verify_required_iff_example =
    verify_required_iff (codes "7") (codes "w") (λ s. s) one_page all_subscriptions refl refl
      (unfold list_subscriptions list_pages in refl)
