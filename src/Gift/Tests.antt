-- ===== src/Gift/Tests.antt =====
-- The collector and the parsing of gifts on concrete events.
use rongta_f11_open.Base.{◌≤◌, ◌≡◌, refl, List, [], ◌∷◌, true, false, Bytes, some, none, ok, arith}
use rongta_f11_open.Text.{
  Text, codes, text_equal, split, split_loop, trim_space, trim_left, trim_right, fields,
  fields_loop, flush_word, join, is_space, first_word, trim_prefix, has_prefix,
}
use rongta_f11_open.Twitch.Names.{clean_name, name_loop, is_name_rune, contains_rune}
use rongta_f11_open.Twitch.Cheer.Notice.{not_command, command_text}
use rongta_f11_open.Gift.{flush_due, has_id}
use rongta_f11_open.Gift.Notice.{
  start_event, gifter_name, name_or_login, test_gift, test_names, names_loop, GiftNotice,
  parse_gift, parse_test_command, next_due, next_due_loop, earlier,
}
use rongta_f11_open.Gift.Notice.Laws.{
  IsEventOf, IsTestGift, parse_gift-IsEvent, parse_test_command-IsTestGift,
}
use rongta_f11_open.Gift.Due.{flush_due-next_due}
use rongta_f11_open.Gift.{kind_start, kind_recipient, Event, Celebration, Collector, new_collector}
use rongta_f11_open.Gift.Map.{times, ids}
use rongta_f11_open.Gift.Run.{Call, accepted, flushed, calls, calls-once}

abbrev gift_start : Event
gift_start = record {
  kind = kind_start;
  community_id = 7 ∷ [];
  total = 1;
  gifter = 65 ∷ [];
  recipient = [];
  recipient_id = [];
  anonymous = false;
  recipients = [];
}

abbrev gift_recipient : Event
gift_recipient = record {
  kind = kind_recipient;
  community_id = 7 ∷ [];
  total = 0;
  gifter = [];
  recipient = 66 ∷ [];
  recipient_id = 9 ∷ [];
  anonymous = false;
  recipients = [];
}

-- The gift is complete with its one recipient, and comes again later.
abbrev sample_calls : List Call
sample_calls =
    accepted gift_start 0 ∷ accepted gift_recipient 1 ∷ accepted gift_start 2 ∷ flushed 500 ∷ []

calls-once_example :
    (d : Collector) × (out : List Celebration) × (calls (λ s. s) (new_collector 60) sample_calls
      ≡ ok (d, out))
    × ((x : Bytes) → times x (ids out) ≤ 1)
calls-once_example = calls-once (λ s. s) 60 sample_calls

abbrev sample_notice : GiftNotice
sample_notice = record {
  message_type = codes "notification";
  subscription_type = codes "channel.chat.notification";
  broadcaster_id = codes "7";
  chatter_name = codes "A";
  chatter_login = codes "a";
  chatter_anonymous = false;
  notice_type = codes "community_sub_gift";
  community_gift = some (record { id = codes "g"; total = 10 });
  sub_gift = none;
}

abbrev sample_start : Event
sample_start = record {
  kind = kind_start;
  community_id = codes "g";
  total = 10;
  gifter = codes "A";
  recipient = [];
  recipient_id = [];
  anonymous = false;
  recipients = [];
}

sample_notice-parsed : parse_gift (λ raw. ok sample_notice) [] (codes "7") ≡ ok (some sample_start)
unfolding parse_gift start_event gifter_name name_or_login trim_space trim_left trim_right fields
    fields_loop flush_word join is_space clean_name name_loop is_name_rune contains_rune
sample_notice-parsed = refl

parse_gift-IsEvent_example : IsEventOf kind_start sample_start
parse_gift-IsEvent_example =
    parse_gift-IsEvent (λ raw. ok sample_notice) [] (codes "7") sample_start sample_notice-parsed

abbrev sample_command : Text
sample_command = codes "!testgift A|a,b,c,d,e,f,g,h,i,j"

abbrev test_celebration : Celebration
test_celebration = record {
  community_id = codes "testgift:m";
  total = 10;
  gifter = codes "A";
  recipients =
      codes "a"
      ∷ codes "b"
      ∷ codes "c"
      ∷ codes "d"
      ∷ codes "e"
      ∷ codes "f"
      ∷ codes "g"
      ∷ codes "h"
      ∷ codes "i"
      ∷ codes "j"
      ∷ [];
  missing = 0;
  test = true;
}

sample_command-parsed :
    parse_test_command (λ s. s) text_equal (codes "m") (codes "7") (codes "7") sample_command
    ≡ ok (some test_celebration)
unfolding parse_test_command test_gift test_names names_loop not_command command_text first_word
    trim_prefix has_prefix split split_loop has_id trim_space trim_left trim_right fields
    fields_loop flush_word join is_space clean_name name_loop is_name_rune contains_rune
sample_command-parsed = refl

parse_test_command-IsTestGift_example :
    (codes "7" ≡ codes "7") × IsTestGift (λ s. s) (codes "m") test_celebration
parse_test_command-IsTestGift_example =
    parse_test_command-IsTestGift (λ s. s) text_equal (codes "m") (codes "7") (codes "7")
      sample_command test_celebration sample_command-parsed

abbrev waiting : Collector
waiting = record (new_collector 60) {
  pending =
      (
        codes "g",
        record {
          celebration = record {
            community_id = codes "g";
            total = 10;
            gifter = codes "A";
            recipients = [];
            missing = 0;
            test = false;
          };
          started = 5;
          seen = [];
        },
      )
      ∷ [];
}

flush_due-next_due_example : (d : Collector) × (flush_due waiting 64 ≡ ok (d, []))
flush_due-next_due_example =
    flush_due-next_due waiting 64
      (unfold next_due next_due_loop earlier new_collector in omega arith)
