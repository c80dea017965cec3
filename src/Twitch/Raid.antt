-- ===== src/Twitch/Raid.antt =====
-- `Event` and `ParseNotification` of Appliance/internal/twitchraid/raid.go. The decoding of the JSON
-- message is an argument. A number of viewers below 0 is refused like 0, and not represented.
use rongta_f11_open.Base.{
  ℕ, Bool, not, ◌||◌, ◌++◌, leb, if◌then◌else◌, Bytes, Option, none, some, Result, ok, ◌>>=◌,
}
use rongta_f11_open.Text.{Text, codes, is_empty, text_equal}
use rongta_f11_open.Twitch.Names.{clean_name}

pub record RaidEvent : Type 0 where
  pub message_id : Text
  pub channel : Text
  pub viewers : ℕ

-- The fields of the message that are decoded.
pub record RaidNotice : Type 0 where
  pub message_id : Text
  pub message_type : Text
  pub subscription_type : Text
  pub broadcaster_id : Text
  pub from_id : Text
  pub from_login : Text
  pub from_name : Text
  pub viewers : ℕ

unfoldable pub ignores_raid : RaidNotice → Text → Bool
ignores_raid m broadcaster_id =
    not (text_equal m.message_type (codes "notification"))
    || (not (text_equal m.subscription_type (codes "channel.raid"))
        || (not (text_equal m.broadcaster_id broadcaster_id)
            || (is_empty m.from_id
                || (text_equal m.from_id broadcaster_id
                    || (leb m.viewers 0 || is_empty m.message_id)))))

unfoldable pub raid_channel : RaidNotice → Text
unfolding clean_name
raid_channel m =
    let channel = clean_name m.from_name in
    if is_empty channel then clean_name m.from_login else channel

-- No event is `Event{}, false`.
unfoldable pub parse_raid : (Bytes → Result RaidNotice) → Bytes → Text → Result (Option RaidEvent)
unfolding ignores_raid raid_channel
parse_raid decode raw broadcaster_id = do
  m ← decode raw
  let event : RaidEvent = record {
    message_id = codes "raid:" ++ m.message_id;
    channel = raid_channel m;
    viewers = m.viewers;
  }
  ok (if ignores_raid m broadcaster_id || is_empty (raid_channel m) then none else some event)
