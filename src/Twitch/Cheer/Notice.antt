-- ===== src/Twitch/Cheer/Notice.antt =====
-- `ParseNotification` and `ParseChatCommand` of Appliance/internal/twitchbanner/twitchbanner.go. The
-- decoding of a JSON message and strings.EqualFold are arguments.
use rongta_f11_open.Base.{
  Bool, not, ◌||◌, false, ◌++◌, ltb, if◌then◌else◌, length, Bytes, Option, none, some, Result, ok,
  ◌>>=◌,
}
use rongta_f11_open.Text.{
  Text, codes, is_empty, text_equal, fields, trim_space, trim_prefix, first_word,
}
use rongta_f11_open.Twitch.Cheer.{Cheer, Envelope}

pub record Header : Type 0 where
  pub message_id : Text
  pub message_type : Text
  pub subscription_type : Text

-- No envelope is `Envelope{}, false`.
unfoldable pub parse_cheer :
    (Bytes → Result Header) → (Bytes → Result Cheer) → Bytes → Result (Option Envelope)
parse_cheer decode_header decode_body raw = do
  m ← decode_header raw
  let parsed : Result (Option Envelope) = do
    c ← decode_body raw
    ok (some (record { message_id = m.message_id; cheer = c }))
  if not (text_equal m.message_type (codes "notification"))
        || not (text_equal m.subscription_type (codes "channel.cheer"))
      then ok none
      else parsed

-- The fields of a chat message that are decoded, here and in twitchgift/print.go.
pub record ChatMessage : Type 0 where
  pub message_type : Text
  pub subscription_type : Text
  pub broadcaster_id : Text
  pub chatter_id : Text
  pub chatter_login : Text
  pub message_id : Text
  pub text : Text

abbrev pub not_chat : ChatMessage → Bool
not_chat m =
    not (text_equal m.message_type (codes "notification"))
    || not (text_equal m.subscription_type (codes "channel.chat.message"))

abbrev pub not_own : ChatMessage → Text → Bool
not_own m broadcaster_id =
    not (text_equal m.broadcaster_id broadcaster_id)
    || (not (text_equal m.chatter_id broadcaster_id) || is_empty m.message_id)

-- What stands behind the first word.
unfoldable pub command_text : Text → Text
command_text text = trim_space (trim_prefix (trim_space text) (first_word (fields text)))

module _ (equal_fold : Text → Text → Bool) where
  unfoldable pub not_command : Text → Text → Bool
  not_command text command =
      ltb (length (fields text)) 2 || not (equal_fold (first_word (fields text)) command)

  unfoldable pub parse_chat_command :
      (Bytes → Result ChatMessage) → Bytes → Text → Result (Option Envelope)
  unfolding not_command command_text
  parse_chat_command decode raw broadcaster_id = do
    m ← decode raw
    let env : Envelope = record {
      message_id = codes "chat:" ++ m.message_id;
      cheer = record {
        bits = 1000;
        user_name = m.chatter_login;
        message = command_text m.text;
        anonymous = false;
      };
    }
    ok (
        if not_chat m
        then none
        else if not_own m broadcaster_id
        then none
        else if not_command m.text (codes "!testbanner")
        then none
        else if is_empty (command_text m.text)
        then none
        else some env)
