-- ===== src/Gift/Notice.antt =====
-- `ParseNotification`, `ParseTestCommand`, `NextDue` and `HasPending` of
-- Appliance/internal/twitchgift/gift.go and `ParseTestNotification` of print.go there. The decoding of
-- a JSON message, strings.EqualFold and strings.ToLower are arguments.
pub mod Laws
use rongta_f11_open.Base.{
  ℕ, ◌+◌, Bool, true, false, not, ◌&&◌, ◌||◌, List, [], ◌∷◌, ◌++◌, ltb, ◌==◌, if◌then◌else◌, length,
  Bytes, Option, none, some, Result, ok, err, new, ◌>>=◌,
}
use rongta_f11_open.Text.{
  Text, codes, is_empty, text_equal, fields, trim_space, trim_prefix, first_word, split,
}
use rongta_f11_open.Twitch.Names.{clean_name}
use rongta_f11_open.Twitch.Cheer.Notice.{ChatMessage, not_chat, not_command, command_text}
use rongta_f11_open.Gift.{
  kind_start, kind_recipient, Event, Celebration, Pending, Collector, has_id,
}

pub record CommunityGift : Type 0 where
  pub id : Text
  pub total : ℕ

pub record SubGift : Type 0 where
  pub community_id : Text
  pub recipient_id : Text
  pub recipient_name : Text
  pub recipient_login : Text

-- The fields of a message that are decoded; the pointers are options. A total below 0 is refused like
-- 0, and not represented.
pub record GiftNotice : Type 0 where
  pub message_type : Text
  pub subscription_type : Text
  pub broadcaster_id : Text
  pub chatter_name : Text
  pub chatter_login : Text
  pub chatter_anonymous : Bool
  pub notice_type : Text
  pub community_gift : Option CommunityGift
  pub sub_gift : Option SubGift

abbrev pub ignores_gift : GiftNotice → Text → Bool
ignores_gift m broadcaster_id =
    not (text_equal m.message_type (codes "notification"))
    || (not (text_equal m.subscription_type (codes "channel.chat.notification"))
        || not (text_equal m.broadcaster_id broadcaster_id))

-- The first name that is left of two, if one is.
unfoldable pub name_or_login : Text → Text → Text
name_or_login name login =
    let cleaned = clean_name name in if is_empty cleaned then clean_name login else cleaned

unfoldable pub gifter_name : GiftNotice → Text
unfolding name_or_login
gifter_name m =
    let gifter = name_or_login m.chatter_name m.chatter_login in
    if m.chatter_anonymous || is_empty gifter then codes "ANONYMOUS" else gifter

-- `case "community_sub_gift"`.
unfoldable pub start_event : GiftNotice → Option CommunityGift → Option Event
unfolding gifter_name
start_event m none = none
start_event m (some g) =
    let event : Event = record {
      kind = kind_start;
      community_id = g.id;
      total = g.total;
      gifter = gifter_name m;
      recipient = [];
      recipient_id = [];
      anonymous = m.chatter_anonymous;
      recipients = [];
    } in
    if is_empty g.id || (ltb g.total 10 || ltb 1000 g.total) then none else some event

-- `case "sub_gift"`.
unfoldable pub recipient_event : Option SubGift → Option Event
unfolding name_or_login
recipient_event none = none
recipient_event (some g) =
    let name = name_or_login g.recipient_name g.recipient_login in
    let event : Event = record {
      kind = kind_recipient;
      community_id = g.community_id;
      total = 0;
      gifter = [];
      recipient = name;
      recipient_id = g.recipient_id;
      anonymous = false;
      recipients = [];
    } in
    if is_empty g.community_id || is_empty g.recipient_id
    then none
    else if is_empty name
    then none
    else some event

-- No event is `Event{}, false`.
unfoldable pub parse_gift : (Bytes → Result GiftNotice) → Bytes → Text → Result (Option Event)
unfolding start_event recipient_event
parse_gift decode raw broadcaster_id = do
  m ← decode raw
  ok (
      if ignores_gift m broadcaster_id
      then none
      else if text_equal m.notice_type (codes "community_sub_gift")
      then start_event m m.community_gift
      else if text_equal m.notice_type (codes "sub_gift")
      then recipient_event m.sub_gift
      else none)

module _ (to_lower : Text → Text) where
  -- The loop over the names; `seen` holds the keys, and `names` what is kept.
  unfoldable pub names_loop : List Text → List Text → List Text → List Text
  unfolding has_id
  names_loop [] seen names = names
  names_loop (raw ∷ raws) seen names =
      let name = clean_name raw in
      let key = to_lower name in
      let added = names_loop raws (key ∷ seen) (names ++ (name ∷ [])) in
      let skipped = names_loop raws seen names in
      if not (is_empty name) && not (has_id key seen) then added else skipped

  unfoldable pub test_names : Text → List Text
  unfolding names_loop
  test_names part = names_loop (split part 44) [] []

  -- Behind the command: `parts` are what strings.Split makes of it at `|`.
  unfoldable pub test_gift : Text → List Text → Result (Option Celebration)
  unfolding test_names
  test_gift message_id [] = ok none
  test_gift message_id (a ∷ []) = ok none
  test_gift message_id (a ∷ b ∷ []) =
      let names = test_names b in
      let c : Celebration = record {
        community_id = codes "testgift:" ++ message_id;
        total = length names;
        gifter = clean_name a;
        recipients = names;
        missing = 0;
        test = true;
      } in
      if is_empty (clean_name a)
      then err (new "test gift requires a gifter")
      else if ltb (length names) 10 || ltb 100 (length names)
      then ok none
      else ok (some c)
  test_gift message_id (a ∷ b ∷ d ∷ parts) = ok none

  unfoldable pub parse_test_command :
      (Text → Text → Bool) → Text → Text → Text → Text → Result (Option Celebration)
  unfolding not_command command_text test_gift
  parse_test_command equal_fold message_id chatter_id broadcaster_id text =
      let given = test_gift message_id (split (command_text text) 124) in
      if not (text_equal chatter_id broadcaster_id)
        || (is_empty message_id || not_command equal_fold text (codes "!testgift"))
      then ok none
      else given

  unfoldable pub parse_test_notification :
      (Text → Text → Bool)
      → (Bytes → Result ChatMessage)
      → Bytes
      → Text
      → Result (Option Celebration)
  unfolding parse_test_command
  parse_test_notification equal_fold decode raw broadcaster_id = do
    m ← decode raw
    let given = parse_test_command equal_fold m.message_id m.chatter_id broadcaster_id m.text
    if not_chat m || not (text_equal m.broadcaster_id broadcaster_id) then ok none else given

-- The earlier of two times, where one may lack: `best.IsZero() || due.Before(best)`.
unfoldable pub earlier : ℕ → Option ℕ → Option ℕ
earlier due none = some due
earlier due (some best) = if ltb due best then some due else some best

unfoldable pub next_due_loop : ℕ → List (Bytes × Pending) → Option ℕ → Option ℕ
unfolding earlier
next_due_loop window [] best = best
next_due_loop window ((id, p) ∷ m) best =
    next_due_loop window m
      (if p.celebration.total == 0 then best else earlier (p.started + window) best)

-- No time is the zero time.
unfoldable pub next_due : Collector → Option ℕ
unfolding next_due_loop
next_due c = next_due_loop c.window c.pending none

unfoldable pub has_pending : Collector → Bool
has_pending c = ltb 0 (length c.pending)
