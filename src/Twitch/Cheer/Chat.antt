-- ===== src/Twitch/Cheer/Chat.antt =====
-- What a chat message prints.
use rongta_f11_open.Base.{
  ◌≡◌, ◌↔◌, refl, sym, ap, ◌∙◌, inl, inr, Bool, true, false, not, ◌||◌, List, [], ◌∷◌, ◌++◌, ltb,
  length, drop, Bytes, bytes_equal_refl, bytes_equal→eq, some, Result, ok, arith, Bool-cases,
}
use rongta_f11_open.Text.{
  Text, codes, is_empty, text_equal, fields, trim_space, trim_prefix, first_word, flush_word,
  fields_loop,
}
use rongta_f11_open.Text.Trim.{fields-trim_prefix}
use rongta_f11_open.Twitch.Cheer.{Unicode, Envelope, prepare_cheer}
use rongta_f11_open.Twitch.Cheer.Notice.{
  ChatMessage, not_chat, not_own, not_command, command_text, parse_chat_command,
}

-- A message of the broadcaster to the own channel, of the command and at least a word behind it.
pub record IsRequest (equal_fold : Text → Text → Bool) (m : ChatMessage)
    (broadcaster_id command : Text) : Type 0 where
  pub is_notification : m.message_type ≡ codes "notification"
  pub is_message : m.subscription_type ≡ codes "channel.chat.message"
  pub to_broadcaster : m.broadcaster_id ≡ broadcaster_id
  pub by_broadcaster : m.chatter_id ≡ broadcaster_id
  pub named : is_empty m.message_id ≡ false
  pub words :
      (w v : Text) × (vs : List Text) × (fields m.text ≡ w ∷ v ∷ vs) × (equal_fold w command ≡ true)

-- The cheer that stands for it.
pub record IsAnswer (u : Unicode) (m : ChatMessage) (env : Envelope) : Type 0 where
  pub answer_id : env.message_id ≡ codes "chat:" ++ m.message_id
  pub user : env.cheer.user_name ≡ m.chatter_login
  pub words : fields env.cheer.message ≡ drop 1 (fields m.text)
  pub qualifies : (prepare_cheer u env.cheer).qualifies ≡ true

two_words :
    (words : List Text)
    → ltb (length words) 2 ≡ false
    → (w v : Text) × (vs : List Text) × (words ≡ w ∷ v ∷ vs)
two_words [] h = cc
two_words (w ∷ []) h = cc
two_words (w ∷ v ∷ vs) h = (w, v, vs, refl)

same_text : (x y : Text) → not (text_equal x y) ≡ false → x ≡ y
same_text x y h = bytes_equal→eq x y (ground arith)

not_other : (x y : Text) → x ≡ y → not (text_equal x y) ≡ false
not_other x y e = rw (e, bytes_equal_refl y) refl

-- A text with a word is not empty.
fields-is_empty : (text v : Text) (vs : List Text) → fields text ≡ v ∷ vs → is_empty text ≡ false
unfolding fields fields_loop flush_word
fields-is_empty [] v vs e = cc
fields-is_empty (r ∷ rs) v vs e = refl

command-words :
    (text w v : Text) (vs : List Text)
    → fields text ≡ w ∷ v ∷ vs
    → fields (command_text text) ≡ v ∷ vs
unfolding command_text
command-words text w v vs e =
    ap (λ t. fields (trim_space (trim_prefix (trim_space text) t))) (ap first_word e)
    ∙ fields-trim_prefix text w (v ∷ vs) e

or_false : (a b : Bool) → (a || b) ≡ false → (a ≡ false) × (b ≡ false)
or_false a b h = ground arith

module _ (equal_fold : Text → Text → Bool) where
  tests-IsRequest :
      (m : ChatMessage) (broadcaster_id command : Text)
      → not_chat m ≡ false
      → not_own m broadcaster_id ≡ false
      → not_command equal_fold m.text command ≡ false
      → IsRequest equal_fold m broadcaster_id command
  unfolding not_command
  tests-IsRequest m broadcaster_id command chat own known =
      let (notified, message) = or_false _ _ chat in
      let (there, others) = or_false _ _ own in
      let (by, named) = or_false _ _ others in
      let (long, folded) = or_false _ _ known in
      let (w, v, vs, e) = two_words (fields m.text) long in
      record {
        is_notification = same_text _ _ notified;
        is_message = same_text _ _ message;
        to_broadcaster = same_text _ _ there;
        by_broadcaster = same_text _ _ by;
        named = named;
        words = (w, v, vs, e, ground (arith, ap first_word e));
      }

  IsRequest-tests :
      (m : ChatMessage) (broadcaster_id command : Text)
      → IsRequest equal_fold m broadcaster_id command
      → (not_chat m ≡ false)
        × (not_own m broadcaster_id ≡ false)
        × (not_command equal_fold m.text command ≡ false)
        × (is_empty (command_text m.text) ≡ false)
        × (fields (command_text m.text) ≡ drop 1 (fields m.text))
  unfolding not_command
  IsRequest-tests m broadcaster_id command q =
      let (w, v, vs, e, folded) = q.words in
      let behind = command-words m.text w v vs e in
      (
        rw (not_other _ _ q.is_notification, not_other _ _ q.is_message) refl,
        rw (not_other _ _ q.to_broadcaster, not_other _ _ q.by_broadcaster, q.named) refl,
        rw (e, folded) (ground arith),
        fields-is_empty (command_text m.text) v vs behind,
        behind ∙ sym (ap (drop 1) e),
      )

module _ (u : Unicode) (equal_fold : Text → Text → Bool) (decode : Bytes → Result ChatMessage) where
  -- A chat message is printed as a cheer if and only if the broadcaster wrote it to the own channel,
  -- its id is not empty, and it is the command with a word behind it; the cheer then is of the words
  -- behind the command, and has bits enough to be printed.
  pub parse_chat_command_iff :
      (raw : Bytes) (broadcaster_id : Text) (m : ChatMessage)
      → decode raw ≡ ok m
      → ((env : Envelope) × (parse_chat_command equal_fold decode raw broadcaster_id
            ≡ ok (some env))
          × IsAnswer u m env)
        ↔ IsRequest equal_fold m broadcaster_id (codes "!testbanner")
  unfolding parse_chat_command prepare_cheer
  parse_chat_command_iff raw broadcaster_id m made = (forth, back)
    where
      forth :
          ((env : Envelope) × (parse_chat_command equal_fold decode raw broadcaster_id
              ≡ ok (some env))
            × IsAnswer u m env)
          → IsRequest equal_fold m broadcaster_id (codes "!testbanner")
      forth (env, e, a) =
          let e' = rw made at e in
          elim (Bool-cases (not_chat m)) [
            | inl other ↦ absurd (ground arith)
            | inr chat ↦ elim (Bool-cases (not_own m broadcaster_id)) [
              | inl other ↦ absurd (ground arith)
              | inr own ↦ elim (Bool-cases (not_command equal_fold m.text (codes "!testbanner"))) [
                | inl other ↦ absurd (ground arith)
                | inr known ↦
                    tests-IsRequest equal_fold m broadcaster_id (codes "!testbanner") chat own known
              ]
            ]
          ]

      back :
          IsRequest equal_fold m broadcaster_id (codes "!testbanner")
          → (env : Envelope) × (parse_chat_command equal_fold decode raw broadcaster_id
              ≡ ok (some env))
            × IsAnswer u m env
      back q =
          let (chat, own, known, long, behind) =
            IsRequest-tests equal_fold m broadcaster_id (codes "!testbanner") q in
          rw (made, chat, own, known, long)
            (_, refl, record { answer_id = refl; user = refl; words = behind; qualifies = refl })
