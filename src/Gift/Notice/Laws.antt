-- ===== src/Gift/Notice/Laws.antt =====
-- What the parsers of gift events let through, and when the collector hands a gift on.
use rongta_f11_open.Base.{
  ◌+◌, ◌≤◌, ◌≡◌, refl, subst, ap, ◌∙◌, inl, inr, Bool, true, false, not, ◌&&◌, ◌||◌, List, [], ◌∷◌,
  ◌++◌, ltb, if◌then◌else◌, length, All, All-append, Option, none, some, Bytes, bytes_equal,
  bytes_equal→eq, Result, ok, err, panic, stuck, arith, Bool-cases, >>=-eq-ok,
}
use rongta_f11_open.Text.{
  Text, codes, is_empty, is_space, text_equal, split, trim_space, fields, fields_loop, flush_word,
  join,
}
use rongta_f11_open.Text.Count.{times, same_id}
use rongta_f11_open.Twitch.Names.{clean_name, name_loop, is_name_rune, contains_rune}
use rongta_f11_open.Twitch.Names.Laws.{IsName, clean_name-IsName}
use rongta_f11_open.Twitch.Cheer.Notice.{not_command, command_text}
use rongta_f11_open.Gift.{
  Kind, kind_unknown, kind_start, kind_recipient, Event, Celebration, has_id,
}
use rongta_f11_open.Gift.Map.{has_id-times}
use rongta_f11_open.Gift.Notice.{
  CommunityGift, SubGift, GiftNotice, ignores_gift, name_or_login, gifter_name, start_event,
  recipient_event, parse_gift, names_loop, test_names, test_gift, parse_test_command,
}

-- A name that is not empty.
abbrev pub Named : Text → Type 0
Named name = IsName name × (is_empty name ≡ false)

-- What the collector may rely on, by the kind of an event.
abbrev pub IsEventOf : Kind → Event → Type 0
IsEventOf kind_unknown e = is_empty e.community_id ≡ true
IsEventOf kind_start e =
    (10 ≤ e.total) × (e.total ≤ 1000) × Named e.gifter × (is_empty e.community_id ≡ false)
IsEventOf kind_recipient e =
    Named e.recipient × (is_empty e.recipient_id ≡ false) × (is_empty e.community_id ≡ false)

abbrev OnEvent : Option Event → Type 0
OnEvent none = Unit {0}
OnEvent (some e) = IsEventOf e.kind e

abbrev OnParsed : Result (Option Event) → Type 0
OnParsed (ok o) = OnEvent o
OnParsed (err e) = Unit {0}
OnParsed panic = Unit {0}
OnParsed stuck = Unit {0}

name_or_login-IsName : (name login : Text) → IsName (name_or_login name login)
unfolding name_or_login
name_or_login-IsName name login = elim (Bool-cases (is_empty (clean_name name))) [
  | inl gone ↦ rw gone (clean_name-IsName login)
  | inr left ↦ rw left (clean_name-IsName name)
]

anonymous-Named : Named (codes "ANONYMOUS")
unfolding clean_name name_loop is_name_rune contains_rune trim_space fields fields_loop flush_word
    join is_space
anonymous-Named = (clean_name-IsName (codes "ANONYMOUS"), refl)

gifter_name-Named : (m : GiftNotice) → Named (gifter_name m)
unfolding gifter_name
gifter_name-Named m =
    elim (Bool-cases
      (m.chatter_anonymous || is_empty (name_or_login m.chatter_name m.chatter_login))) [
        | inl hidden ↦ rw hidden anonymous-Named
        | inr shown ↦ rw shown (name_or_login-IsName m.chatter_name m.chatter_login, ground arith)
      ]

start_event-OnEvent : (m : GiftNotice) (g : Option CommunityGift) → OnEvent (start_event m g)
unfolding start_event
start_event-OnEvent m none = tt
start_event-OnEvent m (some g) =
    elim (Bool-cases (is_empty g.id || (ltb g.total 10 || ltb 1000 g.total))) [
      | inl bad ↦ rw bad tt
      | inr good ↦ rw good (ground arith, ground arith, gifter_name-Named m, ground arith)
    ]

recipient_event-OnEvent : (g : Option SubGift) → OnEvent (recipient_event g)
unfolding recipient_event
recipient_event-OnEvent none = tt
recipient_event-OnEvent (some g) =
    elim (Bool-cases (is_empty g.community_id || is_empty g.recipient_id)) [
      | inl bad ↦ rw bad tt
      | inr good ↦ elim (Bool-cases (is_empty (name_or_login g.recipient_name g.recipient_login))) [
        | inl gone ↦ rw (good, gone) tt
        | inr left ↦
            rw (good, left)
              (
                (name_or_login-IsName g.recipient_name g.recipient_login, left),
                ground arith,
                ground arith,
              )
      ]
    ]

OnEvent-if : (b : Bool) (x y : Option Event) → OnEvent x → OnEvent y → OnEvent (if b then x else y)
OnEvent-if true x y h k = h
OnEvent-if false x y h k = k

-- The events of `ParseNotification` are what the collector relies on: a start has a total of 10 to
-- 1000 and a gifter, a recipient has an id and a name, and both have the id of a community gift; the
-- names are cleaned ones.
pub parse_gift-IsEvent :
    (decode : Bytes → Result GiftNotice) (raw : Bytes) (broadcaster_id : Text) (e : Event)
    → parse_gift decode raw broadcaster_id ≡ ok (some e)
    → IsEventOf e.kind e
unfolding parse_gift
parse_gift-IsEvent decode raw broadcaster_id e h =
    let (m, made, given) = >>=-eq-ok (decode raw) _ h in
    subst OnParsed given (
      OnEvent-if (ignores_gift m broadcaster_id) none _ tt (
        OnEvent-if (text_equal m.notice_type (codes "community_sub_gift")) _ _
          (start_event-OnEvent m m.community_gift)
          (OnEvent-if (text_equal m.notice_type (codes "sub_gift")) _ none
            (recipient_event-OnEvent m.sub_gift) tt)))

-- The keys by which names are compared.
abbrev pub name_keys : (Text → Text) → List Text → List Text
name_keys to_lower [] = []
name_keys to_lower (n ∷ names) = to_lower n ∷ name_keys to_lower names

-- Names that are cleaned, none twice by their keys.
pub record AreNames (to_lower : Text → Text) (names : List Text) : Type 0 where
  pub named : All Named names
  pub distinct : (x : Text) → times x (name_keys to_lower names) ≤ 1

-- A test gift as it is printed.
pub record IsTestGift (to_lower : Text → Text) (message_id : Text) (c : Celebration) : Type 0 where
  pub id : c.community_id ≡ codes "testgift:" ++ message_id
  pub counted : c.total ≡ length c.recipients
  pub whole : c.missing ≡ 0
  pub enough : 10 ≤ c.total
  pub bounded : c.total ≤ 100
  pub gifter : Named c.gifter
  pub names : AreNames to_lower c.recipients

name_keys-snoc :
    (to_lower : Text → Text) (x name : Text) (names : List Text)
    → times x (name_keys to_lower (names ++ (name ∷ [])))
      ≡ same_id x (to_lower name) + times x (name_keys to_lower names)
name_keys-snoc to_lower x name [] = refl
name_keys-snoc to_lower x name (n ∷ names) = omega (arith, name_keys-snoc to_lower x name names)

-- A key that is new stands nowhere yet.
fresh_key :
    (x key : Text) (keys : List Text)
    → has_id key keys ≡ false
    → times x keys ≤ 1
    → same_id x key + times x keys ≤ 1
fresh_key x key keys h k = elim (Bool-cases (bytes_equal x key)) [
  | inl same ↦
      let none_there : times x keys ≡ 0 =
        has_id-times x keys (ap (λ y. has_id y keys) (bytes_equal→eq x key same) ∙ h) in
      rw same (omega (arith, none_there))
  | inr other ↦ rw other (omega arith)
]

module _ (to_lower : Text → Text) where
  names_loop-AreNames :
      (raws seen names : List Text)
      → ((x : Text) → times x seen ≡ times x (name_keys to_lower names))
      → AreNames to_lower names
      → AreNames to_lower (names_loop to_lower raws seen names)
  unfolding names_loop
  names_loop-AreNames [] seen names h k = k
  names_loop-AreNames (raw ∷ raws) seen names h k =
      let name = clean_name raw in
      elim (Bool-cases (not (is_empty name) && not (has_id (to_lower name) seen))) [
        | inl new ↦
            let unseen : has_id (to_lower name) seen ≡ false = ground arith in
            rw new (
              names_loop-AreNames raws (to_lower name ∷ seen) (names ++ (name ∷ []))
                (λ x. omega (arith, name_keys-snoc to_lower x name names, h x))
                (record {
                  named =
                      All-append Named names (name ∷ []) k.named
                        ((clean_name-IsName raw, ground arith), tt);
                  distinct = λ x. omega (
                    arith,
                    name_keys-snoc to_lower x name names,
                    h x,
                    k.distinct x,
                    fresh_key x (to_lower name) seen unseen (omega (arith, h x, k.distinct x)),
                  );
                }))
        | inr known ↦ rw known (names_loop-AreNames raws seen names h k)
      ]

  abbrev OnGiven : Text → Result (Option Celebration) → Type 0
  OnGiven message_id (ok none) = Unit {0}
  OnGiven message_id (ok (some c)) = IsTestGift to_lower message_id c
  OnGiven message_id (err e) = Unit {0}
  OnGiven message_id panic = Unit {0}
  OnGiven message_id stuck = Unit {0}

  test_gift-OnGiven :
      (message_id : Text) (parts : List Text)
      → OnGiven message_id (test_gift to_lower message_id parts)
  unfolding test_gift test_names
  test_gift-OnGiven message_id [] = tt
  test_gift-OnGiven message_id (a ∷ []) = tt
  test_gift-OnGiven message_id (a ∷ b ∷ []) =
      let names = test_names to_lower b in
      let k : AreNames to_lower names =
        names_loop-AreNames (split b 44) [] [] (λ x. refl)
          (record { named = tt; distinct = λ x. omega arith }) in
      elim (Bool-cases (is_empty (clean_name a))) [
        | inl gone ↦ rw gone tt
        | inr left ↦ elim (Bool-cases (ltb (length names) 10 || ltb 100 (length names))) [
          | inl bad ↦ rw (left, bad) tt
          | inr good ↦
              rw (left, good)
                (record {
                  id = refl;
                  counted = refl;
                  whole = refl;
                  enough = ground arith;
                  bounded = ground arith;
                  gifter = (clean_name-IsName a, left);
                  names = k;
                })
        ]
      ]
  test_gift-OnGiven message_id (a ∷ b ∷ d ∷ parts) = tt

  -- What `ParseTestCommand` lets through is of 10 to 100 cleaned names, none of them twice by its key,
  -- and a gifter's; the total is their number, the id is that of the message behind `testgift:`, and
  -- the broadcaster wrote it.
  pub parse_test_command-IsTestGift :
      (equal_fold : Text → Text → Bool) (message_id chatter_id broadcaster_id text : Text)
      (c : Celebration)
      → parse_test_command to_lower equal_fold message_id chatter_id broadcaster_id text
        ≡ ok (some c)
      → (chatter_id ≡ broadcaster_id) × IsTestGift to_lower message_id c
  unfolding parse_test_command
  parse_test_command-IsTestGift equal_fold message_id chatter_id broadcaster_id text c h =
      elim (Bool-cases (
        not (text_equal chatter_id broadcaster_id)
        || (is_empty message_id || not_command equal_fold text (codes "!testgift")))) [
          | inl other ↦ absurd (let h' = rw other at h in ground arith)
          | inr own ↦ (
            bytes_equal→eq chatter_id broadcaster_id (ground arith),
            subst (OnGiven message_id) (rw own at h)
                (test_gift-OnGiven message_id (split (command_text text) 124)),
          )
        ]
