-- ===== src/Twitch/Api.antt =====
-- The client of the Twitch API, Appliance/internal/twitchbanner/twitch.go. A call of the server (doJSON
-- and http.Client.Do) is a function of what is asked; url.QueryEscape, strings.EqualFold and the JSON
-- decoding are arguments. Times count seconds, and none is the zero time.
pub mod Laws
use rongta_f11_open.Base.{
  ℕ, zero, suc, ◌+◌, Bool, true, false, not, ◌&&◌, ◌||◌, List, [], ◌∷◌, ◌++◌, ltb, leb, ◌==◌,
  if◌then◌else◌, length, Bytes, Option, none, some, Result, ok, err, panic, stuck, new, errorf,
  ◌>>=◌, ◌>>◌, fail_if,
}
use rongta_f11_open.Text.{Text, codes, is_empty, text_equal}

pub record Token : Type 0 where
  pub access_token : Text
  pub refresh_token : Text
  pub scope : List Text
  pub token_type : Text
  pub expires_at : Option ℕ

-- `NeedsRefresh`: five minutes before the end, or without a known end.
unfoldable pub needs_refresh : Token → ℕ → Bool
needs_refresh t now =
    is_empty t.access_token
    || elim t.expires_at [ none ↦ true | some end ↦ not (ltb (now + 300) end) ]

pub record TokenIdentity : Type 0 where
  pub client_id : Text
  pub login : Text
  pub user_id : Text
  pub scopes : List Text

unfoldable pub has_scope : Text → List Text → Bool
has_scope s [] = false
has_scope s (x ∷ xs) = text_equal s x || has_scope s xs

-- `Validate`; the scope that the last error names depends on the order of a map, and is left out.
unfoldable pub validate_identity :
    (Text → Text → Bool) → TokenIdentity → Text → Text → Text → Result (Unit {0})
unfolding has_scope
validate_identity equal_fold i client_id login user_id = do
  fail_if (not (text_equal i.client_id client_id))
      "OAuth token belongs to a different Twitch application"
  fail_if (not (equal_fold i.login login)) "OAuth token belongs to a different Twitch broadcaster"
  fail_if (not (text_equal i.user_id user_id))
      "OAuth token belongs to a different Twitch broadcaster ID"
  fail_if
      (not (has_scope (codes "bits:read") i.scopes)
        || not (has_scope (codes "user:read:chat") i.scopes))
      "OAuth token lacks a scope"

-- `eventSubSubscription`; a condition that lacks is the empty text.
pub record Subscription : Type 0 where
  pub id : Text
  pub kind : Text
  pub status : Text
  pub condition : Text → Text
  pub method : Text
  pub session_id : Text

abbrev pub cheer_kind : Text
cheer_kind = codes "channel.cheer"

abbrev pub chat_kind : Text
chat_kind = codes "channel.chat.message"

abbrev pub notice_kind : Text
notice_kind = codes "channel.chat.notification"

abbrev pub raid_kind : Text
raid_kind = codes "channel.raid"

-- `requiredSubscriptionMatches`.
unfoldable pub is_required : Subscription → Text → Bool
is_required s broadcaster_id =
    if text_equal s.kind cheer_kind
    then text_equal (s.condition (codes "broadcaster_user_id")) broadcaster_id
    else if text_equal s.kind chat_kind || text_equal s.kind notice_kind
    then text_equal (s.condition (codes "broadcaster_user_id")) broadcaster_id
      && text_equal (s.condition (codes "user_id")) broadcaster_id
    else text_equal s.kind raid_kind
      && text_equal (s.condition (codes "to_broadcaster_user_id")) broadcaster_id

-- A page of the listing.
pub record Page : Type 0 where
  pub items : List Subscription
  pub cursor : Text

abbrev pub subscriptions_path : Text
subscriptions_path = codes "/helix/eventsub/subscriptions"

module _ (escape : Text → Text) (get : Text → Result Page) where
  abbrev pub page_path : Text → Text
  page_path after =
      if is_empty after
      then subscriptions_path
      else subscriptions_path ++ (codes "?after=" ++ escape after)

  -- The loop of `listSubscriptions` with the pages left.
  unfoldable pub list_pages : ℕ → Text → List Subscription → Result (List Subscription)
  list_pages zero after all = err (new "Twitch subscription listing exceeded page limit")
  list_pages (suc n) after all = do
    page ← get (page_path after)
    let more = list_pages n page.cursor (all ++ page.items)
    if is_empty page.cursor then ok (all ++ page.items) else more

  unfoldable pub list_subscriptions : Result (List Subscription)
  unfolding list_pages
  list_subscriptions = list_pages 20 [] []

-- What a run of deletions asked for, and how it ended.
pub record Deleted : Type 0 where
  pub paths : List Text
  pub answer : Result (Unit {0})

abbrev pub deletes : Text → Deleted → Deleted
deletes path d = record { paths = path ∷ d.paths; answer = d.answer }

module _ (escape : Text → Text) (delete : Text → Result (Unit {0})) where
  abbrev pub delete_path : Text → Text
  delete_path id = subscriptions_path ++ (codes "?id=" ++ escape id)

  -- Behind a call of the server.
  abbrev pub after_delete : Text → Result (Unit {0}) → Deleted → Deleted
  after_delete path (ok _) d = deletes path d
  after_delete path (err why) d = record { paths = path ∷ []; answer = err why }
  after_delete path panic d = record { paths = path ∷ []; answer = panic }
  after_delete path stuck d = record { paths = path ∷ []; answer = stuck }

  -- The loop of `DeleteRequiredSubscriptions`.
  unfoldable pub delete_loop : Text → List Subscription → Deleted
  unfolding is_required
  delete_loop broadcaster_id [] = record { paths = []; answer = ok tt }
  delete_loop broadcaster_id (s ∷ ss) =
      let rest = delete_loop broadcaster_id ss in
      let path = delete_path s.id in
      let called = after_delete path (delete path) rest in
      let nameless : Deleted = record {
        paths = [];
        answer = err (new "Twitch subscription omitted ID");
      } in
      if not (is_required s broadcaster_id)
      then rest
      else if is_empty s.id
      then nameless
      else called

  abbrev pub delete_listed : Text → Result (List Subscription) → Deleted
  delete_listed broadcaster_id (ok all) = delete_loop broadcaster_id all
  delete_listed broadcaster_id (err why) = record { paths = []; answer = err why }
  delete_listed broadcaster_id panic = record { paths = []; answer = panic }
  delete_listed broadcaster_id stuck = record { paths = []; answer = stuck }

  unfoldable pub delete_required : (Text → Result Page) → Text → Deleted
  unfolding list_subscriptions delete_loop
  delete_required get broadcaster_id =
      let listed = delete_listed broadcaster_id (list_subscriptions escape get) in
      if is_empty broadcaster_id
      then record { paths = []; answer = err (new "broadcaster ID is required") }
      else listed

abbrev pub is_current : Subscription → Text → Bool
is_current s session_id =
    text_equal s.status (codes "enabled")
    && (text_equal s.method (codes "websocket") && text_equal s.session_id session_id)

-- The first loop of `VerifyRequiredSubscriptions`: the kinds that `counts` counts.
unfoldable pub count_kinds : Text → Text → List Subscription → List Text → Result (List Text)
unfolding is_required
count_kinds broadcaster_id session_id [] counts = ok counts
count_kinds broadcaster_id session_id (s ∷ ss) counts =
    let skipped = count_kinds broadcaster_id session_id ss counts in
    let counted = count_kinds broadcaster_id session_id ss (s.kind ∷ counts) in
    if not (is_required s broadcaster_id)
    then skipped
    else if not (is_current s session_id)
    then err (new "required Twitch subscription is not enabled for the current WebSocket session")
    else counted

-- `counts[subscriptionType]`.
unfoldable pub count_of : Text → List Text → ℕ
count_of kind [] = 0
count_of kind (k ∷ ks) = (if text_equal kind k then 1 else 0) + count_of kind ks

unfoldable pub verify_required :
    (Text → Text) → (Text → Result Page) → Text → Text → Result (Unit {0})
unfolding list_subscriptions count_kinds count_of
verify_required escape get broadcaster_id session_id = do
  fail_if (is_empty broadcaster_id || is_empty session_id)
      "broadcaster and WebSocket session IDs are required"
  all ← list_subscriptions escape get
  counts ← count_kinds broadcaster_id session_id all []
  fail_if
      (not (count_of cheer_kind counts == 1)
        || (not (count_of chat_kind counts == 1)
            || (not (count_of notice_kind counts == 1) || not (count_of raid_kind counts == 1))))
      "required Twitch subscriptions are incomplete or duplicated"

-- The body that asks for a subscription.
pub record Subscribe : Type 0 where
  pub kind : Text
  pub version : Text
  pub condition : List (Text × Text)
  pub method : Text
  pub session_id : Text

abbrev pub subscribe :
    (Subscribe → Result (Unit {0})) → Text → Text → Text → List (Text × Text) → Result (Unit {0})
subscribe post broadcaster_id session_id kind condition = do
  fail_if (is_empty broadcaster_id || is_empty session_id)
      "broadcaster and WebSocket session IDs are required"
  post (record {
    kind = kind;
    version = codes "1";
    condition = condition;
    method = codes "websocket";
    session_id = session_id;
  })

module _ (post : Subscribe → Result (Unit {0})) (broadcaster_id session_id : Text) where
  unfoldable pub subscribe_cheer : Result (Unit {0})
  subscribe_cheer =
      subscribe post broadcaster_id session_id cheer_kind
        ((codes "broadcaster_user_id", broadcaster_id) ∷ [])

  unfoldable pub subscribe_chat : Result (Unit {0})
  subscribe_chat =
      subscribe post broadcaster_id session_id chat_kind
        ((codes "broadcaster_user_id", broadcaster_id) ∷ (codes "user_id", broadcaster_id) ∷ [])

  unfoldable pub subscribe_notifications : Result (Unit {0})
  subscribe_notifications =
      subscribe post broadcaster_id session_id notice_kind
        ((codes "broadcaster_user_id", broadcaster_id) ∷ (codes "user_id", broadcaster_id) ∷ [])

  unfoldable pub subscribe_raid : Result (Unit {0})
  subscribe_raid =
      subscribe post broadcaster_id session_id raid_kind
        ((codes "to_broadcaster_user_id", broadcaster_id) ∷ [])

abbrev pub only_one : List Text → Result Text
only_one (id ∷ []) = ok id
only_one ids = err (new "Twitch channel login not found")

-- `UserByLogin`, with the ids that the server answers.
unfoldable pub user_by_login : (Text → Text) → (Text → Result (List Text)) → Text → Result Text
user_by_login escape get login = do
  ids ← get (codes "/helix/users?login=" ++ escape login)
  only_one ids

-- What the token endpoint answers: a status and, decoded, the token.
pub record Wire : Type 0 where
  pub access_token : Text
  pub refresh_token : Text
  pub expires_in : ℕ
  pub scope : List Text
  pub token_type : Text

unfoldable pub token_request :
    (List (Text × Text) → Result (ℕ × Bytes))
    → (Bytes → Result Wire)
    → ℕ
    → List (Text × Text)
    → Result Token
token_request post decode now form = do
  (status, body) ← post form
  let refused : Result (Unit {0}) = err (errorf "Twitch OAuth" status)
  let checked : Result (Unit {0}) = if status == 200 then ok tt else refused
  checked
  wire ← decode body
  fail_if (is_empty wire.access_token || is_empty wire.refresh_token)
      "Twitch OAuth response omitted token"
  ok (record {
    access_token = wire.access_token;
    refresh_token = wire.refresh_token;
    scope = wire.scope;
    token_type = wire.token_type;
    expires_at = some (now + wire.expires_in);
  })

-- The forms of `ExchangeCode` and `RefreshToken`.
unfoldable pub exchange_form : Text → Text → Text → Text → List (Text × Text)
exchange_form client_id secret auth_code redirect =
    (codes "client_id", client_id)
    ∷ (codes "client_secret", secret)
    ∷ (codes "code", auth_code)
    ∷ (codes "grant_type", codes "authorization_code")
    ∷ (codes "redirect_uri", redirect)
    ∷ []

unfoldable pub refresh_form : Text → Text → Text → List (Text × Text)
refresh_form client_id secret refresh =
    (codes "client_id", client_id)
    ∷ (codes "grant_type", codes "refresh_token")
    ∷ (codes "refresh_token", refresh)
    ∷ (if is_empty secret then [] else (codes "client_secret", secret) ∷ [])
