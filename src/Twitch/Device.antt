-- ===== src/Twitch/Device.antt =====
-- The device flow of Appliance/internal/twitchdevice/client.go. A request of the server is a function of
-- its path and form, with the status and the body that come back; the JSON decoders, url.Parse,
-- sort.Strings and strings.EqualFold are arguments. Times count seconds.
pub mod Save
pub mod Laws
pub mod Whole
mod Tests
use rongta_f11_open.Base.{
  ℕ, zero, suc, ◌+◌, ◌≡◌, Bool, true, false, not, ◌&&◌, ◌||◌, List, [], ◌∷◌, ◌++◌, ltb, leb, ◌==◌,
  if◌then◌else◌, length, Bytes, Result, ok, err, panic, stuck, Error, new, annotated, masked, ◌>>=◌,
  ◌>>◌, fail_if,
}
use rongta_f11_open.Text.{Text, codes, is_empty, text_equal}

-- `exactScopes`.
abbrev pub exact_scopes : List Text
exact_scopes = codes "bits:read" ∷ codes "user:read:chat" ∷ []

abbrev pub scope : Text
scope = codes "bits:read user:read:chat"

unfoldable pub all_of : (ℕ → Bool) → Text → Bool
all_of p [] = true
all_of p (r ∷ rs) = p r && all_of p rs

abbrev pub is_digit_rune : ℕ → Bool
is_digit_rune r = leb 48 r && leb r 57

abbrev pub is_lower_rune : ℕ → Bool
is_lower_rune r = leb 97 r && leb r 122

abbrev pub is_client_rune : ℕ → Bool
is_client_rune r =
    (leb 65 r && leb r 90) || (is_lower_rune r || (is_digit_rune r || (r == 95 || r == 45)))

-- `clientIDPattern`, `loginPattern` and `userIDPattern`.
unfoldable pub is_client_id : Text → Bool
unfolding all_of
is_client_id id = all_of is_client_rune id && (leb 8 (length id) && leb (length id) 128)

unfoldable pub is_login : Text → Bool
unfolding all_of
is_login name =
    all_of (λ r. is_lower_rune r || (is_digit_rune r || r == 95)) name
    && (leb 1 (length name) && leb (length name) 25)

unfoldable pub is_user_id : Text → Bool
unfolding all_of
is_user_id id = all_of is_digit_rune id && (leb 1 (length id) && leb (length id) 20)

pub data PollState : Type 0 where
  pending slow_down expired denied : PollState

pub record Flow : Type 0 where
  pub client_id : Text
  pub device_code : Text
  pub verification_uri : Text
  pub user_code : Text
  pub expires_at : ℕ
  pub interval : ℕ

pub record DeviceToken : Type 0 where
  pub access_token : Text
  pub refresh_token : Text
  pub scope : List Text
  pub token_type : Text
  pub expires_at : ℕ

pub record Identity : Type 0 where
  pub client_id : Text
  pub login : Text
  pub user_id : Text
  pub scopes : List Text

-- `Result`.
pub record Authorization : Type 0 where
  pub token : DeviceToken
  pub identity : Identity

-- What `Poll` returns: an authorization and Authorized, or another state, with an error or without.
pub data Polled : Type 0 where
  authorized : Authorization → Polled
  waiting : PollState → Polled
  failed : PollState → Error → Polled

-- The loop of `sameScopes` behind the test of the lengths.
unfoldable pub same_texts : List Text → List Text → Bool
same_texts [] [] = true
same_texts [] (y ∷ ys) = false
same_texts (x ∷ xs) [] = false
same_texts (x ∷ xs) (y ∷ ys) = text_equal x y && same_texts xs ys

unfoldable pub same_scopes : (List Text → List Text) → List Text → Bool
unfolding same_texts
same_scopes sort scopes = same_texts (sort scopes) (sort exact_scopes)

unfoldable pub check_identity : (List Text → List Text) → Identity → Text → Result (Unit {0})
unfolding is_login is_user_id same_scopes
check_identity sort i client_id =
    fail_if
      (not (text_equal i.client_id client_id)
        || (not (is_login i.login)
            || (not (is_user_id i.user_id) || not (same_scopes sort i.scopes))))
      "Twitch token identity or scopes did not match"

-- `decodeStrict`, with what the decoder makes of the first value and what it leaves.
unfoldable pub decode_one {ℓ} :
    {A : Type ℓ} → (Bytes → Result (A × Bytes)) → (Bytes → Bool) → Bytes → Result A
decode_one decode ended raw = do
  (value, rest) ← decode raw
  fail_if (not (ended rest)) "multiple JSON values"
  ok value

-- `readCapped`.
unfoldable pub read_capped : Bytes → Result Bytes
read_capped raw = do fail_if (ltb 65536 (length raw)) "Twitch response too large"; ok raw

-- What the token endpoint answers.
pub record TokenWire : Type 0 where
  pub access_token : Text
  pub refresh_token : Text
  pub expires_in : ℕ
  pub scope : List Text
  pub token_type : Text

-- What the device endpoint answers.
pub record FlowWire : Type 0 where
  pub device_code : Text
  pub user_code : Text
  pub verification_uri : Text
  pub expires_in : ℕ
  pub interval : ℕ

-- The server and the packages that the client uses.
pub record Services : Type 0 where
  pub post : Text → List (Text × Text) → Result (ℕ × Bytes)
  pub get_identity : Text → Result (ℕ × Bytes)
  pub decode_token : Bytes → Result (TokenWire × Bytes)
  pub decode_flow : Bytes → Result (FlowWire × Bytes)
  pub decode_identity : Bytes → Result (Identity × Bytes)
  pub decode_message : Bytes → Result (Text × Bytes)
  pub ended : Bytes → Bool
  pub is_https : Text → Bool
  pub equal_fold : Text → Text → Bool
  pub sort : List Text → List Text

-- What a form is answered with: the decoded value behind a status from 200 to 299, the message of an
-- error behind another one.
pub data Answered {ℓ} (A : Type ℓ) : Type ℓ where
  accepted : ℕ → A → Answered A
  rejected : ℕ → Text → Answered A

module _ (s : Services) where
  unfoldable pub form_status {ℓ} :
      {A : Type ℓ} → (Bytes → Result (A × Bytes)) → Text → List (Text × Text) → Result (Answered A)
  unfolding decode_one read_capped
  form_status decode path values = do
    (status, body) ← s.post path values
    raw ← read_capped body
    let good = (do
      value ← annotated "invalid Twitch response" (decode_one decode s.ended raw)
      ok (accepted status value))
    let bad = (do
      message ← masked "Twitch request failed" (decode_one s.decode_message s.ended raw)
      ok (rejected status message))
    if leb 200 status && ltb status 300 then good else bad

  -- `form`.
  abbrev pub only_accepted {ℓ} : {A : Type ℓ} → Answered A → Result A
  only_accepted (accepted status value) = ok value
  only_accepted (rejected status message) = err (new "Twitch request failed")

  unfoldable pub start : Text → ℕ → Result Flow
  unfolding is_client_id form_status
  start client_id now = do
    fail_if (not (is_client_id client_id)) "invalid Twitch client ID"
    answered ←
        form_status s.decode_flow (codes "/device")
          ((codes "client_id", client_id) ∷ (codes "scopes", scope) ∷ [])
    r ← only_accepted answered
    fail_if
        (not (s.is_https r.verification_uri)
          || (is_empty r.device_code
              || (is_empty r.user_code
                  || (ltb r.expires_in 1
                      || (ltb 1800 r.expires_in || (ltb r.interval 1 || ltb 60 r.interval))))))
        "invalid Twitch device response"
    ok (record {
      client_id = client_id;
      device_code = r.device_code;
      verification_uri = r.verification_uri;
      user_code = r.user_code;
      expires_at = now + r.expires_in;
      interval = r.interval;
    })

  -- `validate`.
  unfoldable pub identify : Text → Text → Result Identity
  unfolding decode_one check_identity
  identify access_token client_id = do
    (status, body) ← s.get_identity access_token
    fail_if (not (status == 200)) "Twitch token validation failed"
    i ← annotated "invalid Twitch validation response" (decode_one s.decode_identity s.ended body)
    check_identity s.sort i client_id
    ok i

  -- An answer of another status than 200.
  unfoldable pub poll_state : Text → Polled
  poll_state message =
      if text_equal message (codes "authorization_pending")
      then waiting pending
      else if text_equal message (codes "slow_down")
      then waiting slow_down
      else if text_equal message (codes "expired_token")
      then failed expired (new "Twitch authorization expired")
      else if text_equal message (codes "access_denied")
      then failed denied (new "Twitch authorization denied")
      else failed denied (new "Twitch authorization failed")

  unfoldable pub bad_token : TokenWire → Bool
  unfolding same_scopes
  bad_token r =
      is_empty r.access_token
      || (ltb r.expires_in 1
          || (ltb 86400 r.expires_in
              || (not (same_scopes s.sort r.scope)
                  || not (s.equal_fold r.token_type (codes "bearer")))))

  -- The token with what `validate` says of it; `later` is the time then.
  unfoldable pub granted_token : TokenWire → ℕ → Result Identity → Result Polled
  granted_token r later panic = panic
  granted_token r later stuck = stuck
  granted_token r later (err why) = ok (failed denied why)
  granted_token r later (ok i) = ok (
      authorized (record {
        token = record {
          access_token = r.access_token;
          refresh_token = r.refresh_token;
          scope = r.scope;
          token_type = r.token_type;
          expires_at = later + r.expires_in;
        };
        identity = i;
      }))

  unfoldable pub poll_answer : Text → ℕ → Result (Answered TokenWire) → Result Polled
  unfolding poll_state bad_token identify granted_token
  poll_answer client_id later panic = panic
  poll_answer client_id later stuck = stuck
  poll_answer client_id later (err why) = ok (failed denied why)
  poll_answer client_id later (ok (rejected status message)) = ok (poll_state message)
  poll_answer client_id later (ok (accepted status r)) =
      let identified = granted_token r later (identify r.access_token client_id) in
      if not (status == 200)
      then ok (poll_state [])
      else if bad_token r
      then ok (failed denied (new "invalid Twitch token response"))
      else identified

  abbrev pub poll_form : Flow → List (Text × Text)
  poll_form f =
      (codes "client_id", f.client_id)
      ∷ (codes "device_code", f.device_code)
      ∷ (codes "grant_type", codes "urn:ietf:params:oauth:grant-type:device_code")
      ∷ (codes "scopes", scope)
      ∷ []

  unfoldable pub poll : Flow → ℕ → ℕ → Result Polled
  unfolding is_client_id form_status poll_answer
  poll f now later =
      let answered =
        poll_answer f.client_id later (form_status s.decode_token (codes "/token") (poll_form f)) in
      if not (ltb now f.expires_at)
      then ok (failed expired (new "Twitch authorization expired"))
      else if not (is_client_id f.client_id) || is_empty f.device_code
      then ok (failed denied (new "invalid device flow"))
      else answered
