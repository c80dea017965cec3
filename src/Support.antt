-- ===== src/Support.antt =====
-- The scrubbing of a support bundle, Appliance/internal/supportbundle/redact.go. The JSON coding and
-- strings.ToLower are arguments; `RedactText`, a list of regular expressions, is left out.
pub mod Laws
mod Tests
use rongta_f11_open.Base.{
  ℕ, ◌-◌, Bool, true, false, not, ◌&&◌, ◌||◌, List, [], ◌∷◌, ◌++◌, String, leb, ◌==◌, if◌then◌else◌,
  length, drop, Bytes, Result, ◌>>=◌,
}
use rongta_f11_open.Text.{Text, codes, is_empty, text_equal, has_prefix}
use rongta_f11_open.Setup.{Behind, decode_strict}

-- A decoded value; `plain` is a number, a Boolean, a text or null, by its text.
mutual
  pub data Json : Type 0 where
    plain : Text → Json
    array : Items → Json
    object : Members → Json

  pub data Items : Type 0 where
    no_items : Items
    item : Json → Items → Items

  pub data Members : Type 0 where
    no_members : Members
    member : Text → Json → Members → Members

abbrev pub redacted : Json
redacted = plain (codes "\"[REDACTED]\"")

-- What stands under a key, sensitive or not, whose value is scrubbed.
abbrev pub kept_child : Bool → Json → Json
kept_child true child = redacted
kept_child false child = child

-- `strings.ReplaceAll(key, "-", "_")`.
unfoldable pub underscored : Text → Text
underscored [] = []
underscored (r ∷ rs) = (if r == 45 then 95 else r) ∷ underscored rs

unfoldable pub has_suffix : Text → Text → Bool
has_suffix s end = leb (length end) (length s) && text_equal (drop (length s - length end) s) end

unfoldable pub is_one_of : Text → List Text → Bool
is_one_of key [] = false
is_one_of key (x ∷ xs) = text_equal key x || is_one_of key xs

abbrev pub exact_keys : List Text
exact_keys =
    codes "ssid"
    ∷ codes "psk"
    ∷ codes "wifi_password"
    ∷ codes "password"
    ∷ codes "setup_code"
    ∷ codes "access_token"
    ∷ codes "refresh_token"
    ∷ codes "client_secret"
    ∷ codes "authorization"
    ∷ codes "authorization_code"
    ∷ codes "oauth_code"
    ∷ codes "code"
    ∷ codes "cookie"
    ∷ codes "cookies"
    ∷ codes "set_cookie"
    ∷ codes "ip"
    ∷ codes "ip_address"
    ∷ codes "remote_ip"
    ∷ codes "mac"
    ∷ codes "mac_address"
    ∷ codes "serial"
    ∷ codes "usb_serial"
    ∷ codes "id_serial_short"
    ∷ codes "journal_record"
    ∷ codes "event_journal"
    ∷ []

module _ (to_lower : Text → Text) where
  unfoldable pub is_sensitive : Text → Bool
  unfolding underscored has_suffix is_one_of
  is_sensitive key =
      let normalized = to_lower (underscored key) in
      is_one_of normalized exact_keys
      || (has_suffix normalized (codes "_token")
          || (has_suffix normalized (codes "_secret") || has_suffix normalized (codes "_cookie")))

  -- `redactValue`, with the value that it leaves.
  unfoldable mutual
    pub redact_value : Json → Json
    redact_value (plain text) = plain text
    redact_value (array items) = array (redact_items items)
    redact_value (object rest) = object (redact_members rest)

    pub redact_items : Items → Items
    redact_items no_items = no_items
    redact_items (item x items) = item (redact_value x) (redact_items items)

    pub redact_members : Members → Members
    redact_members no_members = no_members
    redact_members (member key child rest) =
        member key (kept_child (is_sensitive key) (redact_value child)) (redact_members rest)

  unfoldable pub redact_json :
      (Bytes → Result (Json × Bytes))
      → (Bytes → Behind)
      → (Json → Result Bytes)
      → Bytes
      → Result Bytes
  unfolding decode_strict redact_value
  redact_json decode behind encode input = do
    value ← decode_strict decode behind input
    encode (redact_value value)

  -- strings.Contains.
  unfoldable pub contains_text : Text → Text → Bool
  unfolding has_prefix
  contains_text [] part = is_empty part
  contains_text (r ∷ rs) part = has_prefix (r ∷ rs) part || contains_text rs part

  -- The loop of `ScanCanaries`.
  unfoldable pub scan_loop : Text → List Text → List Text
  unfolding contains_text
  scan_loop lower [] = []
  scan_loop lower (canary ∷ canaries) =
      let rest = scan_loop lower canaries in
      if not (is_empty canary) && contains_text lower (to_lower canary) then canary ∷ rest else rest

  unfoldable pub scan_canaries : Text → List Text → List Text
  unfolding scan_loop
  scan_canaries text canaries = scan_loop (to_lower text) canaries
