-- ===== src/Support/Laws.antt =====
-- What is left of a value that is scrubbed.
use rongta_f11_open.Base.{◌≡◌, refl, Bool, true, false, Bytes, Result, ok, >>=-eq-ok}
use rongta_f11_open.Text.{Text}
use rongta_f11_open.Setup.{Behind, decode_strict}
use rongta_f11_open.Support.{
  Json, plain, array, object, Items, no_items, item, Members, no_members, member, redacted,
  kept_child, is_sensitive, redact_value, redact_items, redact_members, redact_json,
}

module _ (to_lower : Text → Text) where
  -- No object at any depth has anything but the mark under a sensitive key.
  abbrev mutual
    pub IsClean : Json → Type 0
    IsClean (plain text) = Unit {0}
    IsClean (array items) = AreClean items
    IsClean (object rest) = AllClean rest

    pub AreClean : Items → Type 0
    AreClean no_items = Unit {0}
    AreClean (item x items) = IsClean x × AreClean items

    pub AllClean : Members → Type 0
    AllClean no_members = Unit {0}
    AllClean (member key child rest) =
        (is_sensitive to_lower key ≡ true → child ≡ redacted) × IsClean child × AllClean rest

  kept_child-IsClean :
      (b : Bool) (child : Json)
      → IsClean child
      → (b ≡ true → kept_child b child ≡ redacted) × IsClean (kept_child b child)
  kept_child-IsClean true child k = (λ e. refl, tt)
  kept_child-IsClean false child k = (λ e. cc, k)

  mutual
    unfolding redact_value

    redact_value-IsClean : (v : Json) → IsClean (redact_value to_lower v)
    redact_value-IsClean (plain text) = tt
    redact_value-IsClean (array items) = redact_items-AreClean items
    redact_value-IsClean (object rest) = redact_members-AllClean rest

    redact_items-AreClean : (items : Items) → AreClean (redact_items to_lower items)
    redact_items-AreClean no_items = tt
    redact_items-AreClean (item x items) = (redact_value-IsClean x, redact_items-AreClean items)

    redact_members-AllClean : (rest : Members) → AllClean (redact_members to_lower rest)
    redact_members-AllClean no_members = tt
    redact_members-AllClean (member key child rest) =
        let (marked, inside) =
          kept_child-IsClean (is_sensitive to_lower key) (redact_value to_lower child)
            (redact_value-IsClean child) in
        (marked, inside, redact_members-AllClean rest)

-- What `RedactJSON` hands to the encoder is the decoded value scrubbed, in which no object at any depth
-- has anything but the mark under a sensitive key.
pub redact_json-IsClean :
    (to_lower : Text → Text) (decode : Bytes → Result (Json × Bytes)) (behind : Bytes → Behind)
    (encode : Json → Result Bytes) (input out : Bytes)
    → redact_json to_lower decode behind encode input ≡ ok out
    → (value : Json) × (decode_strict decode behind input ≡ ok value)
      × IsClean to_lower (redact_value to_lower value)
      × (encode (redact_value to_lower value) ≡ ok out)
unfolding redact_json
redact_json-IsClean to_lower decode behind encode input out e =
    let (value, decoded, coded) = >>=-eq-ok (decode_strict decode behind input) _ e in
    (value, decoded, redact_value-IsClean to_lower value, coded)
