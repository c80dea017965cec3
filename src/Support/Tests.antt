-- ===== src/Support/Tests.antt =====
-- The scrubbing of a support bundle at a concrete value.
use rongta_f11_open.Base.{◌≡◌, refl, [], ◌∷◌, Bytes, Result, ok}
use rongta_f11_open.Text.{codes, has_prefix}
use rongta_f11_open.Setup.{at_end, decode_strict}
use rongta_f11_open.Support.{
  Json, plain, array, object, no_items, item, no_members, member, redacted, is_sensitive,
  underscored, has_suffix, is_one_of, redact_value, redact_json, contains_text, scan_loop,
  scan_canaries,
}
use rongta_f11_open.Support.Laws.{IsClean, redact_json-IsClean}

abbrev sample_value : Json
sample_value = object (
    member (codes "wifi")
      (array (item (object (member (codes "x-token") (plain (codes "s3")) no_members)) no_items))
      no_members)

abbrev scrubbed_value : Json
scrubbed_value = object (
    member (codes "wifi")
      (array (item (object (member (codes "x-token") redacted no_members)) no_items)) no_members)

abbrev print_json : Json → Result Bytes
print_json v = ok (5 ∷ [])

sample_value-scrubbed : redact_value (λ s. s) sample_value ≡ scrubbed_value
unfolding redact_value is_sensitive underscored has_suffix is_one_of
sample_value-scrubbed = refl

canaries_found :
    scan_canaries (λ s. s) (codes "a s3 b") (codes "s3" ∷ [] ∷ codes "s4" ∷ []) ≡ codes "s3" ∷ []
unfolding scan_canaries scan_loop contains_text has_prefix
canaries_found = refl

redact_json-IsClean_example :
    (value : Json) × (decode_strict (λ raw. ok (sample_value, [])) (λ rest. at_end) [] ≡ ok value)
    × IsClean (λ s. s) (redact_value (λ s. s) value)
    × (print_json (redact_value (λ s. s) value) ≡ ok (5 ∷ []))
redact_json-IsClean_example =
    redact_json-IsClean (λ s. s) (λ raw. ok (sample_value, [])) (λ rest. at_end) print_json []
      (5 ∷ []) (unfold redact_json decode_strict in refl)
