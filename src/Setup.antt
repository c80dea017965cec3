-- ===== src/Setup.antt =====
-- The progress of the setup, Appliance/internal/setupstate/state.go. The file is what it holds, and
-- how a system call ends is an argument, as is the JSON coding. A version below 0, which is refused, is
-- not represented.
pub mod Laws
pub mod Store
mod Tests
use rongta_f11_open.Base.{
  ℕ, zero, suc, ◌+◌, Bool, true, false, not, ◌&&◌, ◌||◌, List, [], ◌∷◌, ◌++◌, String, ltb, ◌==◌,
  if◌then◌else◌, length, Bytes, Option, none, some, Error, new, Result, ok, err, panic, stuck,
  wrapped, annotated, ◌>>=◌, ◌>>◌, fail_if,
}
use rongta_f11_open.Text.{Text, codes, text_equal}

-- A time; `zero_time` is the one whose IsZero is true.
pub data Time : Type 0 where
  zero_time : Time
  unix : ℕ → Time

abbrev pub is_zero : Time → Bool
is_zero zero_time = true
is_zero (unix n) = false

-- `checkpoints` is a map that may be nil.
pub record State : Type 0 where
  pub version : ℕ
  pub checkpoints : Option (List (Text × Time))
  pub updated_at : Time

unfoldable pub new_state : State
new_state = record { version = 1; checkpoints = some []; updated_at = zero_time }

-- `validCheckpoints[checkpoint]`.
unfoldable pub is_valid_checkpoint : Text → Bool
is_valid_checkpoint c =
    text_equal c (codes "welcome")
    || (text_equal c (codes "network")
        || (text_equal c (codes "printer")
            || (text_equal c (codes "twitch")
                || (text_equal c (codes "eventsub")
                    || (text_equal c (codes "preview")
                        || (text_equal c (codes "physical_attempted")
                            || text_equal c (codes "complete")))))))

unfoldable pub has_checkpoint : Text → List (Text × Time) → Bool
has_checkpoint c [] = false
has_checkpoint c ((key, t) ∷ m) = text_equal c key || has_checkpoint c m

unfoldable pub put_checkpoint : Text → Time → List (Text × Time) → List (Text × Time)
put_checkpoint c t [] = (c, t) ∷ []
put_checkpoint c t ((key, u) ∷ m) =
    let later = put_checkpoint c t m in if text_equal c key then (key, t) ∷ m else (key, u) ∷ later

abbrev pub entries : Option (List (Text × Time)) → List (Text × Time)
entries none = []
entries (some m) = m

-- `Completed` and `Complete`.
unfoldable pub completed : State → Text → Bool
unfolding has_checkpoint
completed s c = has_checkpoint c (entries s.checkpoints)

unfoldable pub complete : State → Text → Time → Result State
unfolding is_valid_checkpoint put_checkpoint
complete s c t = do
  fail_if (not (is_valid_checkpoint c)) "unknown checkpoint"
  fail_if (is_zero t) "checkpoint time must not be zero"
  ok (record s { checkpoints = some (put_checkpoint c t (entries s.checkpoints)); updated_at = t })

-- The loop of `validate`.
unfoldable pub all_valid : List (Text × Time) → Bool
unfolding is_valid_checkpoint
all_valid [] = true
all_valid ((c, t) ∷ m) = (is_valid_checkpoint c && not (is_zero t)) && all_valid m

unfoldable pub validate_entries : Option (List (Text × Time)) → Result (Unit {0})
unfolding all_valid
validate_entries none = err (new "invalid schema")
validate_entries (some m) = fail_if (not (all_valid m)) "invalid checkpoint"

unfoldable pub validate : State → Result (Unit {0})
unfolding validate_entries
validate s = do fail_if (not (s.version == 1)) "invalid schema"; validate_entries s.checkpoints

-- What a second call of the decoder finds.
pub data Behind : Type 0 where
  at_end another_value : Behind
  broken : Error → Behind

-- `decodeStrict`, with what the decoder makes of the first value and what it leaves.
unfoldable pub decode_strict {ℓ} :
    {A : Type ℓ} → (Bytes → Result (A × Bytes)) → (Bytes → Behind) → Bytes → Result A
decode_strict decode behind raw = do
  (value, rest) ← decode raw
  elim (behind rest) [
    | at_end ↦ ok value
    | another_value ↦ err (new "trailing JSON value")
    | broken why ↦ err why
  ]

-- The loop of `decodeLegacy`; the migration marker is the Unix epoch.
unfoldable pub migrate : List Text → List (Text × Time) → Result (List (Text × Time))
unfolding is_valid_checkpoint put_checkpoint
migrate [] m = ok m
migrate (c ∷ cs) m =
    let rest = migrate cs (put_checkpoint c (unix 0) m) in
    if is_valid_checkpoint c then rest else err (new "unknown checkpoint")

-- A legacy state.
pub record Legacy : Type 0 where
  pub version : ℕ
  pub completed : List Text

-- The JSON decoders that the package uses.
pub record Decoders : Type 0 where
  pub version : Bytes → Result ℕ
  pub state : Bytes → Result (State × Bytes)
  pub legacy : Bytes → Result (Legacy × Bytes)
  pub behind : Bytes → Behind

-- `ErrCorrupt` with what is wrong.
abbrev pub corrupt : {A : Type 0} → Result A → Result A
corrupt = annotated "setup state is corrupt"

module _ (json : Decoders) where
  unfoldable pub decode_legacy : Bytes → Result State
  unfolding migrate decode_strict new_state
  decode_legacy raw = corrupt (do
    legacy ← decode_strict json.legacy json.behind raw
    m ← migrate legacy.completed []
    ok (record new_state { checkpoints = some m }))

  unfoldable pub decode_state : Bytes → Result State
  unfolding validate decode_strict
  decode_state raw = corrupt (do s ← decode_strict json.state json.behind raw; validate s; ok s)

  -- What `Load` makes of what it read.
  unfoldable pub load_data : Bytes → Result State
  unfolding decode_legacy decode_state
  load_data raw = do
    version ← corrupt (json.version raw)
    let other : Result State = corrupt (err (new "unsupported version"))
    if version == 0
        then decode_legacy raw
        else if not (version == 1)
        then other
        else decode_state raw
