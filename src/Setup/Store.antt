-- ===== src/Setup/Store.antt =====
-- `Load` and `Save` of Appliance/internal/setupstate/state.go on the file.
pub mod Laws
use rongta_f11_open.Base.{
  ℕ, ◌+◌, Bool, List, [], ◌∷◌, ◌++◌, ltb, length, Bytes, Error, new, Result, ok, err, panic, stuck,
  ◌>>=◌, ◌>>◌, fail_if,
}
use rongta_f11_open.Disk.{
  Stored, missing, unreadable, unopened, content, unsynced, Calls, replace, interrupted,
}
use rongta_f11_open.Setup.{State, Decoders, new_state, corrupt, load_data, validate}

abbrev pub max_state_bytes : ℕ
max_state_bytes = 65536

unfoldable pub load_raw : Decoders → Bytes → Result State
unfolding load_data
load_raw json raw = do
  corrupt (fail_if (ltb max_state_bytes (length raw)) "unreadable or oversized")
  load_data json raw

-- An error comes with the new state.
unfoldable pub load : Decoders → Stored → Result State
unfolding load_raw
load json missing = ok new_state
load json (unopened why) = err why
load json unreadable = corrupt (err (new "unreadable or oversized"))
load json (content raw) = load_raw json raw
load json (unsynced raw) = load_raw json raw

-- The data that is written.
unfoldable pub save_data : (State → Result Bytes) → State → Result Bytes
save_data encode s = do
  let current : State = record s { version = 1 }
  validate current
  raw ← encode current
  fail_if (ltb max_state_bytes (length (raw ++ (10 ∷ [])))) "setup state exceeds size limit"
  ok (raw ++ (10 ∷ []))

-- The file behind the checks, with the data or the error.
unfoldable pub save_coded : Calls → Stored → Result Bytes → Stored × Result (Unit {0})
unfolding replace
save_coded c file (ok raw) = replace c raw file
save_coded c file (err why) = (file, err why)
save_coded c file panic = (file, panic)
save_coded c file stuck = (file, stuck)

unfoldable pub save : (State → Result Bytes) → Calls → State → Stored → Stored × Result (Unit {0})
unfolding save_data save_coded
save encode c s file = save_coded c file (save_data encode s)

-- The file when `Save` is stopped behind its first `n` system calls.
unfoldable pub interrupted_coded : ℕ → Calls → Stored → Result Bytes → Stored
unfolding interrupted
interrupted_coded n c file (ok raw) = interrupted n c raw file
interrupted_coded n c file (err why) = file
interrupted_coded n c file panic = file
interrupted_coded n c file stuck = file

unfoldable pub interrupted_save : ℕ → (State → Result Bytes) → Calls → State → Stored → Stored
unfolding save_data interrupted_coded
interrupted_save n encode c s file = interrupted_coded n c file (save_data encode s)
