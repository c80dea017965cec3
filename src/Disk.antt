-- ===== src/Disk.antt =====
-- The replacing of a file by way of a temporary one, as `Save` of Appliance/internal/setupstate/state.go
-- and `atomicWrite` of Appliance/internal/twitchdevice/client.go do it, with the same system calls.
pub mod Laws
use rongta_f11_open.Base.{
  ℕ, Bool, true, false, List, [], ◌∷◌, ◌++◌, Option, some, none, take, Bytes, Error, Result, ok,
  err, panic, stuck, new,
}

-- What opening and reading a file finds. The data of `unsynced` are read like those of `content`, but a
-- power failure may cut them off.
pub data Stored : Type 0 where
  missing unreadable : Stored
  unopened : Error → Stored
  content unsynced : Bytes → Stored

-- How the system calls end, in turn; a write that fails has put the first `partial` bytes into the file.
pub record Calls : Type 0 where
  pub make_dir : Result (Unit {0})
  pub create_temp : Result (Unit {0})
  pub chmod : Result (Unit {0})
  pub write : Result (Unit {0})
  pub partial : ℕ
  pub sync : Result (Unit {0})
  pub close : Result (Unit {0})
  pub rename : Result (Unit {0})
  pub open_dir : Result (Unit {0})
  pub sync_dir : Result (Unit {0})

-- The file, the data of the temporary file, and whether these data are all on the device.
pub record Volume : Type 0 where
  pub file : Stored
  pub temp : Option Bytes
  pub synced : Bool

abbrev pub fresh : Stored → Volume
fresh file = record { file = file; temp = none; synced = false }

-- A call on the volume, and its error.
abbrev pub Step : Type 0
Step = Volume → Volume × Result (Unit {0})

-- The volume behind a call that ends well, or not.
unfoldable pub behind_call : Result (Unit {0}) → Volume → Volume → Volume
behind_call (ok _) good bad = good
behind_call (err why) good bad = bad
behind_call panic good bad = bad
behind_call stuck good bad = bad

-- A call that changes neither file.
abbrev pub quiet : Result (Unit {0}) → Step
quiet r v = (behind_call r v v, r)

abbrev pub create_temp : Result (Unit {0}) → Step
create_temp r v = (behind_call r (record v { temp = some []; synced = false }) v, r)

-- Bytes at the end of the temporary file.
unfoldable pub write_behind : Bytes → Option Bytes → Option Bytes
write_behind raw (some x) = some (x ++ raw)
write_behind raw none = none

abbrev pub write_temp : Result (Unit {0}) → ℕ → Bytes → Step
write_temp r partial raw v = (
  behind_call r (record v { temp = write_behind raw v.temp; synced = false })
      (record v { temp = write_behind (take partial raw) v.temp; synced = false }),
  r,
)

abbrev pub sync_temp : Result (Unit {0}) → Step
sync_temp r v = (behind_call r (record v { synced = true }) v, r)

unfoldable pub renamed : Bool → Bytes → Stored
renamed true x = content x
renamed false x = unsynced x

unfoldable pub rename_data : Result (Unit {0}) → Volume → Option Bytes → Volume × Result (Unit {0})
unfolding behind_call renamed
rename_data r v none = (v, err (new "no such file or directory"))
rename_data r v (some x) =
    (behind_call r (record v { file = renamed v.synced x; temp = none }) v, r)

unfoldable pub rename_temp : Result (Unit {0}) → Step
unfolding rename_data
rename_temp r v = rename_data r v v.temp

unfoldable pub behind_step :
    Volume × Result (Unit {0}) → (Volume → Volume × Result (Unit {0})) → Volume × Result (Unit {0})
behind_step (v, ok _) next = next v
behind_step (v, err why) next = (v, err why)
behind_step (v, panic) next = (v, panic)
behind_step (v, stuck) next = (v, stuck)

-- Calls in turn, up to the first one that fails.
unfoldable pub run_steps : List Step → Volume → Volume × Result (Unit {0})
unfolding behind_step
run_steps [] v = (v, ok tt)
run_steps (s ∷ ss) v = behind_step (s v) (λ w. run_steps ss w)

-- The calls, in their order.
unfoldable pub replace_steps : Calls → Bytes → List Step
unfolding behind_call write_behind rename_temp
replace_steps c raw =
    quiet c.make_dir
    ∷ create_temp c.create_temp
    ∷ quiet c.chmod
    ∷ write_temp c.write c.partial raw
    ∷ sync_temp c.sync
    ∷ quiet c.close
    ∷ rename_temp c.rename
    ∷ quiet c.open_dir
    ∷ quiet c.sync_dir
    ∷ []

-- The file in the end; a temporary file that is left is removed.
unfoldable pub replace : Calls → Bytes → Stored → Stored × Result (Unit {0})
unfolding run_steps replace_steps
replace c raw file =
    let (v, answer) = run_steps (replace_steps c raw) (fresh file) in (v.file, answer)

-- The file when the program is killed, or the power fails, behind the first `n` calls.
unfoldable pub interrupted : ℕ → Calls → Bytes → Stored → Stored
unfolding run_steps replace_steps
interrupted n c raw file =
    let (v, _) = run_steps (take n (replace_steps c raw)) (fresh file) in v.file
