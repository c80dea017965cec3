-- ===== src/Setup/Tests.antt =====
-- The theorems on the progress of the setup at concrete inputs.
use rongta_f11_open.Base.{ℕ, ◌≡◌, ◌≢◌, ◌⊎◌, ◌||◌, refl, [], ◌∷◌, some, ok, err, new}
use rongta_f11_open.Text.{Text, codes, text_equal}
use rongta_f11_open.Setup.{
  validate, unix, State, complete, completed, Decoders, at_end, all_valid, is_valid_checkpoint,
  put_checkpoint, new_state,
}
use rongta_f11_open.Setup.Laws.{IsState, complete-IsState}
use rongta_f11_open.Disk.{missing, content, Calls, replace_steps}
use rongta_f11_open.Setup.Store.{save, interrupted_save, load}
use rongta_f11_open.Setup.Store.Laws.{HoldsState, load-IsState, save-whole}

abbrev started : State
started = record {
  version = 1;
  checkpoints = some ((codes "welcome", unix 5) ∷ []);
  updated_at = unix 5;
}

started-IsState : IsState started
unfolding all_valid is_valid_checkpoint
started-IsState = record {
  current = refl;
  map = (codes "welcome", unix 5) ∷ [];
  present = refl;
  valid = refl;
}

abbrev progressed : State
progressed = record {
  version = 1;
  checkpoints = some ((codes "welcome", unix 5) ∷ (codes "network", unix 9) ∷ []);
  updated_at = unix 9;
}

complete-IsState_example :
    IsState progressed
    × ((d : Text)
        → completed progressed d ≡ (text_equal d (codes "network") || completed started d))
complete-IsState_example =
    complete-IsState started (codes "network") (unix 9) progressed started-IsState
      (unfold complete is_valid_checkpoint put_checkpoint in refl)

-- The state is one byte, 5, in the file.
abbrev decoders : Decoders
decoders = record {
  version = λ raw. ok 1;
  state = λ raw. ok (started, []);
  legacy = λ raw. err (new "no legacy state");
  behind = λ rest. at_end;
}

abbrev all_well : Calls
all_well = record {
  make_dir = ok tt;
  create_temp = ok tt;
  chmod = ok tt;
  write = ok tt;
  partial = 0;
  sync = ok tt;
  close = ok tt;
  rename = ok tt;
  open_dir = ok tt;
  sync_dir = ok tt;
}

-- The rename fails.
abbrev unrenamed : Calls
unrenamed = record all_well { rename = err (new "rename") }

load-IsState_example : IsState new_state
load-IsState_example = load-IsState decoders missing new_state (unfold load in refl)

save-whole_example :
    ((((save (λ s. ok (5 ∷ [])) unrenamed started missing).0 ≡ missing)
        × ((save (λ s. ok (5 ∷ [])) unrenamed started missing).1 ≢ ok tt))
      ⊎ HoldsState (λ s. ok (5 ∷ [])) started (save (λ s. ok (5 ∷ [])) unrenamed started missing).0)
    × ((n : ℕ)
        → (interrupted_save n (λ s. ok (5 ∷ [])) unrenamed started missing ≡ missing)
          ⊎ HoldsState
              (λ s. ok (5 ∷ []))
              started
              (interrupted_save n (λ s. ok (5 ∷ [])) unrenamed started missing))
save-whole_example = save-whole (λ s. ok (5 ∷ [])) unrenamed started missing

-- The power fails behind the sync of the temporary file, and behind the rename.
started-interrupted :
    (interrupted_save 5 (λ s. ok (5 ∷ [])) all_well started missing ≡ missing)
    × (interrupted_save 7 (λ s. ok (5 ∷ [])) all_well started missing ≡ content (5 ∷ 10 ∷ []))
unfolding interrupted_save all_valid is_valid_checkpoint replace_steps validate
started-interrupted = (refl, refl)
