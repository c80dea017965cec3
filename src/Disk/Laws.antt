-- ===== src/Disk/Laws.antt =====
-- What the replacing of a file leaves.
use rongta_f11_open.Base.{
  ℕ, zero, suc, ◌≡◌, ◌≢◌, ◌⊎◌, inl, inr, refl, List, [], ◌∷◌, take, Bytes, Result, ok, err, panic,
  stuck,
}
use rongta_f11_open.Disk.{
  Stored, content, Calls, Volume, Step, behind_call, write_behind, renamed, rename_data,
  rename_temp, behind_step, run_steps, replace_steps, replace, interrupted,
}

-- The file is as it was and a call has failed, or it holds the data, which are on the device.
abbrev pub IsReplaced : Stored → Bytes → Stored × Result (Unit {0}) → Type 0
IsReplaced file raw after = ((after.0 ≡ file) × (after.1 ≢ ok tt)) ⊎ (after.0 ≡ content raw)

-- The same where the error is not known.
abbrev pub IsEither : Stored → Bytes → Stored → Type 0
IsEither file raw after = (after ≡ file) ⊎ (after ≡ content raw)

abbrev outcome : Volume × Result (Unit {0}) → Stored × Result (Unit {0})
outcome (v, answer) = (v.file, answer)

-- Every call ends well.
pub record IsWell (c : Calls) : Type 0 where
  pub make_dir : c.make_dir ≡ ok tt
  pub create_temp : c.create_temp ≡ ok tt
  pub chmod : c.chmod ≡ ok tt
  pub write : c.write ≡ ok tt
  pub sync : c.sync ≡ ok tt
  pub close : c.close ≡ ok tt
  pub rename : c.rename ≡ ok tt
  pub open_dir : c.open_dir ≡ ok tt
  pub sync_dir : c.sync_dir ≡ ok tt

module _ (file : Stored) (raw : Bytes) where
  -- A call before the rename.
  behind_step-kept :
      (r : Result (Unit {0})) (good bad : Volume) (next : Step)
      → bad.file ≡ file
      → IsReplaced file raw (outcome (next good))
      → IsReplaced file raw (outcome (behind_step (behind_call r good bad, r) next))
  unfolding behind_step behind_call
  behind_step-kept (ok _) good bad next same h = h
  behind_step-kept (err why) good bad next same h = inl (same, λ p. cc)
  behind_step-kept panic good bad next same h = inl (same, λ p. cc)
  behind_step-kept stuck good bad next same h = inl (same, λ p. cc)

  -- A call that leaves the new data, behind the rename.
  behind_step-new :
      (r : Result (Unit {0})) (v : Volume) (next : Step)
      → v.file ≡ content raw
      → (next v).0.file ≡ content raw
      → (behind_step (behind_call r v v, r) next).0.file ≡ content raw
  unfolding behind_step behind_call
  behind_step-new (ok _) v next same h = h
  behind_step-new (err why) v next same h = same
  behind_step-new panic v next same h = same
  behind_step-new stuck v next same h = same

  behind_step-IsEither :
      (r : Result (Unit {0})) (good bad : Volume) (next : Step)
      → IsEither file raw bad.file
      → IsEither file raw (next good).0.file
      → IsEither file raw (behind_step (behind_call r good bad, r) next).0.file
  unfolding behind_step behind_call
  behind_step-IsEither (ok _) good bad next failed h = h
  behind_step-IsEither (err why) good bad next failed h = failed
  behind_step-IsEither panic good bad next failed h = failed
  behind_step-IsEither stuck good bad next failed h = failed

  pub replace-IsReplaced : (c : Calls) → IsReplaced file raw (replace c raw file)
  unfolding replace run_steps replace_steps rename_temp rename_data renamed write_behind
  replace-IsReplaced c = behind_step-kept c.make_dir _ _ _ refl (
      behind_step-kept c.create_temp _ _ _ refl (
        behind_step-kept c.chmod _ _ _ refl (
          behind_step-kept c.write _ _ _ refl (
            behind_step-kept c.sync _ _ _ refl (
              behind_step-kept c.close _ _ _ refl (
                behind_step-kept c.rename _ _ _ refl (
                  inr (
                    behind_step-new c.open_dir _ _ refl
                      (behind_step-new c.sync_dir _ _ refl refl)))))))))

  -- A call that ends well.
  behind_step-good :
      (r : Result (Unit {0})) (good bad : Volume) (next : Step)
      → r ≡ ok tt
      → outcome (next good) ≡ (content raw, ok tt)
      → outcome (behind_step (behind_call r good bad, r) next) ≡ (content raw, ok tt)
  unfolding behind_step behind_call
  behind_step-good r good bad next e h = rw e h

  -- Calls that all end well replace the file.
  pub replace-good : (c : Calls) → IsWell c → replace c raw file ≡ (content raw, ok tt)
  unfolding replace run_steps replace_steps rename_temp rename_data renamed write_behind
  replace-good c k = behind_step-good c.make_dir _ _ _ k.make_dir (
      behind_step-good c.create_temp _ _ _ k.create_temp (
        behind_step-good c.chmod _ _ _ k.chmod (
          behind_step-good c.write _ _ _ k.write (
            behind_step-good c.sync _ _ _ k.sync (
              behind_step-good c.close _ _ _ k.close (
                behind_step-good c.rename _ _ _ k.rename (
                  behind_step-good c.open_dir _ _ _ k.open_dir
                    (behind_step-good c.sync_dir _ _ _ k.sync_dir refl))))))))

  -- A stop before a call, or behind it.
  stop_at :
      (s : Step) (r : Result (Unit {0})) (v good bad : Volume) (ss : List Step)
      → s v ≡ (behind_call r good bad, r)
      → IsEither file raw v.file
      → IsEither file raw bad.file
      → ((m : ℕ) → IsEither file raw (run_steps (take m ss) good).0.file)
      → (n : ℕ) → IsEither file raw (run_steps (take n (s ∷ ss)) v).0.file
  unfolding run_steps
  stop_at s r v good bad ss e before failed after zero = before
  stop_at s r v good bad ss e before failed after (suc n) =
      rw e (behind_step-IsEither r good bad (λ w. run_steps (take n ss) w) failed (after n))

  nothing_left :
      (v : Volume)
      → v.file ≡ content raw
      → (m : ℕ) → IsEither file raw (run_steps (take m []) v).0.file
  unfolding run_steps
  nothing_left v e zero = inr e
  nothing_left v e (suc m) = inr e

  -- Wherever the calls are stopped, the file is as it was, or holds the data, which are on the device.
  pub interrupted-IsEither : (n : ℕ) (c : Calls) → IsEither file raw (interrupted n c raw file)
  unfolding interrupted replace_steps rename_temp rename_data renamed write_behind
  interrupted-IsEither n c =
      stop_at _ c.make_dir _ _ _ _ refl (inl refl) (inl refl)
        (stop_at _ c.create_temp _ _ _ _ refl (inl refl) (inl refl) (
          stop_at _ c.chmod _ _ _ _ refl (inl refl) (inl refl) (
            stop_at _ c.write _ _ _ _ refl (inl refl) (inl refl) (
              stop_at _ c.sync _ _ _ _ refl (inl refl) (inl refl) (
                stop_at _ c.close _ _ _ _ refl (inl refl) (inl refl) (
                  stop_at _ c.rename _ _ _ _ refl (inl refl) (inl refl) (
                    stop_at _ c.open_dir _ _ _ _ refl (inr refl) (inr refl) (
                      stop_at _ c.sync_dir _ _ _ _ refl (inr refl) (inr refl)
                        (nothing_left _ refl)))))))))
        n
