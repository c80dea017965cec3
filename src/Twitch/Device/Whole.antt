-- ===== src/Twitch/Device/Whole.antt =====
-- What a save of an authorization leaves in the files, however its system calls end.
use rongta_f11_open.Base.{
  ◌≡◌, ◌≢◌, ◌⊎◌, inl, inr, refl, sym, ap, subst, ◌∙◌, true, false, not, ◌||◌, List, [], ◌∷◌, ◌++◌,
  Bytes, Result, ok, err, panic, stuck, >>=-eq-ok, fail_if, masked, arith,
}
use rongta_f11_open.Text.{Text, is_empty}
use rongta_f11_open.Disk.{Stored, content, Calls}
use rongta_f11_open.Disk.Laws.{replace-IsReplaced}
use rongta_f11_open.Twitch.Device.{DeviceToken, Authorization, same_scopes, check_identity}
use rongta_f11_open.Twitch.Device.Save.{
  Files, environment, atomic_write, save_environment, save_files, save_authorization,
}

-- A write leaves the file and does not succeed, or puts the data in its place.
atomic_write-whole :
    (c : Calls) (raw : Bytes) (file : Stored)
    → (((atomic_write c raw file).0 ≡ file) × ((atomic_write c raw file).1 ≢ ok tt))
      ⊎ ((atomic_write c raw file).0 ≡ content raw)
unfolding atomic_write
atomic_write-whole c raw file = replace-IsReplaced file raw c

save_environment-whole :
    (c : Calls) (raw : Bytes) (files : Files) (answer : Result (Unit {0}))
    → ((save_environment c raw files answer).0 ≡ files)
      ⊎ ((answer ≡ ok tt)
          × ((save_environment c raw files answer).0 ≡ record files { environment = content raw }))
unfolding save_environment
save_environment-whole c raw files (ok _) = elim (atomic_write-whole c raw files.environment) [
  | inl (same, _) ↦ inl (ap (λ x. record files { environment = x }) same)
  | inr written ↦ inr (refl, ap (λ x. record files { environment = x }) written)
]
save_environment-whole c raw files (err why) = inl refl
save_environment-whole c raw files panic = inl refl
save_environment-whole c raw files stuck = inl refl

-- The files as they were, with the new token alone, or both new.
abbrev pub IsSaved : Bytes → Bytes → Files → Files → Type 0
IsSaved raw env files after =
    (after ≡ files)
    ⊎ ((after ≡ record files { token = content raw })
        ⊎ (after ≡ record { token = content raw; environment = content env }))

save_files-whole :
    (c d : Calls) (env raw : Bytes) (files : Files)
    → IsSaved (raw ++ (10 ∷ [])) env files (save_files c d env files (ok raw)).0
unfolding save_files
save_files-whole c d env raw files =
    let token = atomic_write c (raw ++ (10 ∷ [])) files.token in
    let files1 : Files = record files { token = token.0 } in
    elim (save_environment-whole d env files1 token.1) [
      | inl left ↦ elim (atomic_write-whole c (raw ++ (10 ∷ [])) files.token) [
        | inl (same, _) ↦ inl (left ∙ ap (λ x. record files { token = x }) same)
        | inr written ↦ inr (inl (left ∙ ap (λ x. record files { token = x }) written))
      ]
      | inr (well, both) ↦ elim (atomic_write-whole c (raw ++ (10 ∷ [])) files.token) [
        | inl (_, unwell) ↦ absurd (unwell well)
        | inr written ↦
            inr (inr (both ∙ ap (λ x. record { token = x; environment = content env }) written))
      ]
    ]

save_files-cases :
    (c d : Calls) (env : Bytes) (files : Files) (coded : Result Bytes)
    → ((save_files c d env files coded).0 ≡ files) ⊎ ((raw : Bytes) × (coded ≡ ok raw))
unfolding save_files
save_files-cases c d env files (ok raw) = inr (raw, refl)
save_files-cases c d env files (err why) = inl refl
save_files-cases c d env files panic = inl refl
save_files-cases c d env files stuck = inl refl

-- However the system calls end, `Save` leaves both files as they are, or replaces the token's by the
-- coded token, or that and then the environment's, and what it puts there is all on the device: it never
-- writes an environment for a token that is not in its file. It leaves both if the token is empty or not for the scopes of the program.
pub save_authorization-whole :
    (sort : List Text → List Text) (encode : DeviceToken → Result Bytes) (to_bytes : Text → Bytes)
    (c d : Calls) (token_path : Text) (r : Authorization) (files : Files)
    → ((save_authorization sort encode to_bytes c d token_path r files).0 ≡ files)
      ⊎ ((raw : Bytes) × (encode r.token ≡ ok raw)
          × (same_scopes sort r.token.scope ≡ true)
          × (is_empty r.token.access_token ≡ false)
          × IsSaved
              (raw ++ (10 ∷ []))
              (to_bytes (environment r token_path))
              files
              (save_authorization sort encode to_bytes c d token_path r files).0)
unfolding save_authorization
save_authorization-whole sort encode to_bytes c d token_path r files =
    let env = to_bytes (environment r token_path) in
    elim (save_files-cases c d env files _) [
      | inl kept ↦ inl kept
      | inr (raw, e) ↦
          let (_, _, e1) =
            >>=-eq-ok
              (masked "refusing to save invalid Twitch authorization"
                (check_identity sort r.identity r.identity.client_id))
              _ e in
          let (_, passed, coded) =
            >>=-eq-ok
              (fail_if (is_empty r.token.access_token || not (same_scopes sort r.token.scope))
                "refusing to save invalid Twitch authorization")
              _ e1 in
          let given : is_empty r.token.access_token ≡ false = ground arith in
          let scoped : same_scopes sort r.token.scope ≡ true = ground arith in
          inr (
            raw,
            coded,
            scoped,
            given,
            subst (λ m. IsSaved (raw ++ (10 ∷ [])) env files (save_files c d env files m).0) (sym e)
                (save_files-whole c d env raw files),
          )
    ]
