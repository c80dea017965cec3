-- ===== src/Twitch/Device/Save.antt =====
-- `Save` and `atomicWrite` of Appliance/internal/twitchdevice/client.go, whose system calls are those of
-- the state of the setup, in the same order. The JSON coding and the bytes of a text are arguments.
use rongta_f11_open.Base.{
  not, ◌||◌, List, [], ◌∷◌, ◌++◌, Bytes, Result, ok, err, panic, stuck, ◌>>◌, fail_if, masked,
}
use rongta_f11_open.Text.{Text, codes, is_empty}
use rongta_f11_open.Disk.{Stored, Calls, replace}
use rongta_f11_open.Twitch.Device.{DeviceToken, Authorization, same_scopes, check_identity}

unfoldable pub atomic_write : Calls → Bytes → Stored → Stored × Result (Unit {0})
unfolding replace
atomic_write c raw file = replace c raw file

unfoldable pub environment : Authorization → Text → Text
environment r token_path =
    codes "TWITCH_CLIENT_ID="
    ++ (r.identity.client_id
        ++ (codes "\nTWITCH_CHANNEL="
            ++ (r.identity.login
                ++ (codes "\nTWITCH_BROADCASTER_ID="
                    ++ (r.identity.user_id
                        ++ (codes "\nF11_QUEUE=Rongta_F11_Media\nTWITCH_TOKEN_FILE="
                            ++ (token_path
                                ++ codes
                                    "\nTWITCH_JOURNAL_FILE=/var/lib/twitch-banner/events.jsonl\n")))))))

-- The two files.
pub record Files : Type 0 where
  pub token : Stored
  pub environment : Stored

-- Behind the write of the token.
unfoldable pub save_environment :
    Calls → Bytes → Files → Result (Unit {0}) → Files × Result (Unit {0})
unfolding atomic_write
save_environment c raw files (ok _) =
    let (file, answer) = atomic_write c raw files.environment in
    (record files { environment = file }, answer)
save_environment c raw files (err why) = (files, err why)
save_environment c raw files panic = (files, panic)
save_environment c raw files stuck = (files, stuck)

-- Behind the checks, with the coded token.
unfoldable pub save_files : Calls → Calls → Bytes → Files → Result Bytes → Files × Result (Unit {0})
unfolding atomic_write save_environment
save_files c d env files (ok raw) =
    let (file, answer) = atomic_write c (raw ++ (10 ∷ [])) files.token in
    save_environment d env (record files { token = file }) answer
save_files c d env files (err why) = (files, err why)
save_files c d env files panic = (files, panic)
save_files c d env files stuck = (files, stuck)

unfoldable pub save_authorization :
    (List Text → List Text)
    → (DeviceToken → Result Bytes)
    → (Text → Bytes)
    → Calls
    → Calls
    → Text
    → Authorization
    → Files
    → Files × Result (Unit {0})
unfolding check_identity same_scopes environment save_files
save_authorization sort encode to_bytes c d token_path r files =
    save_files c d (to_bytes (environment r token_path)) files (do
      masked "refusing to save invalid Twitch authorization"
          (check_identity sort r.identity r.identity.client_id)
      fail_if (is_empty r.token.access_token || not (same_scopes sort r.token.scope))
          "refusing to save invalid Twitch authorization"
      encode r.token)
