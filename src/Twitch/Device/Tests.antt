-- ===== src/Twitch/Device/Tests.antt =====
-- The theorems on the device flow at concrete inputs.
use rongta_f11_open.Base.{
  ◌<◌, ◌≡◌, ◌⊎◌, refl, true, false, [], ◌∷◌, ◌++◌, Bytes, Result, ok, err, new,
}
use rongta_f11_open.Text.{codes, is_empty, text_equal}
use rongta_f11_open.Disk.{missing, content, Calls}
use rongta_f11_open.Disk.Laws.{IsWell}
use rongta_f11_open.Twitch.Device.{
  Services, Flow, Identity, Authorization, TokenWire, authorized, exact_scopes, same_scopes,
  same_texts, poll, poll_answer, bad_token, granted_token, identify, check_identity, is_client_id,
  is_login, is_user_id, all_of, decode_one, read_capped, form_status,
}
use rongta_f11_open.Twitch.Device.Save.{Files, environment, save_authorization}
use rongta_f11_open.Twitch.Device.Laws.{poll-save}
use rongta_f11_open.Twitch.Device.Whole.{IsSaved, save_authorization-whole}

abbrev sample_identity : Identity
sample_identity = record {
  client_id = codes "client-1";
  login = codes "ann";
  user_id = codes "7";
  scopes = exact_scopes;
}

abbrev sample_wire : TokenWire
sample_wire = record {
  access_token = codes "t";
  refresh_token = codes "r";
  expires_in = 60;
  scope = exact_scopes;
  token_type = codes "bearer";
}

-- The server grants a token.
abbrev services : Services
services = record {
  post = λ path values. ok (200, []);
  get_identity = λ token. ok (200, []);
  decode_token = λ raw. ok (sample_wire, []);
  decode_flow = λ raw. err (new "no flow");
  decode_identity = λ raw. ok (sample_identity, []);
  decode_message = λ raw. err (new "no message");
  ended = λ rest. true;
  is_https = λ uri. true;
  equal_fold = text_equal;
  sort = λ xs. xs;
}

abbrev sample_flow : Flow
sample_flow = record {
  client_id = codes "client-1";
  device_code = codes "d";
  verification_uri = codes "https://twitch.tv";
  user_code = codes "u";
  expires_at = 100;
  interval = 5;
}

abbrev sample_authorization : Authorization
sample_authorization = record {
  token = record {
    access_token = codes "t";
    refresh_token = codes "r";
    scope = exact_scopes;
    token_type = codes "bearer";
    expires_at = 71;
  };
  identity = sample_identity;
}

sample_flow-polled : poll services sample_flow 10 11 ≡ ok (authorized sample_authorization)
unfolding poll poll_answer bad_token granted_token identify check_identity is_client_id is_login
    is_user_id all_of decode_one read_capped form_status same_scopes same_texts
sample_flow-polled = refl

abbrev all_well : Calls
all_well = record {
  make_dir = ok tt;
  create_temp = ok tt;
  chmod = ok tt;
  write = ok tt;
  partial = 0;
  sync = ok tt;
  close = ok tt;
  rename = ok tt;
  open_dir = ok tt;
  sync_dir = ok tt;
}

abbrev no_files : Files
no_files = record { token = missing; environment = missing }

all_well-IsWell : IsWell all_well
all_well-IsWell = record {
  make_dir = refl;
  create_temp = refl;
  chmod = refl;
  write = refl;
  sync = refl;
  close = refl;
  rename = refl;
  open_dir = refl;
  sync_dir = refl;
}

poll-save_example :
    (10 < 100)
    × (codes "client-1" ≡ codes "client-1")
    × (save_authorization
          (λ xs. xs)
          (λ t. ok (5 ∷ []))
          (λ text. text)
          all_well
          all_well
          (codes "/t")
          sample_authorization
          no_files
        ≡ (
          record {
            token = content ((5 ∷ []) ++ (10 ∷ []));
            environment = content (environment sample_authorization (codes "/t"));
          },
          ok tt,
        ))
poll-save_example =
    poll-save services sample_flow 10 11 sample_authorization (λ t. ok (5 ∷ [])) (λ text. text)
      all_well all_well (codes "/t") no_files (5 ∷ []) sample_flow-polled refl all_well-IsWell
      all_well-IsWell

-- The environment is not renamed.
abbrev unrenamed : Calls
unrenamed = record all_well { rename = err (new "rename") }

save_authorization-whole_example :
    ((save_authorization
        (λ xs. xs)
        (λ t. ok (5 ∷ []))
        (λ text. text)
        all_well
        unrenamed
        (codes "/t")
        sample_authorization
        no_files).0
      ≡ no_files)
    ⊎ ((raw : Bytes) × (Result.ok (5 ∷ []) ≡ ok raw)
        × (same_scopes (λ xs. xs) exact_scopes ≡ true)
        × (is_empty (codes "t") ≡ false)
        × IsSaved
            (raw ++ (10 ∷ []))
            (environment sample_authorization (codes "/t"))
            no_files
            (save_authorization
              (λ xs. xs)
              (λ t. ok (5 ∷ []))
              (λ text. text)
              all_well
              unrenamed
              (codes "/t")
              sample_authorization
              no_files).0)
save_authorization-whole_example =
    save_authorization-whole (λ xs. xs) (λ t. ok (5 ∷ [])) (λ text. text) all_well unrenamed
      (codes "/t") sample_authorization no_files
