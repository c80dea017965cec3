-- ===== src/Twitch/Device/Laws.antt =====
-- What the device flow authorizes, and what is saved of it.
use rongta_f11_open.Base.{
  ℕ, ◌<◌, ◌≡◌, ◌≢◌, inl, inr, sym, ap, subst, ◌+◌, annotated, ◌∙◌, true, false, not, ◌||◌, List, [],
  ◌∷◌, ◌++◌, ltb, ◌==◌, Bytes, Result, ok, err, panic, stuck, >>=-eq-ok, fail_if, arith, Bool-cases,
  bytes_equal→eq,
}
use rongta_f11_open.Text.{Text, codes, is_empty, text_equal}
use rongta_f11_open.Disk.{Stored, content, Calls}
use rongta_f11_open.Disk.Laws.{IsWell, replace-good}
use rongta_f11_open.Twitch.Device.{
  Services, Flow, is_client_id, DeviceToken, Identity, Authorization, authorized, TokenWire,
  Answered, accepted, rejected, same_scopes, check_identity, decode_one, identify, bad_token,
  granted_token, poll_state, poll_answer, form_status, poll_form, poll,
}
use rongta_f11_open.Twitch.Device.Save.{
  Files, environment, atomic_write, save_environment, save_files, save_authorization,
}

-- What an authorization has passed.
record IsChecked (sort : List Text → List Text) (client_id : Text) (r : Authorization)
    : Type 0 where
  given : is_empty r.token.access_token ≡ false
  scoped : same_scopes sort r.token.scope ≡ true
  identified : check_identity sort r.identity client_id ≡ ok tt

check_identity-client :
    (sort : List Text → List Text) (i : Identity) (client_id : Text)
    → check_identity sort i client_id ≡ ok tt
    → i.client_id ≡ client_id
unfolding check_identity
check_identity-client sort i client_id e = elim (Bool-cases (text_equal i.client_id client_id)) [
  | inl same ↦ bytes_equal→eq i.client_id client_id same
  | inr differs ↦ absurd (let e' = rw differs at e in ground arith)
]

module _ (s : Services) where
  poll_state-waits : (message : Text) (r : Authorization) → poll_state s message ≢ authorized r
  unfolding poll_state
  poll_state-waits message r e = ground arith

  identify-eq-ok :
      (access_token client_id : Text) (i : Identity)
      → identify s access_token client_id ≡ ok i
      → check_identity s.sort i client_id ≡ ok tt
  unfolding identify
  identify-eq-ok access_token client_id i e =
      let (answer, _, e1) = >>=-eq-ok (s.get_identity access_token) _ e in
      let (_, _, e2) =
        >>=-eq-ok (fail_if (not (answer.0 == 200)) "Twitch token validation failed") _ e1 in
      let (found, _, e3) =
        >>=-eq-ok
          (annotated "invalid Twitch validation response"
            (decode_one s.decode_identity s.ended answer.1))
          _ e2 in
      let (_, checked, e4) = >>=-eq-ok (check_identity s.sort found client_id) _ e3 in
      let same : found ≡ i = ground arith in
      subst (λ x. check_identity s.sort x client_id ≡ ok tt) same checked

  granted_token-eq-ok :
      (t : TokenWire) (later : ℕ) (answer : Result Identity) (r : Authorization)
      → granted_token s t later answer ≡ ok (authorized r)
      → (answer ≡ ok r.identity)
        × (r.token.access_token ≡ t.access_token)
        × (r.token.scope ≡ t.scope)
  unfolding granted_token
  granted_token-eq-ok t later (ok i) r e =
      let same : record {
        token = record {
          access_token = t.access_token;
          refresh_token = t.refresh_token;
          scope = t.scope;
          token_type = t.token_type;
          expires_at = later + t.expires_in;
        };
        identity = i;
      }
          ≡ r =
        cc in
      (
        ap (λ x. ok x.identity) same,
        ap (λ x. x.token.access_token) (sym same),
        ap (λ x. x.token.scope) (sym same),
      )
  granted_token-eq-ok t later (err why) r e = absurd (cc)
  granted_token-eq-ok t later panic r e = absurd (cc)
  granted_token-eq-ok t later stuck r e = absurd (cc)

  bad_token-eq-false :
      (t : TokenWire)
      → bad_token s t ≡ false
      → (is_empty t.access_token ≡ false) × (same_scopes s.sort t.scope ≡ true)
  unfolding bad_token
  bad_token-eq-false t e =
      let given : is_empty t.access_token ≡ false = ground arith in
      let scoped : same_scopes s.sort t.scope ≡ true = ground arith in (given, scoped)

  poll_answer-IsChecked :
      (client_id : Text) (later : ℕ) (answer : Result (Answered TokenWire)) (r : Authorization)
      → poll_answer s client_id later answer ≡ ok (authorized r)
      → IsChecked s.sort client_id r
  unfolding poll_answer
  poll_answer-IsChecked client_id later panic r e = absurd (cc)
  poll_answer-IsChecked client_id later stuck r e = absurd (cc)
  poll_answer-IsChecked client_id later (err why) r e = absurd (cc)
  poll_answer-IsChecked client_id later (ok (rejected status message)) r e =
      absurd (poll_state-waits message r (ground arith))
  poll_answer-IsChecked client_id later (ok (accepted status t)) r e =
      elim (Bool-cases (status == 200)) [
        | inr other ↦ absurd (let e' = rw other at e in poll_state-waits [] r (ground arith))
        | inl fine ↦ elim (Bool-cases (bad_token s t)) [
          | inl bad ↦ absurd (let e' = rw (fine, bad) at e in ground arith)
          | inr good ↦
              let e' = rw (fine, good) at e in
              let (found, same_token, same_scope) =
                granted_token-eq-ok t later (identify s t.access_token client_id) r e' in
              let (given, scoped) = bad_token-eq-false t good in
              record {
                given = ap is_empty same_token ∙ given;
                scoped = ap (same_scopes s.sort) same_scope ∙ scoped;
                identified = identify-eq-ok t.access_token client_id r.identity found;
              }
        ]
      ]

  poll-IsChecked :
      (f : Flow) (now later : ℕ) (r : Authorization)
      → poll s f now later ≡ ok (authorized r)
      → (now < f.expires_at) × IsChecked s.sort f.client_id r
  unfolding poll
  poll-IsChecked f now later r e = elim (Bool-cases (ltb now f.expires_at)) [
    | inr late ↦ absurd (let e' = rw late at e in ground arith)
    | inl early ↦ elim (Bool-cases (not (is_client_id f.client_id) || is_empty f.device_code)) [
      | inl bad ↦ absurd (let e' = rw (early, bad) at e in ground arith)
      | inr good ↦
          let e' = rw (early, good) at e in
          (
            ground arith,
            poll_answer-IsChecked f.client_id later
                (form_status s s.decode_token (codes "/token") (poll_form s f)) r e',
          )
    ]
  ]

atomic_write-good :
    (c : Calls) (raw : Bytes) (file : Stored)
    → IsWell c
    → atomic_write c raw file ≡ (content raw, ok tt)
unfolding atomic_write
atomic_write-good c raw file k = replace-good file raw c k

save_environment-good :
    (d : Calls) (env : Bytes) (files : Files)
    → IsWell d
    → save_environment d env files (ok tt) ≡ (record files { environment = content env }, ok tt)
unfolding save_environment
save_environment-good d env files k =
    let e = atomic_write-good d env files.environment k in
    ap {A = Stored × Result (Unit {0})} (λ x. (record files { environment = x.0 }, x.1)) e

save_files-good :
    (c d : Calls) (env raw : Bytes) (files : Files)
    → IsWell c
    → IsWell d
    → save_files c d env files (ok raw)
      ≡ (record { token = content (raw ++ (10 ∷ [])); environment = content env }, ok tt)
unfolding save_files
save_files-good c d env raw files hc hd =
    let e = atomic_write-good c (raw ++ (10 ∷ [])) files.token hc in
    ap {A = Stored × Result (Unit {0})}
      (λ x. save_environment d env (record files { token = x.0 }) x.1) e
    ∙ save_environment-good d env (record files { token = content (raw ++ (10 ∷ [])) }) hd

-- What `Poll` authorizes is for a flow that is not over and for its client, and `Save` accepts it: if
-- the token is coded and the system calls succeed, both files hold what is written.
pub poll-save :
    (s : Services) (f : Flow) (now later : ℕ) (r : Authorization)
    (encode : DeviceToken → Result Bytes) (to_bytes : Text → Bytes) (c d : Calls)
    (token_path : Text) (files : Files) (raw : Bytes)
    → poll s f now later ≡ ok (authorized r)
    → encode r.token ≡ ok raw
    → IsWell c
    → IsWell d
    → (now < f.expires_at)
      × (r.identity.client_id ≡ f.client_id)
      × (save_authorization s.sort encode to_bytes c d token_path r files ≡ (
        record {
          token = content (raw ++ (10 ∷ []));
          environment = content (to_bytes (environment r token_path));
        },
        ok tt,
      ))
unfolding save_authorization
poll-save s f now later r encode to_bytes c d token_path files raw e coded hc hd =
    let (early, k) = poll-IsChecked s f now later r e in
    let same = check_identity-client s.sort r.identity f.client_id k.identified in
    let own : check_identity s.sort r.identity r.identity.client_id ≡ ok tt =
      subst (λ x. check_identity s.sort r.identity x ≡ ok tt) (sym same) k.identified in
    (
      early,
      same,
      rw (own, k.given, k.scoped, coded)
          (save_files-good c d (to_bytes (environment r token_path)) raw files hc hd),
    )
