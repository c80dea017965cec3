-- ===== src/Setup/Laws.antt =====
-- The states that pass are valid, and completing a checkpoint keeps them so.
use rongta_f11_open.Base.{
  ◌≡◌, refl, ap, ◌∙◌, subst, inl, inr, Bool, true, false, not, ◌&&◌, ◌||◌, List, [], ◌∷◌, String,
  ◌==◌, Bytes, Option, none, some, bytes_equal→eq, Result, ok, err, panic, stuck, annotated, OnOk,
  >>=-eq-ok, fail_if, arith, Bool-cases, ==_iff,
}
use rongta_f11_open.Text.{Text, text_equal}
use rongta_f11_open.Setup.{
  Time, unix, is_zero, State, new_state, is_valid_checkpoint, has_checkpoint, put_checkpoint,
  entries, completed, complete, all_valid, validate_entries, validate, decode_strict, migrate,
  Decoders, corrupt, decode_legacy, decode_state, load_data,
}

-- A state of the current version whose checkpoints are known ones with a time.
pub record IsState (s : State) : Type 0 where
  pub current : s.version ≡ 1
  pub map : List (Text × Time)
  pub present : s.checkpoints ≡ some map
  pub valid : all_valid map ≡ true

fail_if-passed : (b : Bool) (message : String) → fail_if (not b) message ≡ ok tt → b ≡ true
fail_if-passed true message e = refl
fail_if-passed false message e = cc

validate_entries-valid :
    (m : Option (List (Text × Time)))
    → validate_entries m ≡ ok tt
    → (map : List (Text × Time)) × (m ≡ some map) × (all_valid map ≡ true)
unfolding validate_entries
validate_entries-valid none e = cc
validate_entries-valid (some m) e = (m, refl, fail_if-passed (all_valid m) _ e)

pub validate-IsState : (s : State) → validate s ≡ ok tt → IsState s
unfolding validate
validate-IsState s e =
    let (_, version, later) = >>=-eq-ok (fail_if (not (s.version == 1)) "invalid schema") _ e in
    let (m, present, valid) = validate_entries-valid s.checkpoints later in
    record {
      current = (==_iff _ _).0 (fail_if-passed (s.version == 1) _ version);
      map = m;
      present = present;
      valid = valid;
    }

pub IsState-validate : (s : State) → IsState s → validate s ≡ ok tt
unfolding validate validate_entries
IsState-validate s k =
    let version : (s.version == 1) ≡ true = (==_iff _ _).1 k.current in
    rw version
      (ap validate_entries k.present ∙ ap (λ b. fail_if (not b) "invalid checkpoint") k.valid)

put_checkpoint-valid :
    (c : Text) (t : Time) (m : List (Text × Time))
    → is_valid_checkpoint c ≡ true
    → is_zero t ≡ false
    → all_valid m ≡ true
    → all_valid (put_checkpoint c t m) ≡ true
unfolding put_checkpoint all_valid
put_checkpoint-valid c t [] h k v = rw (h, k) refl
put_checkpoint-valid c t ((key, u) ∷ m) h k v = elim (Bool-cases (text_equal c key)) [
  | inl here ↦
      let known : is_valid_checkpoint key ≡ true = ground arith in
      let rest : all_valid m ≡ true = ground arith in rw here (rw (known, k, rest) refl)
  | inr there ↦
      let first : (is_valid_checkpoint key && not (is_zero u)) ≡ true = ground arith in
      let rest : all_valid m ≡ true = ground arith in
      rw there (rw (first, put_checkpoint-valid c t m h k rest) refl)
]

put_checkpoint-has :
    (c d : Text) (t : Time) (m : List (Text × Time))
    → has_checkpoint d (put_checkpoint c t m) ≡ (text_equal d c || has_checkpoint d m)
unfolding put_checkpoint has_checkpoint
put_checkpoint-has c d t [] = refl
put_checkpoint-has c d t ((key, u) ∷ m) = elim (Bool-cases (text_equal c key)) [
  | inl here ↦ let same : c ≡ key = bytes_equal→eq c key here in rw here (rw same (ground arith))
  | inr there ↦ rw there (rw (put_checkpoint-has c d t m) (ground arith))
]

-- `Complete` of a valid state returns a valid state, in which the checkpoint is completed and any other
-- is completed as it was before.
pub complete-IsState :
    (s : State) (c : Text) (t : Time) (s' : State)
    → IsState s
    → complete s c t ≡ ok s'
    → IsState s' × ((d : Text) → completed s' d ≡ (text_equal d c || completed s d))
unfolding complete completed
complete-IsState s c t s' k e =
    let (_, known, e1) =
      >>=-eq-ok (fail_if (not (is_valid_checkpoint c)) "unknown checkpoint") _ e in
    let (_, timed, e2) = >>=-eq-ok (fail_if (is_zero t) "checkpoint time must not be zero") _ e1 in
    let there : entries s.checkpoints ≡ k.map = ap entries k.present in
    let m = put_checkpoint c t (entries s.checkpoints) in
    let set_time : is_zero t ≡ false = ground arith in
    let good : all_valid m ≡ true =
      put_checkpoint-valid c t (entries s.checkpoints) (fail_if-passed _ _ known) set_time
        (ap all_valid there ∙ k.valid) in
    subst (OnOk (λ r. IsState r × ((d : Text) → completed r d ≡ (text_equal d c || completed s d))))
      e2
      (
        record { current = k.current; map = m; present = refl; valid = good },
        λ d. put_checkpoint-has c d t (entries s.checkpoints),
      )

migrate-valid :
    (cs : List Text) (m : List (Text × Time)) {m' : List (Text × Time)}
    → all_valid m ≡ true
    → migrate cs m ≡ ok m'
    → all_valid m' ≡ true
unfolding migrate
migrate-valid [] m h e = subst (OnOk (λ m. all_valid m ≡ true)) e h
migrate-valid (c ∷ cs) m h e = elim (Bool-cases (is_valid_checkpoint c)) [
  | inl known ↦
      migrate-valid cs (put_checkpoint c (unix 0) m)
        (put_checkpoint-valid c (unix 0) m known refl h) (rw known at e)
  | inr unknown ↦ absurd (let e' = rw unknown at e in ground arith)
]

annotated-eq-ok {ℓ} :
    {V : Type ℓ} (message : String) (r : Result V) {v : V} → annotated message r ≡ ok v → r ≡ ok v
annotated-eq-ok message panic e = cc
annotated-eq-ok message stuck e = cc
annotated-eq-ok message (err why) e = cc
annotated-eq-ok message (ok v) e = e

module _ (json : Decoders) where
  decode_legacy-IsState : (raw : Bytes) {s : State} → decode_legacy json raw ≡ ok s → IsState s
  unfolding decode_legacy
  decode_legacy-IsState raw e =
      let (legacy, _, e1) =
        >>=-eq-ok (decode_strict json.legacy json.behind raw) _ (annotated-eq-ok _ _ e) in
      let (m, migrated, e2) = >>=-eq-ok (migrate legacy.completed []) _ e1 in
      subst (OnOk IsState) e2 (
        unfold new_state in
        record {
          current = refl;
          map = m;
          present = refl;
          valid = migrate-valid legacy.completed [] (unfold all_valid in refl) migrated;
        })

  decode_state-IsState : (raw : Bytes) {s : State} → decode_state json raw ≡ ok s → IsState s
  unfolding decode_state
  decode_state-IsState raw e =
      let (s, _, e1) =
        >>=-eq-ok (decode_strict json.state json.behind raw) _ (annotated-eq-ok _ _ e) in
      let (_, valid, e2) = >>=-eq-ok (validate s) _ e1 in
      subst (OnOk IsState) e2 (validate-IsState s valid)

  pub load_data-IsState : (raw : Bytes) {s : State} → load_data json raw ≡ ok s → IsState s
  unfolding load_data
  load_data-IsState raw e =
      let (version, _, e1) = >>=-eq-ok (corrupt (json.version raw)) _ e in
      elim (Bool-cases (version == 0)) [
        | inl legacy ↦ decode_legacy-IsState raw (rw legacy at e1)
        | inr current ↦ elim (Bool-cases (not (version == 1))) [
          | inl other ↦ absurd (let e' = rw (current, other) at e1 in cc)
          | inr known ↦ decode_state-IsState raw (rw (current, known) at e1)
        ]
      ]

pub new_state-IsState : IsState new_state
unfolding new_state all_valid
new_state-IsState = record { current = refl; map = []; present = refl; valid = refl }
