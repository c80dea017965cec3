-- ===== src/Setup/Store/Laws.antt =====
-- What is loaded is valid, and a save leaves the old file or the new one.
use rongta_f11_open.Base.{
  ℕ, ◌≡◌, ◌≢◌, ◌⊎◌, refl, sym, ap, subst, inl, inr, [], ◌∷◌, ◌++◌, ltb, length, Bytes, Result, ok,
  err, panic, stuck, OnOk, >>=-eq-ok, fail_if, arith,
}
use rongta_f11_open.Setup.{State, Decoders, corrupt, validate}
use rongta_f11_open.Setup.Laws.{IsState, validate-IsState, load_data-IsState, new_state-IsState}
use rongta_f11_open.Disk.{Stored, missing, unreadable, unopened, content, unsynced, Calls}
use rongta_f11_open.Disk.Laws.{replace-IsReplaced, interrupted-IsEither}
use rongta_f11_open.Setup.Store.{
  load_raw, load, save_data, save_coded, save, interrupted_coded, interrupted_save,
}

load_raw-IsState :
    (json : Decoders) (raw : Bytes) (s : State) → load_raw json raw ≡ ok s → IsState s
unfolding load_raw
load_raw-IsState json raw s e =
    let (_, _, e1) =
      >>=-eq-ok (corrupt (fail_if (ltb 65536 (length raw)) "unreadable or oversized")) _ e in
    load_data-IsState json raw e1

-- Whatever the file holds and however the JSON decoders end, a state that `Load` returns is valid.
pub load-IsState : (json : Decoders) (file : Stored) (s : State) → load json file ≡ ok s → IsState s
unfolding load
load-IsState json missing s e = subst (OnOk IsState) e new_state-IsState
load-IsState json (unopened why) s e = cc
load-IsState json unreadable s e = cc
load-IsState json (content raw) s e = load_raw-IsState json raw s e
load-IsState json (unsynced raw) s e = load_raw-IsState json raw s e

-- The file holds the data of a valid state, which are on the device.
abbrev pub HoldsState : (State → Result Bytes) → State → Stored → Type 0
HoldsState encode s after =
    (raw : Bytes) × (after ≡ content (raw ++ (10 ∷ []))) × (encode s ≡ ok raw) × IsState s

save_data-eq-ok :
    (encode : State → Result Bytes) (s : State) (out : Bytes)
    → save_data encode s ≡ ok out
    → HoldsState encode (record s { version = 1 }) (content out)
unfolding save_data
save_data-eq-ok encode s out e =
    let current : State = record s { version = 1 } in
    let (_, valid, e1) = >>=-eq-ok (validate current) _ e in
    let (raw, coded, e2) = >>=-eq-ok (encode current) _ e1 in
    let (_, _, e3) =
      >>=-eq-ok (fail_if (ltb 65536 (length (raw ++ (10 ∷ [])))) "setup state exceeds size limit") _
        e2 in
    let same : out ≡ raw ++ (10 ∷ []) = ground arith in
    (raw, ap content same, coded, validate-IsState current valid)

module _ (encode : State → Result Bytes) (c : Calls) (s : State) (file : Stored) where
  save_coded-whole :
      (r : Result Bytes)
      → save_data encode s ≡ r
      → (((save_coded c file r).0 ≡ file) × ((save_coded c file r).1 ≢ ok tt))
        ⊎ HoldsState encode (record s { version = 1 }) (save_coded c file r).0
  unfolding save_coded
  save_coded-whole panic e = inl (refl, λ p. cc)
  save_coded-whole stuck e = inl (refl, λ p. cc)
  save_coded-whole (err why) e = inl (refl, λ p. cc)
  save_coded-whole (ok out) e = elim (replace-IsReplaced file out c) [
    | inl kept ↦ inl kept
    | inr written ↦ inr (
        subst (HoldsState encode (record s { version = 1 })) (sym written)
          (save_data-eq-ok encode s out e))
  ]

  interrupted_coded-whole :
      (n : ℕ) (r : Result Bytes)
      → save_data encode s ≡ r
      → (interrupted_coded n c file r ≡ file)
        ⊎ HoldsState encode (record s { version = 1 }) (interrupted_coded n c file r)
  unfolding interrupted_coded
  interrupted_coded-whole n panic e = inl refl
  interrupted_coded-whole n stuck e = inl refl
  interrupted_coded-whole n (err why) e = inl refl
  interrupted_coded-whole n (ok out) e = elim (interrupted-IsEither file out n c) [
    | inl kept ↦ inl kept
    | inr written ↦ inr (
        subst (HoldsState encode (record s { version = 1 })) (sym written)
          (save_data-eq-ok encode s out e))
  ]

-- However the system calls end, `Save` leaves the file as it is and reports an error, or puts in its
-- place the data of a valid state, which are on the device; and wherever it is stopped between two of
-- its calls, the file is as it was or holds these data, on the device.
pub save-whole :
    (encode : State → Result Bytes) (c : Calls) (s : State) (file : Stored)
    → ((((save encode c s file).0 ≡ file) × ((save encode c s file).1 ≢ ok tt))
        ⊎ HoldsState encode (record s { version = 1 }) (save encode c s file).0)
      × ((n : ℕ)
          → (interrupted_save n encode c s file ≡ file)
            ⊎ HoldsState encode (record s { version = 1 }) (interrupted_save n encode c s file))
unfolding save interrupted_save
save-whole encode c s file = (
  save_coded-whole encode c s file (save_data encode s) refl,
  λ n. interrupted_coded-whole encode c s file n (save_data encode s) refl,
)
