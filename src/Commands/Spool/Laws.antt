-- ===== src/Commands/Spool/Laws.antt =====
-- What is handed to lp.
use rongta_f11_open.Base.{
  ◌≡◌, refl, String, List, [], ◌∷◌, Bytes, Option, Result, ok, err, panic, stuck, ◌>>=◌, ◌>>◌,
  >>=-eq-ok, Bool, true, false, if◌then◌else◌, arith,
}
use rongta_f11_open.Text.{Text}
use rongta_f11_open.Commands.Spool.{Submitter, Submission, Ran, lp_args, submit, spool}

-- A call of lp with the stream, for a queue that was resolved and verified.
pub record IsSpooled (resolve : Text → Result Text) (verify : Text → Result (Unit {0}))
    (title : Text) (stream : Bytes) (queue : Text) (s : Submission) : Type 0 where
  pub found : Text
  pub resolved : resolve queue ≡ ok found
  pub verified : verify found ≡ ok tt
  pub streamed : s.stream ≡ stream
  pub called : s.args ≡ lp_args found title

-- No call, or one with the property.
abbrev pub AtMostOne : (Submission → Type 0) → List Submission → Type 0
AtMostOne P [] = Unit {0}
AtMostOne P (s ∷ []) = P s
AtMostOne P (s ∷ t ∷ sent) = ⊥

pub AtMostOne-weaken :
    {P Q : Submission → Type 0}
    → ((s : Submission) → P s → Q s)
    → (sent : List Submission) → AtMostOne P sent
    → AtMostOne Q sent
AtMostOne-weaken f [] h = tt
AtMostOne-weaken f (s ∷ []) h = f s h
AtMostOne-weaken f (s ∷ t ∷ sent) h = absurd h

pub AtMostOne-if {ℓ} :
    {Report : Type ℓ} (P : Submission → Type 0) (b : Bool) (x y : Ran Report)
    → (b ≡ true → AtMostOne P x.sent)
    → (b ≡ false → AtMostOne P y.sent)
    → AtMostOne P (if b then x else y).sent
AtMostOne-if P true x y h k = h refl
AtMostOne-if P false x y h k = k refl

module _ (submitter : Submitter) (find_job : Text → Option Text) where
  submit-sent :
      (resolve : Text → Result Text) (verify : Text → Result (Unit {0})) (message : String)
      (title : Text) (stream : Bytes) (queue : Text) (r : Result Text)
      → (do q ← resolve queue; verify q; ok q) ≡ r
      → AtMostOne
          (IsSpooled resolve verify title stream queue)
          (submit submitter find_job message title stream r).sent
  unfolding submit
  submit-sent resolve verify message title stream queue panic e = tt
  submit-sent resolve verify message title stream queue stuck e = tt
  submit-sent resolve verify message title stream queue (err why) e = tt
  submit-sent resolve verify message title stream queue (ok q) e =
      let (q', resolved, later) = >>=-eq-ok (resolve queue) _ e in
      let (_, verified, last) = >>=-eq-ok (verify q') _ later in
      let same : q' ≡ q = ground arith in
      record {
        found = q';
        resolved = resolved;
        verified = verified;
        streamed = refl;
        called = rw same refl;
      }

  pub spool-sent :
      (resolve : Text → Result Text) (verify : Text → Result (Unit {0})) (message : String)
      (title : Text) (stream : Bytes) (queue : Text)
      → AtMostOne
          (IsSpooled resolve verify title stream queue)
          (spool submitter find_job resolve verify message title stream queue).sent
  unfolding spool
  spool-sent resolve verify message title stream queue =
      submit-sent resolve verify message title stream queue _ refl
