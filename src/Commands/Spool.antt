-- ===== src/Commands/Spool.antt =====
-- The end of `run` of Appliance/cmd/bannerprint/main.go, giftprint/main.go and raidprint/main.go: the
-- queue is resolved and verified, and the stream is handed to lp. What lp answers is an argument, and
-- so is the search for the job's id in it.
pub mod Laws
use rongta_f11_open.Base.{
  String, List, [], ◌∷◌, Bytes, Option, none, some, Result, ok, err, panic, stuck, annotated, ◌>>=◌,
  ◌>>◌,
}
use rongta_f11_open.Text.{Text, codes}

abbrev pub Submitter : Type 0
Submitter = Text → Bytes → List Text → Result Text

-- A call of lp.
pub record Submission : Type 0 where
  pub stream : Bytes
  pub args : List Text

-- The calls of lp, and what the program reports.
pub record Ran {ℓ} (Report : Type ℓ) : Type ℓ where
  pub sent : List Submission
  pub answer : Result Report

abbrev pub lp_args : Text → Text → List Text
lp_args queue title =
    codes "-n"
    ∷ codes "1"
    ∷ codes "-d"
    ∷ queue
    ∷ codes "-o"
    ∷ codes "raw"
    ∷ codes "-t"
    ∷ title
    ∷ codes "-"
    ∷ []

abbrev pub job_id : Option Text → Text
job_id none = []
job_id (some id) = id

module _ (submitter : Submitter) (find_job : Text → Option Text) where
  -- Behind the queue that was resolved and verified: its name and the job's id.
  unfoldable pub submit : String → Text → Bytes → Result Text → Ran (Text × Text)
  submit message title stream panic = record { sent = []; answer = panic }
  submit message title stream stuck = record { sent = []; answer = stuck }
  submit message title stream (err why) = record { sent = []; answer = err why }
  submit message title stream (ok queue) = record {
    sent = record { stream = stream; args = lp_args queue title } ∷ [];
    answer = (do
      output ← annotated message (submitter (codes "lp") stream (lp_args queue title))
      ok (queue, job_id (find_job output)));
  }

  unfoldable pub spool :
      (Text → Result Text)
      → (Text → Result (Unit {0}))
      → String
      → Text
      → Bytes
      → Text
      → Ran (Text × Text)
  unfolding submit
  spool resolve verify message title stream queue =
      submit message title stream (do q ← resolve queue; verify q; ok q)
