-- ===== src/Protocol/Job/Returns.antt =====
-- `DecodeJob` on any input.
use rongta_f11_open.Base.{ℕ, ◌<◌, ◌≡◌, ◌≢◌, ◌⊎◌, List, [], ◌∷◌, Option, none, some, length, Bytes}
use rongta_f11_open.Base.Ends.{Ends, Returns}
use rongta_f11_open.Protocol.Frame.{Frame}
use rongta_f11_open.Protocol.Huffman.{Huffman}
use rongta_f11_open.Protocol.Job.{DecodedJob}

-- A size that was asked for is that of the payload.
abbrev Fits : Option ℕ → Bytes → Type 0
Fits (some n) p = length p ≡ n
Fits none p = Unit {0}

-- Rows as many as announced, each of the announced length.
abbrev pub AllLong : ℕ → List Bytes → Type 0
AllLong n [] = Unit {0}
AllLong n (r ∷ rs) = (length r ≡ n) × AllLong n rs

-- What a decoded job holds.
pub record IsDecoded (job : DecodedJob) : Type 0 where
  pub width_right : (job.width_bytes ≡ 199) ⊎ (job.width_bytes ≡ 208)
  pub height_pos : 0 < job.height
  pub copies_pos : job.copies ≢ 0
  pub rows_right : length job.rows ≡ job.height
  pub rows_long : AllLong job.width_bytes job.rows
