-- ===== src/Base/Reads.antt =====
-- The bounds of what is read by an index or a slice expression.
use Prim.Native.Nat.{ℕ, ◌≤◌}
use mathlib.Core.Path.{◌≡◌}
use mathlib.Core.List.{List}
use rongta_f11_open.Base.Tests.{leb, if◌then◌else◌, le→leb}
use rongta_f11_open.Base.Lists.{length}
use rongta_f11_open.Base.Outcome.{Result, ok, panic}
use rongta_f11_open.Base.Ends.{value, Returns}

-- `xs[0]`, ..., `xs[n-1]` are read: if one lacks, Go panics. A slice expression `xs[i:n]` counts as a read
-- of its part, so one behind the length but within the capacity, where Go goes on, is a panic here.
unfoldable pub reads {ℓ} : {A : Type ℓ} → ℕ → List A → Result (Unit {0})
reads n xs = if leb n (length xs) then ok tt else panic

pub reads-eq {ℓ} : {A : Type ℓ} (n : ℕ) (xs : List A) → n ≤ length xs → reads n xs ≡ ok tt
unfolding reads
reads-eq n xs h = rw (le→leb n (length xs) h)

pub reads-Returns {ℓ} : {A : Type ℓ} (n : ℕ) (xs : List A) → n ≤ length xs → Returns (reads n xs)
reads-Returns n xs h = rw (reads-eq n xs h) (value tt)
