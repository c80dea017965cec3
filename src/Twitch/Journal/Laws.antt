-- ===== src/Twitch/Journal/Laws.antt =====
-- What the journal's operations do to the ids in memory and in the file.
use rongta_f11_open.Base.{
  ℕ, ◌+◌, ◌≤◌, ◌≡◌, refl, inl, inr, false, List, [], ◌∷◌, ok, arith, Bool-cases,
}
use rongta_f11_open.Text.{Text}
use rongta_f11_open.Text.Count.{same_id, times}
use rongta_f11_open.Twitch.Journal.{
  JournalEntry, Line, blank, malformed, entry, unended, unfinished, is_seen, is_refused, read_lines,
  put_line, behind_part,
}

-- How often an id stands in the file.
abbrev pub file_times : Text → List Line → ℕ
file_times x [] = 0
file_times x (blank ∷ lines) = file_times x lines
file_times x (malformed ∷ lines) = file_times x lines
file_times x (unfinished ∷ lines) = file_times x lines
file_times x (entry e ∷ lines) = same_id x e.event_id + file_times x lines
file_times x (unended e ∷ lines) = same_id x e.event_id + file_times x lines

-- How many lines are no entry, so that the file is refused.
abbrev pub spoils : List Line → ℕ
spoils [] = 0
spoils (blank ∷ lines) = 1 + spoils lines
spoils (malformed ∷ lines) = 1 + spoils lines
spoils (unfinished ∷ lines) = 1 + spoils lines
spoils (entry e ∷ lines) = spoils lines
spoils (unended e ∷ lines) = spoils lines

same_id_small : (x y : Text) → same_id x y ≤ 1
same_id_small x y = ground arith

spoils-behind_part :
    (x : Text) (l : Line) (lines : List Line)
    → (spoils (behind_part l ∷ lines) ≡ 1 + spoils lines)
      × (file_times x (behind_part l ∷ lines) ≡ file_times x lines)
spoils-behind_part x blank lines = (refl, refl)
spoils-behind_part x malformed lines = (refl, refl)
spoils-behind_part x unfinished lines = (refl, refl)
spoils-behind_part x (entry e) lines = (refl, refl)
spoils-behind_part x (unended e) lines = (refl, refl)

-- Writing a line behind the file keeps each id there, or spoils the file.
pub put_line-keeps :
    (x : Text) (l : Line) (lines : List Line)
    → file_times x lines + spoils lines
      ≤ file_times x (put_line l lines) + spoils (put_line l lines)
unfolding put_line
put_line-keeps x l [] = omega arith
put_line-keeps x l (blank ∷ lines) = omega (arith, put_line-keeps x l lines)
put_line-keeps x l (malformed ∷ lines) = omega (arith, put_line-keeps x l lines)
put_line-keeps x l (unfinished ∷ lines) = omega (arith, spoils-behind_part x l lines)
put_line-keeps x l (entry e ∷ lines) = omega (arith, put_line-keeps x l lines)
put_line-keeps x l (unended e ∷ lines) =
    omega (arith, spoils-behind_part x l lines, same_id_small x e.event_id)

-- An entry that is written whole stands in the file, or the file is spoiled.
pub put_line-entry :
    (x : Text) (e : JournalEntry) (lines : List Line)
    → same_id x e.event_id
      ≤ file_times x (put_line (entry e) lines) + spoils (put_line (entry e) lines)
unfolding put_line
put_line-entry x e [] = omega arith
put_line-entry x e (blank ∷ lines) = omega (arith, put_line-entry x e lines)
put_line-entry x e (malformed ∷ lines) = omega (arith, put_line-entry x e lines)
put_line-entry x e (unfinished ∷ lines) = omega (arith, same_id_small x e.event_id)
put_line-entry x e (entry d ∷ lines) = omega (arith, put_line-entry x e lines)
put_line-entry x e (unended d ∷ lines) = omega (arith, same_id_small x e.event_id)

pub is_seen-times : (x : Text) (xs : List Text) → is_seen x xs ≡ false → times x xs ≡ 0
unfolding is_seen
is_seen-times x [] h = refl
is_seen-times x (y ∷ ys) h = ground (arith, is_seen-times x ys)

-- A file that is read to its end has no spoiled line, and all its ids are in memory.
pub record IsRead (x : Text) (lines : List Line) (seen all : List Text) : Type 0 where
  pub whole : spoils lines ≡ 0
  pub counted : times x all ≡ file_times x lines + times x seen

pub read_lines-IsRead :
    (n : ℕ) (lines : List Line) (seen : List Text) {all : List Text} (x : Text)
    → read_lines n lines seen ≡ ok all
    → IsRead x lines seen all
unfolding read_lines
read_lines-IsRead n [] seen x e = record { whole = refl; counted = ground arith }
read_lines-IsRead n (blank ∷ lines) seen x e = cc
read_lines-IsRead n (malformed ∷ lines) seen x e = cc
read_lines-IsRead n (unfinished ∷ lines) seen x e = cc
read_lines-IsRead n (unended j ∷ lines) seen {all} x e = elim (Bool-cases (is_refused j)) [
  | inl bad ↦ absurd (ground (arith))
  | inr good ↦
      let later : read_lines (n + 1) lines (j.event_id ∷ seen) ≡ ok all = ground arith in
      let r = read_lines-IsRead (n + 1) lines (j.event_id ∷ seen) x later in
      record { whole = r.whole; counted = omega (arith, r.counted) }
]
read_lines-IsRead n (entry j ∷ lines) seen {all} x e = elim (Bool-cases (is_refused j)) [
  | inl bad ↦ absurd (ground (arith))
  | inr good ↦
      let later : read_lines (n + 1) lines (j.event_id ∷ seen) ≡ ok all = ground arith in
      let r = read_lines-IsRead (n + 1) lines (j.event_id ∷ seen) x later in
      record { whole = r.whole; counted = omega (arith, r.counted) }
]
