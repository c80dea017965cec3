-- ===== src/Twitch/Process/Once.antt =====
-- No event is printed twice, however often the process dies and starts again.
use rongta_f11_open.Base.{
  ℕ, ◌+◌, ◌≤◌, ◌≡◌, ◌⊎◌, bytes_equal, bytes_equal→eq, refl, ap, ◌∙◌, inl, inr, Bool, true, false,
  [], ◌∷◌, Result, ok, err, panic, stuck, arith, Bool-cases,
}
use rongta_f11_open.Text.{Text, codes, is_empty}
use rongta_f11_open.Text.Count.{same_id, times}
use rongta_f11_open.Twitch.Journal.{
  JournalEntry, Line, Journal, entry, is_seen, Append, unwritten, torn, newline_lost, unsynced,
  synced, append, reserve_new, reserve_event, put_line,
}
use rongta_f11_open.Twitch.Journal.Laws.{
  file_times, spoils, put_line-keeps, put_line-entry, is_seen-times,
}

-- An id that was printed `n` times stands as often in memory and, unless a line of it is spoiled, in
-- the file.
pub record IsKept (x : Text) (n : ℕ) (j : Journal) : Type 0 where
  pub once : n ≤ 1
  pub in_memory : n ≤ times x j.seen
  pub in_file : n ≤ file_times x j.file + spoils j.file

-- The same number, written otherwise.
pub IsKept-same : {x : Text} {m n : ℕ} {j : Journal} → m ≡ n → IsKept x n j → IsKept x m j
IsKept-same e k = record {
  once = omega (arith, e, k.once);
  in_memory = omega (arith, e, k.in_memory);
  in_file = omega (arith, e, k.in_file);
}

put_line-IsKept :
    (x : Text) (n : ℕ) (l : Line) (j : Journal)
    → IsKept x n j
    → IsKept x n (record j { file = put_line l j.file })
put_line-IsKept x n l j k = record {
  once = k.once;
  in_memory = k.in_memory;
  in_file = omega (arith, k.in_file, put_line-keeps x l j.file);
}

pub append-IsKept :
    (how : Append) (e : JournalEntry) (x : Text) (n : ℕ) (j : Journal)
    → IsKept x n j
    → IsKept x n (append how e j).0
unfolding append
append-IsKept (unwritten why) e x n j k = k
append-IsKept (torn why) e x n j k = put_line-IsKept x n Line.unfinished j k
append-IsKept (newline_lost why) e x n j k = put_line-IsKept x n (Line.unended e) j k
append-IsKept (unsynced why) e x n j k = put_line-IsKept x n (entry e) j k
append-IsKept synced e x n j k = put_line-IsKept x n (entry e) j k

-- An id that memory does not hold was not printed.
fresh_id :
    (x id : Text) (n : ℕ) (j : Journal)
    → is_seen id j.seen ≡ false
    → IsKept x n j
    → (same_id x id ≡ 0) ⊎ ((same_id x id ≡ 1) × (n ≡ 0))
fresh_id x id n j h k = elim (Bool-cases (bytes_equal x id)) [
  | inr other ↦ inl (rw other refl)
  | inl same ↦
      let e : x ≡ id = bytes_equal→eq x id same in
      let none_there : times x j.seen ≡ 0 =
        is_seen-times x j.seen (ap (λ y. is_seen y j.seen) e ∙ h) in
      inr (rw same refl, omega (arith, k.in_memory, none_there))
]

-- How often a reservation lets `x` through.
abbrev pub granted : Text → Text → Result Bool → ℕ
granted x id panic = 0
granted x id stuck = 0
granted x id (err why) = 0
granted x id (ok false) = 0
granted x id (ok true) = same_id x id

-- An id that comes into memory behind its entry in the file.
synced-IsKept :
    (x : Text) (n : ℕ) (e : JournalEntry) (j : Journal)
    → is_seen e.event_id j.seen ≡ false
    → IsKept x n j
    → IsKept x
        (same_id x e.event_id + n)
        (record { seen = e.event_id ∷ j.seen; file = put_line (entry e) j.file })
synced-IsKept x n e j h k =
    let kept = put_line-keeps x (entry e) j.file in
    let written = put_line-entry x e j.file in
    elim (fresh_id x e.event_id n j h k) [
      | inl other ↦ record {
        once = omega (arith, other, k.once);
        in_memory = omega (arith, k.in_memory);
        in_file = omega (arith, other, kept, k.in_file);
      }
      | inr (same, never) ↦ record {
        once = omega (arith, same, never);
        in_memory = omega (arith, k.in_memory);
        in_file = omega (arith, never, written);
      }
    ]

pub reserve_event-IsKept :
    (how : Append) (id : Text) (amount : ℕ) (user text : Text) (x : Text) (n : ℕ) (j : Journal)
    → IsKept x n j
    → IsKept x
        (granted x id (reserve_event how id amount user text j).1 + n)
        (reserve_event how id amount user text j).0
unfolding reserve_event reserve_new append
reserve_event-IsKept how id amount user text x n j k =
    let e : JournalEntry = record {
      event_id = id;
      state = codes "reserved";
      bits = amount;
      user = user;
      text = text;
      job_id = [];
    } in
    elim (Bool-cases (is_empty id)) [
      | inl empty ↦ rw empty (IsKept-same (omega arith) k)
      | inr named ↦ elim (Bool-cases (is_seen id j.seen)) [
        | inl known ↦ rw (named, known) (IsKept-same (omega arith) k)
        | inr new ↦
            rw (named, new)
              (elim how
                as (λ h. IsKept x (granted x id (reserve_new h e j).1 + n) (reserve_new h e j).0) [
                  | unwritten why ↦ IsKept-same (omega arith) k
                  | torn why ↦ IsKept-same (omega arith) (put_line-IsKept x n Line.unfinished j k)
                  | newline_lost why ↦
                      IsKept-same (omega arith) (put_line-IsKept x n (Line.unended e) j k)
                  | unsynced why ↦ IsKept-same (omega arith) (put_line-IsKept x n (entry e) j k)
                  | synced ↦ synced-IsKept x n e j new k
                ])
      ]
    ]
