-- ===== src/Gift/Due.antt =====
-- `NextDue` against `FlushDue`.
use rongta_f11_open.Base.{
  ℕ, ◌+◌, ◌*◌, ◌<◌, ◌≡◌, ◌⊎◌, refl, subst, inl, inr, false, ◌&&◌, List, [], ◌∷◌, ltb, leb, ◌==◌,
  All, Option, none, some, Bytes, bytes_equal, Result, ok, arith, Bool-cases, Option-cases, ==_iff,
}
use rongta_f11_open.Gift.{
  Celebration, Pending, Collector, find, delete, flush_one, flush_loop, flush_due,
}
use rongta_f11_open.Gift.Notice.{earlier, next_due_loop, next_due}

-- A gift whose start was not seen, or whose window is not over.
abbrev pub Waits : ℕ → ℕ → Bytes × Pending → Type 0
Waits window now (id, p) = (p.celebration.total ≡ 0) ⊎ (now < p.started + window)

abbrev pub Before : ℕ → Option ℕ → Type 0
Before now none = Unit {0}
Before now (some t) = now < t

earlier-Before :
    (now due : ℕ) (best : Option ℕ) → Before now (earlier due best) → (now < due) × Before now best
unfolding earlier
earlier-Before now due none h = (h, tt)
earlier-Before now due (some best) h = elim (Bool-cases (ltb due best)) [
  | inl sooner ↦ let h' = rw sooner at h in (h', ground arith)
  | inr later ↦ let h' = rw later at h in (ground arith, h')
]

next_due_loop-Before :
    (now window : ℕ) (m : List (Bytes × Pending)) (best : Option ℕ)
    → Before now (next_due_loop window m best)
    → All (Waits window now) m × Before now best
unfolding next_due_loop
next_due_loop-Before now window [] best h = (tt, h)
next_due_loop-Before now window ((id, p) ∷ m) best h =
    elim (Bool-cases (p.celebration.total == 0)) [
      | inl uncounted ↦
          let (later, now_best) = next_due_loop-Before now window m best (rw uncounted at h) in
          ((inl ((==_iff _ _).0 uncounted), later), now_best)
      | inr counted ↦
          let (later, found) =
            next_due_loop-Before now window m (earlier (p.started + window) best)
              (rw counted at h) in
          let (soon, now_best) = earlier-Before now (p.started + window) best found in
          ((inr soon, later), now_best)
    ]

find-Waits :
    (window now : ℕ) (id : Bytes) (m : List (Bytes × Pending)) {p : Pending}
    → All (Waits window now) m
    → find id m ≡ some p
    → Waits window now (id, p)
unfolding find
find-Waits window now id [] h e = cc
find-Waits window now id ((key, q) ∷ m) {p} (hq, h) e = elim (Bool-cases (bytes_equal id key)) [
  | inl here ↦
      let same : q ≡ p = (let e' = rw here at e in ground arith) in
      subst (λ r. Waits window now (id, r)) same hq
  | inr there ↦ find-Waits window now id m h (rw there at e)
]

delete-Waits :
    (window now : ℕ) (id : Bytes) (m : List (Bytes × Pending))
    → All (Waits window now) m
    → All (Waits window now) (delete id m)
unfolding delete
delete-Waits window now id [] h = tt
delete-Waits window now id ((key, q) ∷ m) (hq, h) = elim (Bool-cases (bytes_equal id key)) [
  | inl here ↦ rw here (delete-Waits window now id m h)
  | inr there ↦ rw there (hq, delete-Waits window now id m h)
]

-- Nothing is handed on, and what is left waits too.
abbrev Quiet : ℕ → Collector → Result (Collector × List Celebration) → Type 0
Quiet now c r = (d : Collector) × (r ≡ ok (d, [])) × All (Waits d.window now) d.pending

flush_one-Quiet :
    (now : ℕ) (id : Bytes) (c : Collector)
    → All (Waits c.window now) c.pending
    → Quiet now c (flush_one now id c)
unfolding flush_one
flush_one-Quiet now id c h = elim (Option-cases (find id c.pending)) [
  | inl absent ↦ rw (flush_one, absent) (c, refl, h)
  | inr (p, there) ↦
      let waits = find-Waits c.window now id c.pending h there in
      let early : (ltb 0 p.celebration.total && leb (p.started + c.window) now) ≡ false =
        ground arith in
      elim (Bool-cases (p.celebration.total == 0 && leb (p.started + 2 * c.window) now)) [
        | inl stale ↦
            rw (flush_one, there, early, stale) (_, refl, delete-Waits c.window now id c.pending h)
        | inr kept ↦ rw (flush_one, there, early, kept) (c, refl, h)
      ]
]

flush_loop-Quiet :
    (now : ℕ) (order : List Bytes) (c : Collector)
    → All (Waits c.window now) c.pending
    → Quiet now c (flush_loop now order c)
unfolding flush_loop
flush_loop-Quiet now [] c h = (c, refl, h)
flush_loop-Quiet now (id ∷ order) c h =
    let (d, made, h') = flush_one-Quiet now id c h in
    let (e, made', h'') = flush_loop-Quiet now order d h' in rw (made, made') (e, refl, h'')

-- Before the time that `NextDue` tells, or if it tells none, `FlushDue` hands no gift on.
pub flush_due-next_due :
    (c : Collector) (now : ℕ)
    → Before now (next_due c)
    → (d : Collector) × (flush_due c now ≡ ok (d, []))
unfolding flush_due next_due
flush_due-next_due c now h =
    let (waits, _) = next_due_loop-Before now c.window c.pending none h in
    let (d, made, _) = flush_loop-Quiet now c.order c waits in (d, made)
