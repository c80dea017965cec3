-- ===== src/Gift/Run.antt =====
-- Runs of the collector.
use rongta_f11_open.Base.{
  ℕ, ◌+◌, ◌*◌, ◌≤◌, ◌≡◌, refl, inl, inr, false, ◌&&◌, List, [], ◌∷◌, ◌++◌, ltb, leb, ◌==◌, Bytes,
  Result, ok, ◌>>=◌, arith, Bool-cases, Option-cases,
}
use rongta_f11_open.Gift.{
  Event, Celebration, Collector, new_collector, find, delete, accept, flush_one, flush_loop,
  flush_due,
}
use rongta_f11_open.Gift.Map.{times, delete-times, ids, delete-IsKeyed}
use rongta_f11_open.Gift.Once.{IsCollector, IsStep, Steps, still, finish-Steps, accept-Steps}

ids-append :
    (x : Bytes) (cs ds : List Celebration)
    → times x (ids (cs ++ ds)) ≡ times x (ids cs) + times x (ids ds)
ids-append x [] ds = omega arith
ids-append x (c ∷ cs) ds = omega (arith, ids-append x cs ds)

-- Two steps, one behind the other.
IsStep-behind :
    {c d e : Collector} {out more : List Celebration}
    → IsStep c d out
    → IsStep d e more
    → IsStep c e (out ++ more)
IsStep-behind {out = out} {more = more} j k = record {
  stays = k.stays;
  completes = λ x. omega (arith, j.completes x, k.completes x, ids-append x out more);
}

drop-IsCollector :
    (id : Bytes) (c : Collector)
    → IsCollector c
    → IsCollector (record c { pending = delete id c.pending })
drop-IsCollector id c k = record {
  once = λ x. omega (arith, k.once x, (delete-times x id c.pending).1);
  keyed = delete-IsKeyed id c.pending k.keyed;
}

flush_one-Steps :
    (now : ℕ) (id : Bytes) (c : Collector) → IsCollector c → Steps c (flush_one now id c)
unfolding flush_one
flush_one-Steps now id c k = elim (Option-cases (find id c.pending)) [
  | inl absent ↦ rw (flush_one, absent) (c, [], refl, still k (λ x. refl))
  | inr (p, there) ↦
      let finished = finish-Steps id c k there in
      elim (Bool-cases (ltb 0 p.celebration.total && leb (p.started + c.window) now)) [
        | inl due ↦
            let (d, out, made, step) = finished in
            let counted : (p.celebration.total == 0) ≡ false = ground arith in
            rw (flush_one, there, due, made, counted) (d, out, refl, step)
        | inr early ↦
            elim (Bool-cases (p.celebration.total == 0 && leb (p.started + 2 * c.window) now)) [
              | inl stale ↦
                  rw (flush_one, there, early, stale)
                    (_, [], refl, still (drop-IsCollector id c k) (λ x. refl))
              | inr waits ↦ rw (flush_one, there, early, waits) (c, [], refl, still k (λ x. refl))
            ]
      ]
]

flush_loop-Steps :
    (now : ℕ) (order : List Bytes) (c : Collector)
    → IsCollector c
    → Steps c (flush_loop now order c)
unfolding flush_loop
flush_loop-Steps now [] c k = (c, [], refl, still k (λ x. refl))
flush_loop-Steps now (id ∷ order) c k =
    let (d, out, made, step) = flush_one-Steps now id c k in
    let (e, more, made', step') = flush_loop-Steps now order d step.stays in
    rw (made, made') (e, out ++ more, refl, IsStep-behind step step')

flush_due-Steps : (c : Collector) (now : ℕ) → IsCollector c → Steps c (flush_due c now)
unfolding flush_due
flush_due-Steps c now k = flush_loop-Steps now c.order c k

-- A call of the collector.
pub data Call : Type 0 where
  accepted : Event → ℕ → Call
  flushed : ℕ → Call

module _ (to_lower : Bytes → Bytes) where
  abbrev pub call : Collector → Call → Result (Collector × List Celebration)
  call c (accepted e now) = accept to_lower c e now
  call c (flushed now) = flush_due c now

  -- The calls in turn, with all that they hand on.
  unfoldable pub calls : Collector → List Call → Result (Collector × List Celebration)
  calls c [] = ok (c, [])
  calls c (k ∷ ks) = do (d, out) ← call c k; (e, more) ← calls d ks; ok (e, out ++ more)

  call-Steps : (c : Collector) (k : Call) → IsCollector c → Steps c (call c k)
  call-Steps c (accepted e now) h = accept-Steps to_lower c e now h
  call-Steps c (flushed now) h = flush_due-Steps c now h

  calls-Steps : (c : Collector) (ks : List Call) → IsCollector c → Steps c (calls c ks)
  unfolding calls
  calls-Steps c [] h = (c, [], refl, still h (λ x. refl))
  calls-Steps c (k ∷ ks) h =
      let (d, out, made, step) = call-Steps c k h in
      let (e, more, made', step') = calls-Steps d ks step.stays in
      rw (made, made') (e, out ++ more, refl, IsStep-behind step step')

-- Whatever calls of `Accept` and `FlushDue` a new collector gets, in any order and at any times, none
-- panics, and no community's gift is handed on more than once.
pub calls-once :
    (to_lower : Bytes → Bytes) (window : ℕ) (ks : List Call)
    → (d : Collector) × (out : List Celebration) × (calls to_lower (new_collector window) ks
        ≡ ok (d, out))
      × ((x : Bytes) → times x (ids out) ≤ 1)
unfolding new_collector
calls-once to_lower window ks =
    let start : IsCollector (new_collector window) = record {
      once = λ x. omega arith;
      keyed = tt;
    } in
    let (d, out, made, step) = calls-Steps to_lower (new_collector window) ks start in
    (d, out, made, λ x. omega (arith, step.completes x, step.stays.once x))
