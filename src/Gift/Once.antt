-- ===== src/Gift/Once.antt =====
-- What the collector's operations do to the ids that are pending and completed.
use rongta_f11_open.Base.{
  ℕ, ◌+◌, ◌≤◌, ◌<◌, ◌≡◌, refl, ◌∙◌, inl, inr, false, ◌&&◌, ◌||◌, All, List, [], ◌∷◌, ◌++◌, some,
  ltb, leb, length, Bytes, bytes_equal, bytes_equal→eq, Result, ok, arith, Bool-cases, Option-cases,
}
use rongta_f11_open.Gift.{
  Event, Celebration, Pending, Collector, has_id, find, put, delete, finish, on_start, on_recipient,
  accept_pending, fresh, accept,
}
use rongta_f11_open.Gift.Map.{
  same_id, times, pending_times, has_id-times, same_id_refl, delete-times, find-none-times,
  find-some-times, put-find, put-times, put_known-times, ids, IsKeyed, find-IsKeyed, put-IsKeyed,
  delete-IsKeyed,
}

-- Each id is pending or completed once at most.
pub record IsCollector (c : Collector) : Type 0 where
  pub once : (x : Bytes) → times x c.completed + pending_times x c.pending ≤ 1
  pub keyed : All IsKeyed c.pending

-- What a step keeps: it completes exactly the ids that it hands on.
pub record IsStep (c d : Collector) (out : List Celebration) : Type 0 where
  pub stays : IsCollector d
  pub completes : (x : Bytes) → times x d.completed ≡ times x c.completed + times x (ids out)

abbrev pub Steps : Collector → Result (Collector × List Celebration) → Type 0
Steps c m = (d : Collector) × (out : List Celebration) × (m ≡ ok (d, out)) × IsStep c d out

pub still :
    {c d : Collector}
    → IsCollector d
    → ((x : Bytes) → times x d.completed ≡ times x c.completed)
    → IsStep c d []
still k e = record { stays = k; completes = λ x. omega (arith, e x) }

complete-once :
    (id : Bytes) (c : Collector) {p : Pending} (x : Bytes)
    → IsCollector c
    → find id c.pending ≡ some p
    → same_id x id + times x c.completed + pending_times x (delete id c.pending) ≤ 1
complete-once id c x k e =
    let found : 0 < pending_times id c.pending = find-some-times id c.pending e in
    let (gone, less) = delete-times x id c.pending in
    elim (Bool-cases (bytes_equal x id)) [
      | inl y ↦
          let same : x ≡ id = bytes_equal→eq x id y in
          rw (same, same_id_refl id) (omega (arith, k.once id, found, gone))
      | inr n ↦ rw n (omega (arith, k.once x, less))
    ]

pub finish-Steps :
    (id : Bytes) (c : Collector) {p : Pending}
    → IsCollector c
    → find id c.pending ≡ some p
    → Steps c (finish id c)
unfolding finish
finish-Steps id c {p} k e =
    let bears : p.celebration.community_id ≡ id = find-IsKeyed id c.pending k.keyed e in
    rw (finish, e)
      (
        _,
        _,
        refl,
        record {
          stays = record {
            once = λ x. omega (arith, complete-once id c x k e);
            keyed = delete-IsKeyed id c.pending k.keyed;
          };
          completes = λ x. rw bears (omega arith);
        },
      )

on_start-id :
    (e : Event) (now : ℕ) (p : Pending)
    → (on_start e now p).celebration.community_id ≡ p.celebration.community_id
unfolding on_start
on_start-id e now p = ground arith

on_recipient-id :
    (to_lower : Bytes → Bytes) (e : Event) (p : Pending)
    → (on_recipient to_lower e p).celebration.community_id ≡ p.celebration.community_id
unfolding on_recipient
on_recipient-id to_lower e p = ground arith

add-once :
    (id : Bytes) (c : Collector) (p : Pending) (x : Bytes)
    → IsCollector c
    → times id c.completed ≡ 0
    → pending_times id c.pending ≡ 0
    → times x c.completed + pending_times x (put id p c.pending) ≤ 1
add-once id c p x k done pending =
    let more = put-times x id p c.pending in
    elim (Bool-cases (bytes_equal x id)) [
      | inl y ↦
          let same : x ≡ id = bytes_equal→eq x id y in
          rw same (omega (arith, done, pending, put-times id id p c.pending, same_id_refl id))
      | inr n ↦
          let none_more : same_id x id ≡ 0 = rw n refl in omega (arith, k.once x, more, none_more)
    ]

module _ (to_lower : Bytes → Bytes) where
  accept_pending-Steps :
      (c : Collector) (e : Event) (now : ℕ) (p : Pending)
      → IsCollector c
      → 0 < pending_times e.community_id c.pending
      → p.celebration.community_id ≡ e.community_id
      → Steps c (accept_pending to_lower c e now p)
  unfolding accept_pending
  accept_pending-Steps c e now p k found bears =
      let id : Bytes = e.community_id in
      let q : Pending = on_recipient to_lower e (on_start e now p) in
      let stored : Collector = record c { pending = put id q c.pending } in
      let named : q.celebration.community_id ≡ id =
        on_recipient-id to_lower e (on_start e now p) ∙ on_start-id e now p ∙ bears in
      let kept : IsCollector stored = record {
        once = λ x. omega (arith, k.once x, put_known-times x id q c.pending found);
        keyed = put-IsKeyed id q c.pending k.keyed named;
      } in
      elim (Bool-cases
        (ltb 0 q.celebration.total && leb q.celebration.total (length q.celebration.recipients))) [
          | inl full ↦
              let (d, out, made, step) = finish-Steps id stored kept (put-find id q c.pending) in
              rw full (d, out, made, record { stays = step.stays; completes = step.completes })
          | inr more ↦ rw more (stored, [], refl, still kept (λ x. refl))
        ]

  pub accept-Steps :
      (c : Collector) (e : Event) (now : ℕ) → IsCollector c → Steps c (accept to_lower c e now)
  unfolding accept fresh
  accept-Steps c e now k =
      let id : Bytes = e.community_id in
      elim (Bool-cases (bytes_equal id [] || has_id id c.completed)) [
        | inl done ↦ rw done (c, [], refl, still k (λ x. refl))
        | inr unknown ↦
            let new_id : has_id id c.completed ≡ false = ground arith in
            elim (Option-cases (find id c.pending)) [
              | inl absent ↦
                  let p : Pending = fresh to_lower id now in
                  let added : Collector = record c {
                    pending = put id p c.pending;
                    order = c.order ++ (id ∷ []);
                  } in
                  let none_done : times id c.completed ≡ 0 = has_id-times id c.completed new_id in
                  let none_pending : pending_times id c.pending ≡ 0 =
                    find-none-times id c.pending absent in
                  let kept : IsCollector added = record {
                    once = λ x. add-once id c p x k none_done none_pending;
                    keyed = put-IsKeyed id p c.pending k.keyed refl;
                  } in
                  let (d, out, made, step) =
                    accept_pending-Steps added e now p kept
                      (find-some-times id (put id p c.pending) (put-find id p c.pending)) refl in
                  rw (unknown, absent)
                    (d, out, made, record { stays = step.stays; completes = step.completes })
              | inr (p, there) ↦
                  rw (unknown, there)
                    (accept_pending-Steps c e now p k (find-some-times id c.pending there)
                      (find-IsKeyed id c.pending k.keyed there))
            ]
      ]
