-- ===== src/Gift.antt =====
-- The collector of gifted subscriptions of Appliance/internal/twitchgift/gift.go. Strings are lists of
-- runes, times are counts of nanoseconds, and a gift's total, an int that the parser bounds by 10 and
-- 1000, is a ℕ.
pub mod Map
pub mod Once
pub mod Run
pub mod Notice
pub mod Due
mod Tests
use rongta_f11_open.Base.{
  ℕ, zero, suc, ◌+◌, ◌-◌, ◌*◌, Bool, true, false, not, ◌&&◌, ◌||◌, List, [], ◌∷◌, ◌++◌, Option,
  some, none, ltb, leb, ◌==◌, if◌then◌else◌, length, Bytes, bytes_equal, Result, ok, panic, ◌>>=◌,
}

pub data Kind : Type 0 where
  kind_unknown kind_start kind_recipient : Kind

pub record Event : Type 0 where
  pub kind : Kind
  pub community_id : Bytes
  pub total : ℕ
  pub gifter : Bytes
  pub recipient : Bytes
  pub recipient_id : Bytes
  pub anonymous : Bool
  pub recipients : List Bytes

pub record Celebration : Type 0 where
  pub community_id : Bytes
  pub total : ℕ
  pub gifter : Bytes
  pub recipients : List Bytes
  pub missing : ℕ
  pub test : Bool

pub record Pending : Type 0 where
  pub celebration : Celebration
  pub started : ℕ
  pub seen : List Bytes

-- The map `pending` is an association list, and the set `completed` a list.
pub record Collector : Type 0 where
  pub window : ℕ
  pub pending : List (Bytes × Pending)
  pub completed : List Bytes
  pub order : List Bytes

unfoldable pub new_collector : ℕ → Collector
new_collector window = record { window = window; pending = []; completed = []; order = [] }

unfoldable pub has_id : Bytes → List Bytes → Bool
has_id x [] = false
has_id x (y ∷ ys) = bytes_equal x y || has_id x ys

-- `c.pending[id]`, `c.pending[id] = p` and `delete(c.pending, id)`.
unfoldable pub find : Bytes → List (Bytes × Pending) → Option Pending
find id [] = none
find id ((key, p) ∷ m) = let later = find id m in if bytes_equal id key then some p else later

unfoldable pub put : Bytes → Pending → List (Bytes × Pending) → List (Bytes × Pending)
put id p [] = (id, p) ∷ []
put id p ((key, q) ∷ m) =
    let later = put id p m in if bytes_equal id key then (key, p) ∷ m else (key, q) ∷ later

unfoldable pub delete : Bytes → List (Bytes × Pending) → List (Bytes × Pending)
delete id [] = []
delete id ((key, q) ∷ m) =
    let later = delete id m in if bytes_equal id key then later else (key, q) ∷ later

-- `finish` of an id that is not pending would follow a nil pointer.
unfoldable pub finish : Bytes → Collector → Result (Collector × List Celebration)
unfolding find delete
finish id c = elim (find id c.pending) [
  | none ↦ panic
  | some p ↦
      let done : Celebration = record p.celebration {
        missing = p.celebration.total - length p.celebration.recipients;
      } in
      ok (record c { pending = delete id c.pending; completed = id ∷ c.completed }, done ∷ [])
]

-- `if e.Kind == KindStart && p.Total == 0`
unfoldable pub on_start : Event → ℕ → Pending → Pending
on_start e now p = elim e.kind [
  | kind_start ↦
      let begun : Pending = record p {
        celebration = record p.celebration { total = e.total; gifter = e.gifter };
        started = now;
      } in
      if p.celebration.total == 0 then begun else p
  | kind_recipient ↦ p
  | kind_unknown ↦ p
]

module _ (to_lower : Bytes → Bytes) where
  unfoldable pub recipient_key : Event → Bytes
  recipient_key e = if bytes_equal e.recipient_id [] then to_lower e.recipient else e.recipient_id

  -- `if e.Kind == KindRecipient`
  unfoldable pub on_recipient : Event → Pending → Pending
  unfolding recipient_key has_id
  on_recipient e p = elim e.kind [
    | kind_recipient ↦
        let key = recipient_key e in
        let added : Pending = record p {
          celebration = record p.celebration {
            recipients = p.celebration.recipients ++ (e.recipient ∷ []);
          };
          seen = key ∷ p.seen;
        } in
        if not (bytes_equal e.recipient []) && not (has_id key p.seen) then added else p
    | kind_start ↦ p
    | kind_unknown ↦ p
  ]

  -- The rest of `Accept`, with the pending celebration of the event.
  unfoldable pub accept_pending :
      Collector → Event → ℕ → Pending → Result (Collector × List Celebration)
  unfolding finish on_start on_recipient put
  accept_pending c e now p =
      let q = on_recipient e (on_start e now p) in
      let stored : Collector = record c { pending = put e.community_id q c.pending } in
      if ltb 0 q.celebration.total && leb q.celebration.total (length q.celebration.recipients)
      then finish e.community_id stored
      else ok (stored, [])

  unfoldable pub fresh : Bytes → ℕ → Pending
  fresh id now = record {
    celebration = record {
      community_id = id;
      total = 0;
      gifter = [];
      recipients = [];
      missing = 0;
      test = false;
    };
    started = now;
    seen = [];
  }

  unfoldable pub accept : Collector → Event → ℕ → Result (Collector × List Celebration)
  unfolding accept_pending fresh
  accept c e now =
      let known : Result (Collector × List Celebration) = elim (find e.community_id c.pending) [
        | some p ↦ accept_pending c e now p
        | none ↦
            accept_pending
              (record c {
                pending = put e.community_id (fresh e.community_id now) c.pending;
                order = c.order ++ (e.community_id ∷ []);
              })
              e now (fresh e.community_id now)
      ] in
      if bytes_equal e.community_id [] || has_id e.community_id c.completed
      then ok (c, [])
      else known

-- One round of the loop of `FlushDue`; `!now.Before(t)` is `t <= now`.
unfoldable pub flush_one : ℕ → Bytes → Collector → Result (Collector × List Celebration)
unfolding finish
flush_one now id c = elim (find id c.pending) [
  | none ↦ ok (c, [])
  | some p ↦ do
    (done, out) ←
        if ltb 0 p.celebration.total && leb (p.started + c.window) now
        then finish id c
        else ok (c, [])
    let dropped : Collector = record done { pending = delete id done.pending }
    let last : Collector =
        if p.celebration.total == 0 && leb (p.started + 2 * c.window) now then dropped else done
    ok (last, out)
]

unfoldable pub flush_loop : ℕ → List Bytes → Collector → Result (Collector × List Celebration)
unfolding flush_one
flush_loop now [] c = ok (c, [])
flush_loop now (id ∷ ids) c = do
  (c', out) ← flush_one now id c
  (c'', more) ← flush_loop now ids c'
  ok (c'', out ++ more)

unfoldable pub flush_due : Collector → ℕ → Result (Collector × List Celebration)
unfolding flush_loop
flush_due c now = flush_loop now c.order c
