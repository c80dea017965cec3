-- ===== src/Gift/Map.antt =====
-- The map of pending celebrations, and the ids in it.
use rongta_f11_open.Base.{
  ℕ, ◌+◌, ◌≤◌, ◌<◌, ◌≡◌, refl, sym, ap, ◌∙◌, inl, inr, false, All, List, [], ◌∷◌, some, none,
  if◌then◌else◌, Bytes, bytes_equal, bytes_equal_refl, bytes_equal→eq, arith, Bool-cases,
}
use rongta_f11_open.Gift.{Celebration, Pending, has_id, find, put, delete}
pub use rongta_f11_open.Text.Count.{same_id, times, times-append, same_id_refl}

-- How often an id stands in the pending map and among celebrations.
abbrev pub pending_times : Bytes → List (Bytes × Pending) → ℕ
pending_times x [] = 0
pending_times x ((key, p) ∷ m) = same_id x key + pending_times x m

pub has_id-times : (x : Bytes) (xs : List Bytes) → has_id x xs ≡ false → times x xs ≡ 0
unfolding has_id
has_id-times x [] h = refl
has_id-times x (y ∷ ys) h = ground (arith, has_id-times x ys)

-- Deleting an id takes all its entries and no other.
pub delete-times :
    (x id : Bytes) (m : List (Bytes × Pending))
    → (pending_times id (delete id m) ≡ 0) × (pending_times x (delete id m) ≤ pending_times x m)
unfolding delete
delete-times x id [] = (refl, omega arith)
delete-times x id ((key, p) ∷ m) =
    let (gone, less) = delete-times x id m in
    elim (Bool-cases (bytes_equal id key)) [
      | inl e ↦ rw e (gone, omega arith)
      | inr e ↦ rw e (rw e (omega arith), omega arith)
    ]

pub find-none-times :
    (id : Bytes) (m : List (Bytes × Pending)) → find id m ≡ none → pending_times id m ≡ 0
unfolding find
find-none-times id [] e = refl
find-none-times id ((key, p) ∷ m) e = ground (arith, find-none-times id m)

pub find-some-times :
    (id : Bytes) (m : List (Bytes × Pending)) {p : Pending}
    → find id m ≡ some p
    → 0 < pending_times id m
unfolding find
find-some-times id [] e = cc
find-some-times id ((key, q) ∷ m) {p} e = elim (Bool-cases (bytes_equal id key)) [
  | inl y ↦ rw y (omega arith)
  | inr n ↦
      let later : find id m ≡ some p = sym (ap (λ b. if b then some q else find id m) n) ∙ e in
      rw n (omega (arith, find-some-times id m later))
]

pub put-find :
    (id : Bytes) (p : Pending) (m : List (Bytes × Pending)) → find id (put id p m) ≡ some p
unfolding find put
put-find id p [] = rw (bytes_equal_refl id) refl
put-find id p ((key, q) ∷ m) = elim (Bool-cases (bytes_equal id key)) [
  | inl e ↦ rw (e, e) refl
  | inr e ↦ rw (e, e) (put-find id p m)
]

-- Writing an entry keeps the keys if there is one, or else adds its key.
pub put-times :
    (x id : Bytes) (p : Pending) (m : List (Bytes × Pending))
    → pending_times x (put id p m) ≤ pending_times x m + same_id x id
unfolding put
put-times x id p [] = omega arith
put-times x id p ((key, q) ∷ m) = elim (Bool-cases (bytes_equal id key)) [
  | inl e ↦ rw e (omega arith)
  | inr e ↦ rw e (omega (arith, put-times x id p m))
]

pub put_known-times :
    (x id : Bytes) (p : Pending) (m : List (Bytes × Pending))
    → 0 < pending_times id m
    → pending_times x (put id p m) ≡ pending_times x m
unfolding put
put_known-times x id p [] h = absurd (omega arith)
put_known-times x id p ((key, q) ∷ m) h = elim (Bool-cases (bytes_equal id key)) [
  | inl e ↦ rw e refl
  | inr e ↦ rw e (ap (λ n. same_id x key + n) (put_known-times x id p m (ground arith)))
]

abbrev pub ids : List Celebration → List Bytes
ids [] = []
ids (c ∷ cs) = c.community_id ∷ ids cs

-- A pending celebration bears the id that it stands under.
abbrev pub IsKeyed : Bytes × Pending → Type 0
IsKeyed (key, p) = p.celebration.community_id ≡ key

pub find-IsKeyed :
    (id : Bytes) (m : List (Bytes × Pending)) {p : Pending}
    → All IsKeyed m
    → find id m ≡ some p
    → p.celebration.community_id ≡ id
unfolding find
find-IsKeyed id [] h e = cc
find-IsKeyed id ((key, q) ∷ m) {p} (hq, h) e = elim (Bool-cases (bytes_equal id key)) [
  | inl y ↦
      let here : some q ≡ some p = sym (ap (λ b. if b then some q else find id m) y) ∙ e in
      let same : q ≡ p = ground arith in rw (← same) (hq ∙ sym (bytes_equal→eq id key y))
  | inr n ↦ find-IsKeyed id m h (sym (ap (λ b. if b then some q else find id m) n) ∙ e)
]

pub put-IsKeyed :
    (id : Bytes) (p : Pending) (m : List (Bytes × Pending))
    → All IsKeyed m
    → p.celebration.community_id ≡ id
    → All IsKeyed (put id p m)
unfolding put
put-IsKeyed id p [] h e = (e, tt)
put-IsKeyed id p ((key, q) ∷ m) (hq, h) e = elim (Bool-cases (bytes_equal id key)) [
  | inl y ↦ rw y (e ∙ bytes_equal→eq id key y, h)
  | inr n ↦ rw n (hq, put-IsKeyed id p m h e)
]

pub delete-IsKeyed :
    (id : Bytes) (m : List (Bytes × Pending)) → All IsKeyed m → All IsKeyed (delete id m)
unfolding delete
delete-IsKeyed id [] h = tt
delete-IsKeyed id ((key, q) ∷ m) (hq, h) = elim (Bool-cases (bytes_equal id key)) [
  | inl y ↦ rw y (delete-IsKeyed id m h)
  | inr n ↦ rw n (hq, delete-IsKeyed id m h)
]
