-- ===== src/Commands/Queue/Laws.antt =====
-- Which queues are printed on.
use rongta_f11_open.Base.{
  ℕ, String, suc, ◌≡◌, ◌≢◌, refl, sym, ap, ◌∙◌, inl, inr, Bool, true, false, not, ◌&&◌, List, [],
  ◌∷◌, length, drop, ok, fail_if, annotated, arith, Bool-cases, >>=-eq-ok,
}
use rongta_f11_open.Base.Ends.{Ends, value, Ends-bind, Ends-guard, Returns}
use rongta_f11_open.Text.{
  Text, codes, is_empty, is_space, trim_left, trim_right, trim_space, has_prefix, trim_prefix,
}
use rongta_f11_open.Text.Fields.{NoSpace}
use rongta_f11_open.Twitch.Names.Laws.{trim_right-NoSpace}
use rongta_f11_open.Commands.Queue.{
  Runner, is_alnum, is_queue_rune, all_queue_runes, matches_queue, is_queue, default_prefix,
  resolve_banner_queue, resolve_queue,
}

queue_rune-not-space : (r : ℕ) → is_queue_rune r ≡ true → is_space r ≡ false
unfolding is_queue_rune is_space
queue_rune-not-space r h = ground arith

all_queue_runes-NoSpace : (rs : Text) → all_queue_runes rs ≡ true → NoSpace rs
unfolding all_queue_runes
all_queue_runes-NoSpace [] h = tt
all_queue_runes-NoSpace (r ∷ rs) h =
    (queue_rune-not-space r (ground arith), all_queue_runes-NoSpace rs (ground arith))

alnum-queue_rune : (r : ℕ) → is_alnum r ≡ true → is_queue_rune r ≡ true
unfolding is_queue_rune
alnum-queue_rune r h = rw h refl

is_queue-NoSpace : (queue : Text) → is_queue queue ≡ true → NoSpace queue
unfolding is_queue matches_queue
is_queue-NoSpace [] h = tt
is_queue-NoSpace (r ∷ rs) h = (
  queue_rune-not-space r (alnum-queue_rune r (ground arith)),
  all_queue_runes-NoSpace rs (ground arith),
)

trim_space-NoSpace : (text : Text) → NoSpace text → trim_space text ≡ text
unfolding trim_space trim_left
trim_space-NoSpace [] h = unfold trim_right in refl
trim_space-NoSpace (r ∷ rs) (hr, h) = rw hr (trim_right-NoSpace (r ∷ rs) (hr, h))

trim_right-trim_right : (text : Text) → trim_right (trim_right text) ≡ trim_right text
unfolding trim_right
trim_right-trim_right [] = refl
trim_right-trim_right (r ∷ rs) = elim (Bool-cases (is_empty (trim_right rs) && is_space r)) [
  | inl gone ↦ rw gone refl
  | inr kept ↦ rw kept (rw (trim_right-trim_right rs, kept) refl)
]

-- The default prefix ends in a space, so it is no trimmed line.
not_prefix : (text : Text) → trim_space text ≢ default_prefix
unfolding trim_space
not_prefix text e =
    let again : trim_right default_prefix ≡ default_prefix =
      sym (ap trim_right e) ∙ trim_right-trim_right (trim_left text) ∙ e in
    let shorter : length (trim_right default_prefix) ≡ 27 = unfold trim_right is_space in refl in
    absurd (omega (arith, ap length again, shorter))

drop_empty :
    (text prefix : Text)
    → has_prefix text prefix ≡ true
    → is_empty (drop (length prefix) text) ≡ true
    → text ≡ prefix
unfolding has_prefix
drop_empty [] [] h e = refl
drop_empty (r ∷ rs) [] h e = cc
drop_empty [] (p ∷ ps) h e = cc
drop_empty (r ∷ rs) (p ∷ ps) h e = ground (arith, drop_empty rs ps)

-- So what stands behind it is not empty.
found-some :
    (output : Text)
    → has_prefix (trim_space output) default_prefix ≡ true
    → is_empty (trim_prefix (trim_space output) default_prefix) ≡ false
unfolding trim_prefix
found-some output h =
    elim (Bool-cases (is_empty (drop (length default_prefix) (trim_space output)))) [
      | inl nothing ↦
          absurd (not_prefix output (drop_empty (trim_space output) default_prefix h nothing))
      | inr something ↦ rw h something
    ]

not-eq-true : (b : Bool) → not b ≡ false → b ≡ true
not-eq-true true h = refl
not-eq-true false h = cc

fail_if-ok : (b : Bool) (message : String) → fail_if (not b) message ≡ ok tt → b ≡ true
fail_if-ok true message e = refl
fail_if-ok false message e = cc

module _ (runner : Runner) where
  -- A queue that is given is taken or refused at once.
  given-Ends :
      (fuel : ℕ) (queue : Text)
      → is_empty queue ≡ false
      → Ends (λ q. is_queue q ≡ true) (resolve_queue runner (suc fuel) queue)
  unfolding resolve_queue
  given-Ends fuel queue some_queue =
      rw some_queue (Ends-guard (not (is_queue queue)) _ (λ e. value (not-eq-true _ e)))

  -- If the commands return, `resolveQueue` of giftprint and raidprint calls itself at most once: it
  -- returns an error, or a queue that matches the pattern and begins with Rongta_F11.
  pub resolve_queue-Ends :
      (queue : Text)
      → ((name : Text) (args : List Text) → Returns (runner name args))
      → Ends (λ q. is_queue q ≡ true) (resolve_queue runner 2 queue)
  unfolding resolve_queue
  resolve_queue-Ends queue returns = elim (Bool-cases (is_empty queue)) [
    | inr some_queue ↦ given-Ends 1 queue some_queue
    | inl no_queue ↦ rw no_queue (
        Ends-bind (returns _ _) (λ output _.
          Ends-guard (not (has_prefix (trim_space output) default_prefix)) _
            (λ e. given-Ends 0 _ (found-some output (not-eq-true _ e)))))
  ]

  given-eq-ok :
      (fuel : ℕ) (queue : Text) {q : Text}
      → is_empty queue ≡ false
      → resolve_queue runner (suc fuel) queue ≡ ok q
      → (is_queue queue ≡ true) × (queue ≡ q)
  unfolding resolve_queue
  given-eq-ok fuel queue some_queue e = let e' = rw some_queue at e in ground arith

  looked-eq-ok :
      (fuel : ℕ) (queue : Text) {q : Text}
      → is_empty queue ≡ true
      → resolve_queue runner (suc fuel) queue ≡ ok q
      → (output : Text) × (runner (codes "lpstat") (codes "-d" ∷ []) ≡ ok output)
        × (has_prefix (trim_space output) default_prefix ≡ true)
        × (resolve_queue runner fuel (trim_prefix (trim_space output) default_prefix) ≡ ok q)
  unfolding resolve_queue
  looked-eq-ok fuel queue no_queue e =
      let (output, answered, later) =
        >>=-eq-ok (runner (codes "lpstat") (codes "-d" ∷ [])) _ (rw no_queue at e) in
      elim (Bool-cases (has_prefix (trim_space output) default_prefix)) [
        | inl there ↦ (output, answered, there, rw there at later)
        | inr absent ↦ absurd (let later' = rw absent at later in ground arith)
      ]

  -- A queue that giftprint and raidprint resolve is the one that bannerprint resolves.
  pub resolve_queue-resolve_banner_queue :
      (queue q : Text)
      → resolve_queue runner 2 queue ≡ ok q
      → resolve_banner_queue runner queue ≡ ok q
  unfolding resolve_banner_queue
  resolve_queue-resolve_banner_queue queue q e = elim (Bool-cases (is_empty queue)) [
    | inr some_queue ↦
        let (known, same) = given-eq-ok 1 queue some_queue e in rw (some_queue, known, same) refl
    | inl no_queue ↦
        let (output, answered, there, later) = looked-eq-ok 1 queue no_queue e in
        let rest = trim_prefix (trim_space output) default_prefix in
        let (known, same) = given-eq-ok 0 rest (found-some output there) later in
        let trimmed : trim_space rest ≡ rest =
          trim_space-NoSpace rest (is_queue-NoSpace rest known) in
        rw (no_queue, answered, there, trimmed, known) (ap ok same)
  ]

  -- What bannerprint resolves is a queue of the printer.
  pub resolve_banner_queue-eq-ok :
      (queue : Text) {q : Text} → resolve_banner_queue runner queue ≡ ok q → is_queue q ≡ true
  unfolding resolve_banner_queue
  resolve_banner_queue-eq-ok queue {q} e = elim (Bool-cases (is_empty queue)) [
    | inr some_queue ↦
        let (_, known, last) =
          >>=-eq-ok (fail_if (not (is_queue queue)) _) _ (rw some_queue at e) in
        let same : queue ≡ q = ground arith in rw (← same) (fail_if-ok _ _ known)
    | inl no_queue ↦
        let (output, _, found) =
          >>=-eq-ok (annotated _ (runner (codes "lpstat") (codes "-d" ∷ []))) _
            (rw no_queue at e) in
        let (_, _, later) =
          >>=-eq-ok (fail_if (not (has_prefix (trim_space output) default_prefix)) _) _ found in
        let rest = trim_space (trim_prefix (trim_space output) default_prefix) in
        let (_, known, last) = >>=-eq-ok (fail_if (not (is_queue rest)) _) _ later in
        let same : rest ≡ q = ground arith in rw (← same) (fail_if-ok _ _ known)
  ]
