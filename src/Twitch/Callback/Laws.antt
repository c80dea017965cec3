-- ===== src/Twitch/Callback/Laws.antt =====
-- What requests of the callback leave in the channel of results.
use rongta_f11_open.Base.{
  ◌≤◌, ◌+◌, ◌≡◌, refl, sym, ◌∙◌, inl, inr, true, false, not, List, [], ◌∷◌, ◌++◌, ltb,
  if◌then◌else◌, length, length-append, take, take_all, take-append_eq, append_assoc, append-nil,
  ap, arith, Bool-cases,
}
use rongta_f11_open.Text.{Text, is_empty, text_equal}
use rongta_f11_open.Twitch.Callback.{
  OAuthCallback, Query, Channel, offer, handle_callback, handle_all,
}

-- The results of the requests that carry the state and a code.
abbrev pub accepted_results : Text → List Query → List OAuthCallback
accepted_results state [] = []
accepted_results state (q ∷ qs) =
    let rest = accepted_results state qs in
    if not (text_equal q.state state)
    then rest
    else if is_empty q.code
    then rest
    else record { code = q.code; error = q.error } ∷ rest

module _ (state : Text) (q : Query) (ch : Channel) where
  forged_lem : text_equal q.state state ≡ false → (handle_callback state q ch).0 ≡ ch
  unfolding handle_callback
  forged_lem forged = rw forged refl

  refused_lem :
      text_equal q.state state ≡ true → is_empty q.code ≡ true → (handle_callback state q ch).0 ≡ ch
  unfolding handle_callback
  refused_lem right nothing = rw (right, nothing) refl

  granted_lem :
      text_equal q.state state ≡ true
      → is_empty q.code ≡ false
      → (handle_callback state q ch).0 ≡ offer (record { code = q.code; error = q.error }) ch
  unfolding handle_callback
  granted_lem right given = rw (right, given) refl

  next :
      (qs : List Query) {ch' : Channel}
      → (handle_callback state q ch).0 ≡ ch'
      → handle_all state (q ∷ qs) ch ≡ handle_all state qs ch'
  unfolding handle_all
  next qs e = ap (handle_all state qs) e

-- An offer keeps the capacity, and takes what still fits.
offer-take :
    (res : OAuthCallback) (ch : Channel) (rest : List OAuthCallback)
    → length ch.waiting ≤ ch.capacity
    → ((offer res ch).capacity ≡ ch.capacity)
      × (length (offer res ch).waiting ≤ ch.capacity)
      × (take ch.capacity ((offer res ch).waiting ++ rest)
          ≡ take ch.capacity (ch.waiting ++ (res ∷ rest)))
unfolding offer
offer-take res ch rest fits = elim (Bool-cases (ltb (length ch.waiting) ch.capacity)) [
  | inl room ↦
      let has_room : length ch.waiting + 1 ≤ ch.capacity = ground arith in
      rw room (
        refl,
        rw (length-append ch.waiting (res ∷ [])) has_room,
        ap (take ch.capacity) (append_assoc ch.waiting (res ∷ []) rest),
      )
  | inr full ↦
      let e : ch.capacity ≡ length ch.waiting = ground arith in
      rw full (
        refl,
        fits,
        take-append_eq ch.waiting rest ch.capacity e
            ∙ sym (take-append_eq ch.waiting (res ∷ rest) ch.capacity e),
      )
]

-- Whatever the requests, the channel keeps its capacity and holds what waited in it and behind that the
-- results of the requests that carry the right state and a code, in their order, up to its capacity, if
-- what waited did not exceed it.
pub handle_all-accepted :
    (state : Text) (qs : List Query) (ch : Channel)
    → length ch.waiting ≤ ch.capacity
    → ((handle_all state qs ch).capacity ≡ ch.capacity)
      × ((handle_all state qs ch).waiting
          ≡ take ch.capacity (ch.waiting ++ accepted_results state qs))
unfolding handle_all
handle_all-accepted state [] ch fits =
    (refl, sym (rw (append-nil ch.waiting) (take_all ch.capacity ch.waiting fits)))
handle_all-accepted state (q ∷ qs) ch fits = elim (Bool-cases (text_equal q.state state)) [
  | inr forged ↦
      rw (next state q ch qs (forged_lem state q ch forged), forged)
        (handle_all-accepted state qs ch fits)
  | inl right ↦ elim (Bool-cases (is_empty q.code)) [
    | inl nothing ↦
        rw (next state q ch qs (refused_lem state q ch right nothing), right, nothing)
          (handle_all-accepted state qs ch fits)
    | inr given ↦
        let res : OAuthCallback = record { code = q.code; error = q.error } in
        let (same, fits', taken) = offer-take res ch (accepted_results state qs) fits in
        let (same', e) = handle_all-accepted state qs (offer res ch) (rw same fits') in
        rw (next state q ch qs (granted_lem state q ch right given), right, given)
          (same' ∙ same, rw same at e ∙ taken)
  ]
]
