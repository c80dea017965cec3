-- ===== src/Twitch/Callback.antt =====
-- `OAuthCallbackHandler` of Appliance/internal/twitchbanner/twitchbanner.go. The channel of results is
-- the list of what waits in it, and its capacity.
pub mod Laws
use rongta_f11_open.Base.{
  ℕ, ◌≤◌, ◌<◌, ◌≡◌, refl, inl, inr, Bool, true, false, not, List, [], ◌∷◌, ◌++◌, ltb, if◌then◌else◌,
  length, length-append, arith, Bool-cases, bytes_equal→eq, bytes_equal_refl, ◌↔◌,
}
use rongta_f11_open.Text.{Text, is_empty, text_equal}

pub record OAuthCallback : Type 0 where
  pub code : Text
  pub error : Text

-- The parameters of a request's URL.
pub record Query : Type 0 where
  pub state : Text
  pub code : Text
  pub error : Text

pub data Reply : Type 0 where
  invalid_state authorization_failed complete : Reply

pub record Channel : Type 0 where
  pub capacity : ℕ
  pub waiting : List OAuthCallback

-- `select { case results <- res: default: }`
unfoldable pub offer : OAuthCallback → Channel → Channel
offer res ch =
    if ltb (length ch.waiting) ch.capacity
    then record ch { waiting = ch.waiting ++ (res ∷ []) }
    else ch

unfoldable pub handle_callback : Text → Query → Channel → Channel × Reply
unfolding offer
handle_callback state q ch =
    let res : OAuthCallback = record { code = q.code; error = q.error } in
    if not (text_equal q.state state)
    then (ch, invalid_state)
    else if is_empty q.code
    then (ch, authorization_failed)
    else (offer res ch, complete)

-- The requests in turn.
unfoldable pub handle_all : Text → List Query → Channel → Channel
unfolding handle_callback
handle_all state [] ch = ch
handle_all state (q ∷ qs) ch = handle_all state qs (handle_callback state q ch).0
