-- ===== src/Commands/Queue.antt =====
-- `queuePattern`, `resolveQueue` and `verifyQueue` of Appliance/cmd/bannerprint/main.go, and those that
-- giftprint/main.go and raidprint/main.go share. The runner of commands is an argument.
pub mod Laws
use rongta_f11_open.Base.{
  ℕ, zero, suc, Bool, true, false, not, ◌&&◌, ◌||◌, List, [], ◌∷◌, ◌++◌, ltb, leb, ◌==◌,
  if◌then◌else◌, length, drop, Result, ok, err, panic, stuck, new, ◌>>=◌, ◌>>◌, fail_if, masked,
  annotated,
}
use rongta_f11_open.Text.{Text, codes, is_empty, byte_length, trim_space, has_prefix, trim_prefix}

abbrev pub Runner : Type 0
Runner = Text → List Text → Result Text

abbrev pub is_alnum : ℕ → Bool
is_alnum r = (leb 65 r && leb r 90) || ((leb 97 r && leb r 122) || (leb 48 r && leb r 57))

unfoldable pub is_queue_rune : ℕ → Bool
is_queue_rune r = is_alnum r || (r == 95 || (r == 46 || r == 45))

unfoldable pub all_queue_runes : Text → Bool
unfolding is_queue_rune
all_queue_runes [] = true
all_queue_runes (r ∷ rs) = is_queue_rune r && all_queue_runes rs

-- ^[A-Za-z0-9][A-Za-z0-9_.-]{0,126}$
unfoldable pub matches_queue : Text → Bool
unfolding all_queue_runes
matches_queue [] = false
matches_queue (r ∷ rs) = is_alnum r && (all_queue_runes rs && leb (length rs) 126)

-- A queue that is accepted for printing.
unfoldable pub is_queue : Text → Bool
unfolding matches_queue has_prefix
is_queue queue = matches_queue queue && has_prefix queue (codes "Rongta_F11")

abbrev pub default_prefix : Text
default_prefix = codes "system default destination: "

module _ (runner : Runner) where
  -- `resolveQueue` of bannerprint.
  unfoldable pub resolve_banner_queue : Text → Result Text
  resolve_banner_queue queue =
      let looked_up : Result Text = (do
        output ← annotated "cannot read CUPS default" (runner (codes "lpstat") (codes "-d" ∷ []))
        let line = trim_space output
        fail_if (not (has_prefix line default_prefix)) "CUPS has no default destination"
        let found = trim_space (trim_prefix line default_prefix)
        fail_if (not (is_queue found)) "CUPS default is not an F11 queue"
        ok found) in
      let given : Result Text = (do
        fail_if (not (is_queue queue)) "queue must be an F11 queue"
        ok queue) in
      if is_empty queue then looked_up else given

  -- `verifyQueue` of bannerprint.
  unfoldable pub verify_banner_queue : Text → Result (Unit {0})
  verify_banner_queue queue = do
    line ← annotated "cannot inspect CUPS queue" (runner (codes "lpstat") (codes "-v" ∷ queue ∷ []))
    fail_if
        (ltb 4096 (byte_length line)
          || not (has_prefix line (codes "device for " ++ (queue ++ codes ": "))))
        "unexpected CUPS queue identity"
    verified ← masked "queue is not the attached F11 USB device" (
        runner (codes "/usr/local/lib/f11/check-f11-runtime")
          (queue ∷ trim_space line ∷ codes "/sys/bus/usb/devices" ∷ []))
    fail_if (is_empty (trim_space verified)) "queue is not the attached F11 USB device"

  -- `resolveQueue` of giftprint and raidprint, which calls itself with what it looked up.
  unfoldable pub resolve_queue : ℕ → Text → Result Text
  resolve_queue zero queue = stuck
  resolve_queue (suc fuel) queue =
      let looked_up : Result Text = (do
        output ← runner (codes "lpstat") (codes "-d" ∷ [])
        let line = trim_space output
        fail_if (not (has_prefix line default_prefix)) "no default queue"
        resolve_queue fuel (trim_prefix line default_prefix)) in
      let given : Result Text = (do fail_if (not (is_queue queue)) "queue must be F11"; ok queue) in
      if is_empty queue then looked_up else given

  -- `verifyQueue` of giftprint and raidprint.
  unfoldable pub verify_queue : Text → Result (Unit {0})
  verify_queue queue = do
    output ← runner (codes "lpstat") (codes "-v" ∷ queue ∷ [])
    let line = trim_space output
    fail_if (not (has_prefix line (codes "device for " ++ (queue ++ codes ": "))))
        "unexpected queue identity"
    verified ← masked "queue is not attached F11" (
        runner (codes "/usr/local/lib/f11/check-f11-runtime")
          (queue ∷ line ∷ codes "/sys/bus/usb/devices" ∷ []))
    fail_if (is_empty (trim_space verified)) "queue is not attached F11"
