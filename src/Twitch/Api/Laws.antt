-- ===== src/Twitch/Api/Laws.antt =====
-- What the checks of the subscriptions establish.
use Prim.Native.String.{String}
use rongta_f11_open.Base.{
  ℕ, ◌+◌, ◌≡◌, ◌↔◌, refl, sym, ap, ◌∙◌, inl, inr, true, false, not, ◌&&◌, ◌||◌, List, [], ◌∷◌, ◌==◌,
  if◌then◌else◌, All, Result, ok, >>=-eq-ok, fail_if, arith, Bool-cases,
}
use rongta_f11_open.Text.{Text, is_empty, text_equal}
use rongta_f11_open.Twitch.Api.{
  Subscription, Page, is_required, is_current, count_kinds, count_of, verify_required,
  list_subscriptions, cheer_kind, chat_kind, notice_kind, raid_kind,
}

-- How many required subscriptions of a kind are listed.
abbrev pub required_count : Text → Text → List Subscription → ℕ
required_count broadcaster_id kind [] = 0
required_count broadcaster_id kind (s ∷ ss) =
    (if is_required s broadcaster_id && text_equal kind s.kind then 1 else 0)
    + required_count broadcaster_id kind ss

abbrev pub CurrentIfRequired : Text → Text → Subscription → Type 0
CurrentIfRequired broadcaster_id session_id s =
    is_required s broadcaster_id ≡ true → is_current s session_id ≡ true

-- The four subscriptions, each once, and none for another session.
pub record IsSubscribed (broadcaster_id session_id : Text) (all : List Subscription) : Type 0 where
  pub current : All (CurrentIfRequired broadcaster_id session_id) all
  pub cheer : required_count broadcaster_id cheer_kind all ≡ 1
  pub chat : required_count broadcaster_id chat_kind all ≡ 1
  pub notice : required_count broadcaster_id notice_kind all ≡ 1
  pub raid : required_count broadcaster_id raid_kind all ≡ 1

-- The last test passes if and only if each number is 1.
all_ones :
    (a b c d : ℕ) (m : String)
    → fail_if (not (a == 1) || (not (b == 1) || (not (c == 1) || not (d == 1)))) m ≡ ok tt
    → (a ≡ 1) × (b ≡ 1) × (c ≡ 1) × (d ≡ 1)
all_ones a b c d m e = (ground arith, ground arith, ground arith, ground arith)

module _ (broadcaster_id session_id : Text) where
  count_kinds-current :
      (all : List Subscription) (counts : List Text) {c : List Text}
      → count_kinds broadcaster_id session_id all counts ≡ ok c
      → All (CurrentIfRequired broadcaster_id session_id) all
  unfolding count_kinds
  count_kinds-current [] counts e = tt
  count_kinds-current (s ∷ ss) counts e = elim (Bool-cases (is_required s broadcaster_id)) [
    | inr other ↦ (λ h. cc, count_kinds-current ss counts (rw other at e))
    | inl required ↦ elim (Bool-cases (is_current s session_id)) [
      | inl current ↦
          (λ h. current, count_kinds-current ss (s.kind ∷ counts) (rw (required, current) at e))
      | inr old ↦ absurd (let e' = rw (required, old) at e in ground arith)
    ]
  ]

  count_kinds-counts :
      (all : List Subscription) (counts : List Text)
      → All (CurrentIfRequired broadcaster_id session_id) all
      → (c : List Text) × (count_kinds broadcaster_id session_id all counts ≡ ok c)
        × ((kind : Text)
            → count_of kind c ≡ required_count broadcaster_id kind all + count_of kind counts)
  unfolding count_kinds count_of
  count_kinds-counts [] counts h = (counts, refl, λ kind. omega arith)
  count_kinds-counts (s ∷ ss) counts (hs, h) = elim (Bool-cases (is_required s broadcaster_id)) [
    | inr other ↦
        let (c, made, counted) = count_kinds-counts ss counts h in
        rw (other, made) (c, refl, λ kind. counted kind ∙ omega arith)
    | inl required ↦
        let (c, made, counted) = count_kinds-counts ss (s.kind ∷ counts) h in
        rw (required, hs required, made) (c, refl, λ kind. counted kind ∙ omega arith)
  ]

  -- If the listing succeeds and the ids are given, `VerifyRequiredSubscriptions` reports no error if and
  -- only if each of the four required subscriptions is listed exactly once, and every required one is
  -- enabled for the session.
  pub verify_required_iff :
      (escape : Text → Text) (get : Text → Result Page) (all : List Subscription)
      → is_empty broadcaster_id ≡ false
      → is_empty session_id ≡ false
      → list_subscriptions escape get ≡ ok all
      → (verify_required escape get broadcaster_id session_id ≡ ok tt)
        ↔ IsSubscribed broadcaster_id session_id all
  unfolding verify_required count_of
  verify_required_iff escape get all some_broadcaster some_session listed = (forth, back)
    where
      forth :
          verify_required escape get broadcaster_id session_id ≡ ok tt
          → IsSubscribed broadcaster_id session_id all
      forth e =
          let (c, made, e1) =
            >>=-eq-ok (count_kinds broadcaster_id session_id all []) _
              (rw (some_broadcaster, some_session, listed) at e) in
          let current = count_kinds-current all [] made in
          let (c', made', counted) = count_kinds-counts all [] current in
          let same : c ≡ c' = ground arith in
          let found : (kind : Text) → required_count broadcaster_id kind all ≡ count_of kind c =
            λ kind. sym (counted kind ∙ omega arith) ∙ ap (count_of kind) (sym same) in
          let (one_cheer, one_chat, one_notice, one_raid) = all_ones _ _ _ _ _ e1 in
          record {
            current = current;
            cheer = found cheer_kind ∙ one_cheer;
            chat = found chat_kind ∙ one_chat;
            notice = found notice_kind ∙ one_notice;
            raid = found raid_kind ∙ one_raid;
          }

      back :
          IsSubscribed broadcaster_id session_id all
          → verify_required escape get broadcaster_id session_id ≡ ok tt
      back k =
          let (c, made, counted) = count_kinds-counts all [] k.current in
          let found : (kind : Text)
              → required_count broadcaster_id kind all ≡ 1
              → count_of kind c ≡ 1 =
            λ kind one. counted kind ∙ omega arith in
          rw
            (
              some_broadcaster,
              some_session,
              listed,
              made,
              found cheer_kind k.cheer,
              found chat_kind k.chat,
              found notice_kind k.notice,
              found raid_kind k.raid,
            )
            refl
