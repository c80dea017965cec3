-- ===== src/Pages/Tests.antt =====
-- The theorems on the pages at concrete inputs.
use rongta_f11_open.Base.{[], ◌∷◌, arith}
use rongta_f11_open.Text.{codes}
use rongta_f11_open.Pages.Gift.{GiftPage, plan_gift}
use rongta_f11_open.Pages.Gift.Laws.{IsPlan, plan_gift-IsPlan}

abbrev sample_page : GiftPage
sample_page = record {
  total = 10;
  gifter = codes "ann";
  recipients = codes "bob" ∷ [];
  missing = 4;
}

plan_gift-IsPlan_example :
    IsPlan sample_page (codes "bob" ∷ []) (plan_gift sample_page (codes "ann") (codes "bob" ∷ []))
plan_gift-IsPlan_example =
    plan_gift-IsPlan sample_page (codes "ann") (codes "bob" ∷ []) (omega arith)
