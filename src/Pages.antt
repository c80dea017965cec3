-- ===== src/Pages.antt =====
-- The pages that are printed for a gift and for a raid: Appliance/internal/giftpage/page.go and
-- Appliance/internal/raidpage/page.go. The painting of a page that is planned, with a font, is an
-- argument.
pub mod Gift
pub mod Raid
mod Tests
