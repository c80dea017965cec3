-- ===== src/Commands.antt =====
-- The programs bannerprint, giftprint and raidprint of Appliance/cmd: they draw a page, check the job
-- that is made of it, and hand it to the spooler. What the commands lpstat and lp answer is an argument.
pub mod Stream
pub mod Queue
pub mod Crop
pub mod Spool
pub mod Banner
pub mod Receipts
pub mod Tests
