-- ===== src/Twitch.antt =====
-- Twitch events on their way to paper: Appliance/internal/twitchbanner, twitchraid, twitchdevice and the
-- printing half of twitchgift. What encoding/json decodes, what a command answers and how a write ends are
-- arguments of the definitions.
pub mod Journal
pub mod Cheer
pub mod Names
pub mod Raid
pub mod Process
pub mod Printer
pub mod Callback
pub mod Api
pub mod Device
mod Tests
