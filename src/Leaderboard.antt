-- ===== src/Leaderboard.antt =====
-- The Explorer's leaderboards: src/oathcast/leaderboard.py.
pub mod Entry
pub mod Board
pub mod Ranked
pub mod Leader
mod Tests
