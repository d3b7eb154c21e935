-- ===== src/Contests.antt =====
-- backend/src/modules/contests: contests, the stories entered in them, the votes and the prizes.
pub mod Store
pub mod Repository
pub mod Service
pub mod Entries
pub mod Events
pub mod Reads
pub mod History
pub mod Entrants
pub mod Lifecycle
pub mod Ballots
pub mod Voting
pub mod Winners
mod Tests
