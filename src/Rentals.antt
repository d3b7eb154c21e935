-- ===== src/Rentals.antt =====
-- backend/src/modules/rentals: the rentals of books, from the payment that grants one to its end.
pub mod Store
pub mod Repository
pub mod Service
pub mod Events
pub mod Access
pub mod Extensions
pub mod Grants
pub mod History
mod Reads
mod Tests
