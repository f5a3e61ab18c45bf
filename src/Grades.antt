-- ===== src/Grades.antt =====
-- The grade book of `grades/`: the records of a course, reading and writing them, and the sort of
-- the rosters.
pub mod Records
pub mod Read
pub mod Write
pub mod Sort
pub mod RoundTrip
mod Tests
