-- ===== src/Poll.antt =====
-- voteit/poll: registers of voters, votes, the policies that make registers, the life of a poll and
-- the poll methods.
pub mod Register
pub mod Ballots
pub mod Machine
pub mod Policy
pub mod Starting
pub mod Methods
