-- ===== src/Snapshots.antt =====
-- src/core/snapshots.cpp: the internal snapshots of a VM.
pub mod Texts
pub mod Images
pub mod Machine
pub mod Actions
pub mod Replies
pub mod Finished
pub mod Ended
pub mod Quoting
pub mod Merging
pub mod Order
pub mod Undo
pub mod Listings
pub mod Listed
pub mod Answered
