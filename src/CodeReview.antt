-- ===== src/CodeReview.antt =====
-- The workflows that develop a branch, review it, and answer its comments: internal/codereview.
pub mod Inputs
pub mod Commands
pub mod Local
pub mod Budget
pub mod Loop
pub mod Branches
pub mod Comments
pub mod Pilot
pub mod Chain
pub mod Develop
pub mod Development
pub mod Branch
pub mod Examples
