-- ===== src/Examples.antt =====
-- Runs of the definitions on concrete data, and of the theorems on inputs where they apply.
mod Data
mod Load
mod Signature
mod Roster
mod Text
mod Region
mod Vote
mod OneBot
mod Window
mod Hooks
mod Reach
mod Shown
mod Reap
mod Gate
