-- ===== src/Tests.antt =====
-- Runs of the theorems on concrete data, by the part of the program.
mod Relay
mod Record
mod Viewer
mod Listing
mod Chart
mod Sessions
mod Held
mod Window
mod Processes
mod Polls
