-- ===== src/Examples.antt =====
-- Runs of the definitions at concrete inputs, and the theorems applied there.
mod Data
mod Drafts
mod Pages
mod Polling
mod Moving
mod Routing
mod Editing
mod Finding
mod Building
mod Asking
mod Listing
mod Linking
