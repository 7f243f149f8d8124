-- ===== src/Tests.antt =====
-- Tests and applications of the theorems at concrete inputs.
mod Feed
mod Maps
mod Lists
mod Loads
mod Logging
mod Reports
mod Books
mod Sides
