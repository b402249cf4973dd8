-- ===== src/Settings.antt =====
-- web/static/settings.js: the options of the policy and their edits, the network switches, the default
-- fees, the releases, their choice and their download, and the review that precedes every change.
pub mod Networks
pub mod Review
pub mod Releases
pub mod Fees
pub mod Rows
pub mod Download
pub mod Choice
