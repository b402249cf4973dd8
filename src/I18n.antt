-- ===== src/I18n.antt =====
-- i18n.js: the language of the page and the translation of its texts.
pub mod Entries
pub mod Messages
pub mod Strings
pub mod Patterns
pub mod Text
pub mod Trim
pub mod Words
pub mod Numbers
pub mod Detect
pub mod Nodes
pub mod Decimal
mod Tests
