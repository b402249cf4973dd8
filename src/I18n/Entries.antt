-- ===== src/I18n/Entries.antt =====
-- i18n.js: the languages and the entries of the dictionary.
use justverify.Common.{String}

pub data Language : Type 0 where
  ko en ja : Language

-- `"한국어":{"en":…,"ja":…}`
pub data Entry : Type 0 where
  entry : String → String → String → Entry

abbrev pub source : Entry → String
source (entry k e j) = k

-- `entry[language]`; a Korean page is not translated.
abbrev pub translation : Language → Entry → String
translation ko (entry k e j) = k
translation en (entry k e j) = e
translation ja (entry k e j) = j
