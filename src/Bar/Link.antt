-- ===== src/Bar/Link.antt =====
-- device.js and mempool-integration.js: the link of the menu opens the bar in its language.
use justverify.Bar.{language_of, path_of}
use justverify.Common.{String, ◌≡◌, refl}
use justverify.I18n.Entries.{Language, ko, en, ja}
use justverify.I18n.Strings.{◌++◌, strip_prefix}

-- The path of the link to a language is read as this language by the page of the mempool, whatever
-- follows it in the address.
pub language_of-path_of : (l : Language) (rest : String) → language_of (path_of l ++ rest) ≡ l
unfolding language_of path_of strip_prefix ◌++◌
language_of-path_of ko rest = refl
language_of-path_of en rest = refl
language_of-path_of ja rest = refl
