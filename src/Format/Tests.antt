-- ===== src/Format/Tests.antt =====
-- Values as the page writes them.
use justverify.Common.{to_locale_string, decimal, none, some, ◌≡◌, refl, true}
use justverify.I18n.Strings.{all_chars}
use justverify.Format.{text, strip, bytes, duration, size}
use justverify.Format.Clean.{is_plain, Kept, strip_lem}
use justverify.Format.Bytes.{IsShown, size-IsShown}

bytes_tests :
    (bytes none ≡ "—")
    × (bytes (some 1048575) ≡ "1,048,575 B")
    × (bytes (some 1048576) ≡ "1.0 MiB")
    × (bytes (some 1073741823) ≡ "1024.0 MiB")
    × (bytes (some 751619276800) ≡ "700.0 GiB")
unfolding bytes to_locale_string decimal
bytes_tests = (refl, refl, refl, refl, refl)

duration_tests :
    (duration (some 59) ≡ "59초")
    × (duration (some 3599) ≡ "59분")
    × (duration (some 3661) ≡ "1시간 1분")
    × (duration (some 90000) ≡ "1일 1시간")
unfolding duration decimal
duration_tests = (refl, refl, refl, refl)

text_test : text (some "/Satoshi:\u{202e}31.0\u{7}/") ≡ "/Satoshi:31.0/"
unfolding text
text_test = refl

strip_lem_example : (all_chars is_plain (strip "a\u{7}b") ≡ true) × Kept "a\u{7}b" (strip "a\u{7}b")
strip_lem_example = strip_lem "a\u{7}b"

size-IsShown_example : IsShown 1073741823 (size 1073741823)
size-IsShown_example = size-IsShown 1073741823
