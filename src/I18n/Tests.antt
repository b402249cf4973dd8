-- ===== src/I18n/Tests.antt =====
-- Texts of the page in the three languages.
use justverify.Common.{String, ◌≡◌, refl, Option, none, some, List, [], ◌∷◌}
use justverify.I18n.Entries.{ko, en, ja, Entry, entry}
use justverify.I18n.Messages.{messages}
use justverify.I18n.Strings.{is_space, trim}
use justverify.I18n.Text.{text, lookup}
use justverify.I18n.Patterns.{number_of, is_grouped, is_fixed2}
use justverify.I18n.Words.{Shown, text_known}
use justverify.I18n.Nodes.{Event, chosen, written, run, load}
use justverify.I18n.Nodes.Sources.{shown, page_run, page_load, contents, run-load}

text_tests :
    (text en " 최근 블록\n" ≡ " Recent blocks\n")
    × (text ja "최근 블록" ≡ "最近のブロック")
    × (text ko "최근 블록" ≡ "최근 블록")
    × (text en "블록 968,197" ≡ "Block 968,197")
    × (text en "약 99.98%" ≡ "≈ 99.98%")
    × (text en "3시간 12분" ≡ "3h 12m")
    × (text en "12초 전" ≡ "12s ago")
    × (text en "Core 기본값: 300" ≡ "Core default: 300")
    × (text en "valueOf" ≡ "undefined")
    × (text en "bc1qexample" ≡ "bc1qexample")
unfolding text messages is_grouped is_fixed2 is_space number_of
text_tests = (refl, refl, refl, refl, refl, refl, refl, refl, refl, refl)

text_known_example : Shown " 최근 블록\n" (entry "최근 블록" "Recent blocks" "最近のブロック")
unfolding lookup messages is_space trim
text_known_example = text_known " 최근 블록\n" (entry "최근 블록" "Recent blocks" "最近のブロック") refl

abbrev brightness : Entry
brightness = entry "밝기" "Brightness" "明るさ"

abbrev unsupported : List (Option String)
unsupported = some "fr-CH" ∷ none ∷ []

abbrev session : List Event
session = chosen "en" ∷ written 1 "블록 7" ∷ chosen "de" ∷ chosen "ja" ∷ []

abbrev page : List String
page = "밝기" ∷ "연결 중" ∷ []

run-load_example : run session (load page []) ≡ shown (page_run session (page_load page []))
run-load_example = run-load session page []

run-load_test : contents (run session (load page [])) ≡ "明るさ" ∷ "ブロック 7" ∷ []
unfolding run load text messages is_space is_grouped is_fixed2 number_of
run-load_test = refl
