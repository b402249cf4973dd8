-- ===== src/I18n/Nodes/Sources.antt =====
-- i18n.js: the page keeps the text that the program wrote, and always translates that one.
use justverify.Common.{
  ℕ, zero, suc, String, Option, List, [], ◌∷◌, Bool, true, false, if◌then◌else◌, map, ◌≡◌, refl, ap,
  ◌∙◌,
}
use justverify.I18n.Entries.{Language}
use justverify.I18n.Strings.{equals}
use justverify.I18n.Text.{text}
use justverify.I18n.Detect.{detect}
use justverify.I18n.Numbers.{equals_refl}
use justverify.I18n.Nodes.{
  Node, Document, Event, chosen, replaced, written, rendered, fresh, put, is_choice, translate,
  translate_all, resolve, set, write, replace_text, handle, run, load, replace_at,
}

-- What the page is, apart from how it keeps it: a language, and the text that each node stands for.
pub record Page : Type 0 where
  pub language : Language
  pub sources : List String
  pub preferred : List (Option String)

-- A value of an attribute that is just what is shown is not told from the attribute's own.
abbrev replacing : Language → String → String → String
replacing l w s = if equals w (text l s) then s else w

unfoldable pub page_handle : Event → Page → Page
unfolding text equals resolve
page_handle (chosen v) p = if is_choice v then record p { language = resolve v p.preferred } else p
page_handle (replaced i w) p = record p { sources = replace_at i (λ s. w) p.sources }
page_handle (written i w) p = record p { sources = replace_at i (replacing p.language w) p.sources }

unfoldable pub page_run : List Event → Page → Page
unfolding page_handle
page_run [] p = p
page_run (e ∷ es) p = page_run es (page_handle e p)

unfoldable pub page_load : List String → List (Option String) → Page
unfolding detect
page_load texts preferred = record {
  language = detect preferred;
  sources = texts;
  preferred = preferred;
}

-- The page with every text of it translated once.
abbrev pub shown : Page → Document
shown p = record {
  language = p.language;
  nodes = map (rendered p.language) p.sources;
  preferred = p.preferred;
}

-- What has been shown in one language is translated from its source into the next.
translate-rendered : (l m : Language) (s : String) → translate m (rendered l s) ≡ rendered m s
unfolding translate
translate-rendered l m s = ap (λ b. rendered m (if b then s else text l s)) (equals_refl (text l s))

map-translate :
    (l m : Language) (ss : List String)
    → map (translate m) (map (rendered l) ss) ≡ map (rendered m) ss
map-translate l m [] = refl
map-translate l m (s ∷ ss) =
    ap (◌∷ map (translate m) (map (rendered l) ss)) (translate-rendered l m s)
    ∙ ap (rendered m s ∷◌) (map-translate l m ss)

translate-fresh :
    (l : Language) (ts : List String) → map (translate l) (map fresh ts) ≡ map (rendered l) ts
unfolding translate
translate-fresh l [] = refl
translate-fresh l (t ∷ ts) = ap (rendered l t ∷◌) (translate-fresh l ts)

write_map :
    (l : Language) (i : ℕ) (w : String) (ss : List String)
    → map (translate l) (replace_at i (put w) (map (rendered l) ss))
      ≡ map (rendered l) (replace_at i (replacing l w) ss)
unfolding translate
write_map l i w [] = refl
write_map l zero w (s ∷ ss) = ap (rendered l (replacing l w s) ∷◌) (map-translate l l ss)
write_map l (suc i) w (s ∷ ss) =
    ap (◌∷ map (translate l) (replace_at i (put w) (map (rendered l) ss)))
      (translate-rendered l l s)
    ∙ ap (rendered l s ∷◌) (write_map l i w ss)

replace_map :
    (l : Language) (i : ℕ) (w : String) (ss : List String)
    → map (translate l) (replace_at i (λ n. fresh w) (map (rendered l) ss))
      ≡ map (rendered l) (replace_at i (λ s. w) ss)
unfolding translate
replace_map l i w [] = refl
replace_map l zero w (s ∷ ss) = ap (rendered l w ∷◌) (map-translate l l ss)
replace_map l (suc i) w (s ∷ ss) =
    ap (◌∷ map (translate l) (replace_at i (λ n. fresh w) (map (rendered l) ss)))
      (translate-rendered l l s)
    ∙ ap (rendered l s ∷◌) (replace_map l i w ss)

with_nodes : Page → Language → List Node → Document
with_nodes p l ns = record { language = l; nodes = ns; preferred = p.preferred }

choose_lem :
    (b : Bool) (l : Language) (p : Page)
    → (if b then translate_all (record (shown p) { language = l }) else shown p)
      ≡ shown (if b then record p { language = l } else p)
unfolding translate_all with_nodes
choose_lem true l p = ap (with_nodes p l) (map-translate p.language l p.sources)
choose_lem false l p = refl

handle-shown : (e : Event) (p : Page) → handle e (shown p) ≡ shown (page_handle e p)
unfolding handle page_handle set write replace_text translate_all with_nodes
handle-shown (chosen v) p = choose_lem (is_choice v) (resolve v p.preferred) p
handle-shown (replaced i w) p = ap (with_nodes p p.language) (replace_map p.language i w p.sources)
handle-shown (written i w) p = ap (with_nodes p p.language) (write_map p.language i w p.sources)

run-shown : (es : List Event) (p : Page) → run es (shown p) ≡ shown (page_run es p)
unfolding run page_run
run-shown [] p = refl
run-shown (e ∷ es) p = ap (run es) (handle-shown e p) ∙ run-shown es (page_handle e p)

load-shown :
    (ts : List String) (preferred : List (Option String))
    → load ts preferred ≡ shown (page_load ts preferred)
unfolding load page_load translate_all with_nodes
load-shown ts preferred =
    ap (with_nodes (page_load ts preferred) (detect preferred))
      (translate-fresh (detect preferred) ts)

-- Through any choices of languages and any texts that the program writes, the page is its source texts
-- with each translated once, from the source, into the present language.
pub run-load :
    (es : List Event) (ts : List String) (preferred : List (Option String))
    → run es (load ts preferred) ≡ shown (page_run es (page_load ts preferred))
run-load es ts preferred =
    ap (run es) (load-shown ts preferred) ∙ run-shown es (page_load ts preferred)

chosen_keeps :
    (b : Bool) (p : Page) (l : Language)
    → (if b then record p { language = l } else p).sources ≡ p.sources
chosen_keeps true p l = refl
chosen_keeps false p l = refl

choices_keep : (vs : List String) (p : Page) → (page_run (map chosen vs) p).sources ≡ p.sources
unfolding page_run page_handle
choices_keep [] p = refl
choices_keep (v ∷ vs) p =
    choices_keep vs (page_handle (chosen v) p)
    ∙ chosen_keeps (is_choice v) p (resolve v p.preferred)

abbrev pub contents : Document → List String
contents d = map (λ n. n.content) d.nodes

contents-map :
    (l : Language) (ss : List String) → map (λ n. n.content) (map (rendered l) ss) ≡ map (text l) ss
contents-map l [] = refl
contents-map l (s ∷ ss) = ap (text l s ∷◌) (contents-map l ss)

-- However often the language is chosen, the page shows what translating its loaded texts once into
-- the present language gives.
pub run-choices :
    (vs ts : List String) (preferred : List (Option String))
    → contents (run (map chosen vs) (load ts preferred))
      ≡ map (text (page_run (map chosen vs) (page_load ts preferred)).language) ts
unfolding page_load
run-choices vs ts preferred =
    let p = page_run (map chosen vs) (page_load ts preferred) in
    ap contents (run-load (map chosen vs) ts preferred)
    ∙ contents-map p.language p.sources
    ∙ ap (map (text p.language)) (choices_keep vs (page_load ts preferred))
