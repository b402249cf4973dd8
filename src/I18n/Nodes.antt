-- ===== src/I18n/Nodes.antt =====
-- i18n.js, `set` and `translate`: the texts of the page, which are translated where they stand. The
-- nodes are the ones that the walk does not pass over, and the attributes, which are treated alike.
pub mod Sources
use justverify.Common.{
  ℕ, zero, suc, String, Option, none, some, List, [], ◌∷◌, Bool, true, false, if◌then◌else◌, map,
  ◌||◌,
}
use justverify.I18n.Entries.{Language, ko, en, ja}
use justverify.I18n.Strings.{equals}
use justverify.I18n.Text.{text}
use justverify.I18n.Detect.{detect}

-- An entry of `originals`
pub record Cached : Type 0 where
  pub source : String
  pub rendered : String

pub record Node : Type 0 where
  pub content : String
  pub cached : Option Cached

-- `cached&&node.data===cached.rendered?cached.source:node.data`
abbrev pub source_of : Option Cached → String → String
source_of none d = d
source_of (some c) d = if equals d c.rendered then c.source else d

abbrev pub rendered : Language → String → Node
rendered l s = record {
  content = text l s;
  cached = some (record { source = s; rendered = text l s });
}

-- One step of `translate`; `content` is `node.data`.
unfoldable pub translate : Language → Node → Node
unfolding text equals
translate l n = rendered l (source_of n.cached n.content)

pub record Document : Type 0 where
  pub language : Language
  pub nodes : List Node
  pub preferred : List (Option String)  -- `navigator.languages`

-- `resolve`: the codes themselves, and the browser's languages for anything else.
unfoldable pub resolve : String → List (Option String) → Language
unfolding detect equals
resolve value preferred =
    if equals value "ko"
    then ko
    else if equals value "en"
    then en
    else if equals value "ja"
    then ja
    else detect preferred

abbrev pub is_choice : String → Bool
is_choice v = equals v "auto" || equals v "ko" || equals v "en" || equals v "ja"

unfoldable pub translate_all : Document → Document
unfolding translate
translate_all d = record d { nodes = map (translate d.language) d.nodes }

unfoldable pub set : String → Document → Document
unfolding resolve translate_all
set v d = if is_choice v then translate_all (record d { language = resolve v d.preferred }) else d

abbrev pub replace_at {ℓ} : {A : Type ℓ} → ℕ → (A → A) → List A → List A
replace_at n f [] = []
replace_at zero f (x ∷ xs) = f x ∷ xs
replace_at (suc n) f (x ∷ xs) = x ∷ replace_at n f xs

abbrev pub put : String → Node → Node
put w n = record n { content = w }

abbrev pub fresh : String → Node
fresh s = record { content = s; cached = none }

-- `textContent = w`: the text is a new node, which has no entry; the observer then translates the page.
unfoldable pub replace_text : ℕ → String → Document → Document
unfolding translate_all
replace_text i w d = translate_all (record d { nodes = replace_at i (λ n. fresh w) d.nodes })

-- An attribute is set, which keeps its entry; the observer then translates the page.
unfoldable pub write : ℕ → String → Document → Document
unfolding translate_all
write i w d = translate_all (record d { nodes = replace_at i (put w) d.nodes })

pub data Event : Type 0 where
  chosen : String → Event
  replaced : ℕ → String → Event
  written : ℕ → String → Event

unfoldable pub handle : Event → Document → Document
unfolding set write replace_text
handle (chosen v) d = set v d
handle (replaced i w) d = replace_text i w d
handle (written i w) d = write i w d

unfoldable pub run : List Event → Document → Document
unfolding handle
run [] d = d
run (e ∷ es) d = run es (handle e d)

-- The page as it is loaded: `resolve('auto')` and `set(language)`.
unfoldable pub load : List String → List (Option String) → Document
unfolding translate_all detect
load texts preferred =
    translate_all
      (record { language = detect preferred; nodes = map fresh texts; preferred = preferred })
