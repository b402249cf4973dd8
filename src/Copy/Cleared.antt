-- ===== src/Copy/Cleared.antt =====
-- copy.js: a message is shown with its mark, and for a time.
use justverify.Common.{
  ℕ, List, [], ◌∷◌, Bool, true, false, not, ◌&&◌, ◌||◌, ◌≡◌, refl, arith, if_either, if◌then◌else◌,
  String, All,
}
use justverify.I18n.Strings.{is_empty}
use justverify.Copy.{
  Message, silent, copied, unsupported, Button, Browser, show, click, written, fire, Event, clicked,
  answered, fired, handle, run, initial, clear, is_there, without, has,
}

abbrev pub is_copied : Message → Bool
is_copied copied = true
is_copied silent = false
is_copied unsupported = false

abbrev is_silent : Message → Bool
is_silent silent = true
is_silent copied = false
is_silent unsupported = false

abbrev is_nil {ℓ} : {A : Type ℓ} → List A → Bool
is_nil [] = true
is_nil (x ∷ xs) = false

-- The mark is the message's, and a message has a timer or a copy under way that will set one.
pub record IsCleared (b : Button) : Type 0 where
  pub mark : b.marked ≡ is_copied b.message
  pub ends : (is_silent b.message || not (is_nil b.timers) || not (is_nil b.writing)) ≡ true

-- The button is pressed for an address only.
abbrev pub IsFilled : Event → Type 0
IsFilled (clicked value browser) = is_empty value ≡ false
IsFilled (answered n ok browser) = Unit
IsFilled (fired i) = Unit

show-IsCleared : (done : Bool) (b : Button) → IsCleared (show done b)
unfolding show
show-IsCleared true b = record { mark = refl; ends = refl }
show-IsCleared false b = record { mark = refl; ends = refl }

click-IsCleared :
    (value : String) (browser : Browser) (b : Button)
    → is_empty value ≡ false
    → IsCleared b
    → IsCleared (click value browser b)
unfolding click
click-IsCleared value browser b f h =
    if_either IsCleared (is_empty value) (λ e. absurd (ground (arith, e, f)))
      (λ _.
        if_either IsCleared (browser.secure && browser.clipboard)
          (λ _. record { mark = h.mark; ends = ground arith })
          (λ _. show-IsCleared browser.exec (record b { timers = clear b.reset b.timers })))

written-IsCleared :
    (n : ℕ) (ok : Bool) (browser : Browser) (b : Button)
    → IsCleared b
    → IsCleared (written n ok browser b)
unfolding written
written-IsCleared n ok browser b h =
    if_either IsCleared (is_there n b.writing)
      (λ _.
        show-IsCleared (if ok then true else browser.exec)
          (record b { writing = without n b.writing }))
      (λ _. h)

fire-IsCleared : (i : ℕ) (b : Button) → IsCleared b → IsCleared (fire i b)
unfolding fire
fire-IsCleared i b h =
    if_either IsCleared (has i b.timers) (λ _. record { mark = refl; ends = refl }) (λ _. h)

handle-IsCleared : (e : Event) (b : Button) → IsFilled e → IsCleared b → IsCleared (handle e b)
unfolding handle
handle-IsCleared (clicked value browser) b f h = click-IsCleared value browser b f h
handle-IsCleared (answered n ok browser) b f h = written-IsCleared n ok browser b h
handle-IsCleared (fired i) b f h = fire-IsCleared i b h

run-IsCleared :
    (es : List Event) (b : Button) → All IsFilled es → IsCleared b → IsCleared (run es b)
unfolding run
run-IsCleared [] b f h = h
run-IsCleared (e ∷ es) b (f, fs) h = run-IsCleared es (handle e b) fs (handle-IsCleared e b f h)

-- As long as the button is pressed for addresses that are not empty, in every order of presses, answers
-- and timers: the mark is there just while the button says that it has copied, and while it says
-- anything a timer is set that clears it, or a copy is under way that will set one.
pub run-initial-IsCleared : (es : List Event) → All IsFilled es → IsCleared (run es initial)
run-initial-IsCleared es f = run-IsCleared es initial f (record { mark = refl; ends = refl })
