-- ===== src/Settings/Download/Watched.antt =====
-- settings.js, watchDownload: what is there while the page waits for a download.
use justverify.Common.{
  ℕ, zero, suc, String, Option, none, some, List, [], ◌∷◌, Bool, true, false, not, ◌||◌, ◌==◌, ◌≡◌,
  refl, ap, ◌∙◌, arith, if_either, any,
}
use justverify.Settings.Download.{
  State, Phase, are_none, take_found, Message, other_message, verifying, completed, incomplete,
  failure, Timer, Page, watch_download, open_view, leave, started, select, timer_at, without_timer,
  request_for, fire, is_downloaded, has_failed, take_state, take_answer, answer_current, nth,
  without, answered, Event, opens, leaves, draws, opened, versions, starts, selects, fires, answers,
  handle, run, initial,
}

abbrev pub is_verifying : Message → Bool
is_verifying verifying = true
is_verifying other_message = false
is_verifying completed = false
is_verifying incomplete = false
is_verifying failure = false

-- A timer or a request of the generation is there.
abbrev pub watches : ℕ → List Timer → List ℕ → Bool
watches g ts rs = any (λ t. t.current == g) ts || any (λ r. r == g) rs

abbrev pub IsWatched : Page → Type 0
IsWatched p =
    p.visible ≡ true
    → is_verifying p.message ≡ true
    → watches p.generation p.timers p.requests ≡ true

watch_download-IsWatched : (p : Page) → IsWatched (watch_download p)
unfolding watch_download
watch_download-IsWatched p s h = ground arith

-- A timer that fires leaves its request.
fired_lem :
    (g n : ℕ) (ts : List Timer) (rs : List ℕ)
    → watches g (without_timer n ts) (request_for (timer_at n ts) rs) ≡ watches g ts rs
fired_lem g zero [] rs = refl
fired_lem g (suc n) [] rs = refl
fired_lem g zero (t ∷ ts) rs = ground arith
fired_lem g (suc n) (t ∷ ts) rs = ground (arith, fired_lem g n ts rs)

-- An answer of another generation is not missed.
abbrev other : ℕ → Option ℕ → Bool
other g none = true
other g (some h) = not (h == g)

without_lem :
    (g n : ℕ) (rs : List ℕ)
    → other g (nth n rs) ≡ true
    → any (λ r. r == g) (without n rs) ≡ any (λ r. r == g) rs
without_lem g zero [] h = refl
without_lem g (suc n) [] h = refl
without_lem g zero (r ∷ rs) h = ground (arith, h)
without_lem g (suc n) (r ∷ rs) h = ground (arith, without_lem g n rs h)

take_found-IsWatched :
    (found : Bool) (phase : Phase) (p : Page) → IsWatched (take_found found phase p)
unfolding watch_download versions
take_found-IsWatched found phase p =
    if_either IsWatched found (λ _ s h. absurd (ground (arith, h)))
      (λ _.
        if_either IsWatched (has_failed phase) (λ _ s h. absurd (ground (arith, h)))
          (λ _. watch_download-IsWatched (record p { message = verifying })))

take_state-IsWatched : (s : State) (v : Option String) (p : Page) → IsWatched (take_state s v p)
unfolding watch_download versions
take_state-IsWatched s none p =
    if_either IsWatched (are_none s.releases) (λ _. take_found-IsWatched false s.phase p)
      (λ _ s h. absurd (ground (arith, h)))
take_state-IsWatched s (some v) p = take_found-IsWatched (is_downloaded v s.releases) s.phase p

take_answer-IsWatched : (a : Option State) (p : Page) → IsWatched (take_answer a p)
take_answer-IsWatched none p = λ s h. absurd (ground (arith, h))
take_answer-IsWatched (some s) p = take_state-IsWatched s p.selection p

abbrev rest : ℕ → Page → Page
rest n p = record p { requests = without n p.requests }

answer_current-IsWatched :
    (n : ℕ) (o : Option ℕ) (a : Option State) (p : Page)
    → nth n p.requests ≡ o
    → IsWatched p
    → IsWatched (answer_current o a (rest n p))
answer_current-IsWatched n none a p e h =
    λ s v. ground (arith, h s v, without_lem p.generation n p.requests (ap (other p.generation) e))
answer_current-IsWatched n (some g) a p e h =
    if_either IsWatched (g == p.generation) (λ _. take_answer-IsWatched a (rest n p))
      (λ t s v. ground (
        arith,
        h s v,
        without_lem p.generation n p.requests (ap (other p.generation) e ∙ ap not t),
      ))

handle-IsWatched : (e : Event) (p : Page) → IsWatched p → IsWatched (handle e p)
unfolding handle open_view leave opened started select fire answered
handle-IsWatched leaves p h = λ s v. absurd (ground (arith, s))
handle-IsWatched opens p h = λ s v. absurd (ground (arith, v))
handle-IsWatched (draws phase) p h = λ s v. absurd (ground (arith, v))
handle-IsWatched starts p h = watch_download-IsWatched (record p { message = verifying })
handle-IsWatched (selects version) p h = λ s v. absurd (ground (arith, v))
handle-IsWatched (fires n) p h = λ s v. fired_lem p.generation n p.timers p.requests ∙ h s v
handle-IsWatched (answers n a) p h = answer_current-IsWatched n (nth n p.requests) a p refl h

run-IsWatched : (es : List Event) (p : Page) → IsWatched p → IsWatched (run es p)
unfolding run
run-IsWatched [] p h = h
run-IsWatched (e ∷ es) p h = run-IsWatched es (handle e p) (handle-IsWatched e p h)

-- In every order of events, while the view is visible and says that a download is being verified, a timer
-- or a request of the present page is there.
pub run-initial-IsWatched :
    (es : List Event)
    → (run es initial).visible ≡ true
    → is_verifying (run es initial).message ≡ true
    → watches (run es initial).generation (run es initial).timers (run es initial).requests ≡ true
run-initial-IsWatched es = run-IsWatched es initial (λ s h. absurd (ground (arith, h)))
