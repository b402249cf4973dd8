-- ===== src/Rain/Loop.antt =====
-- When the animation runs.
use justverify.Common.{
  ◌≡◌, refl, sym, ◌∙◌, ◌||◌, Bool-cases, inl, inr, ap, if_either, not-eq_true, not-eq_false, arith,
  List, [], ◌∷◌, Bool, true, false, not, ◌&&◌,
}
use justverify.Rain.{
  Input, Stream, Rain, normalize, is_empty, turn_on, turn_off, ensure_canvas, take_effect, resize,
  apply, resume, animate, Event, applied, resized, frame, visibility, motion, freeze, unfreeze,
  pagehide, pageshow, handle, initial,
}

abbrev pub may_run : Rain → Bool
may_run s = s.settings.enabled && s.ctx && not s.document_hidden && not s.frozen && not s.reduced

-- The canvas and the mark on the page agree with the settings.
pub record IsShown (s : Rain) : Type 0 where
  pub context : s.ctx ≡ true → s.canvas ≡ true
  pub off :
      s.settings.enabled ≡ false → (s.marked ≡ false) × (s.canvas ≡ true → s.canvas_hidden ≡ true)
  pub on : s.settings.enabled ≡ true → s.ctx ≡ true → (s.marked ≡ true) × (s.canvas_hidden ≡ false)

pub record IsSound (s : Rain) : Type 0 where
  pub running : s.raf ≡ true → may_run s ≡ true
  pub shown : IsShown s

resume_runs : (s : Rain) → ((resume s).raf ≡ may_run s) × (may_run (resume s) ≡ may_run s)
unfolding resume
resume_runs s = ground arith

resume-IsShown : (s : Rain) → IsShown s → IsShown (resume s)
unfolding resume
resume-IsShown s i = ground arith

resume-IsSound : (s : Rain) → IsShown s → IsSound (resume s)
resume-IsSound s i = record {
  running = λ h. (resume_runs s).1 ∙ (sym (resume_runs s).0 ∙ h);
  shown = resume-IsShown s i;
}

-- What holds before the settings take effect: a frame may still be requested for the old ones.
record IsReady (s : Rain) : Type 0 where
  context : s.ctx ≡ true → s.canvas ≡ true
  requested : s.raf ≡ true → s.ctx ≡ true

abbrev Runs : Rain → Type 0
Runs s = (s.raf ≡ may_run s) × IsShown s

resume-Runs : (s : Rain) → IsShown s → Runs (resume s)
resume-Runs s i = ((resume_runs s).0 ∙ sym (resume_runs s).1, resume-IsShown s i)

turn_off-Runs : (s : Rain) → s.settings.enabled ≡ false → IsReady s → Runs (turn_off s)
unfolding turn_off
turn_off-Runs s e r = ground arith

turn_on-Runs :
    (was changed : Bool) (fresh : List Stream) (s : Rain)
    → s.settings.enabled ≡ true
    → (s.ctx ≡ true → s.canvas ≡ true)
    → Runs (turn_on was changed fresh s)
unfolding turn_on
turn_on-Runs was changed fresh s e c =
    elim (Bool-cases (not was || changed || is_empty s.streams)) [
      | inl again ↦ rw again (resume-Runs _ (ground arith))
      | inr same ↦ rw same (resume-Runs _ (ground arith))
    ]

ensure_canvas_parts :
    (context : Bool) (s : Rain)
    → IsReady s
    → (((ensure_canvas context s).ctx ≡ true) → ((ensure_canvas context s).canvas ≡ true))
      × ((ensure_canvas context s).settings ≡ s.settings)
      × ((ensure_canvas context s).raf ≡ true → (ensure_canvas context s).ctx ≡ true)
unfolding ensure_canvas
ensure_canvas_parts context s r = ground arith

no_context-Runs :
    (s : Rain) → s.settings.enabled ≡ true → s.ctx ≡ false → (s.raf ≡ true → s.ctx ≡ true) → Runs s
no_context-Runs s e c r = ground arith

take_effect-Runs :
    (was changed context : Bool) (fresh : List Stream) (s : Rain)
    → IsReady s
    → Runs (take_effect was changed context fresh s)
unfolding take_effect
take_effect-Runs was changed context fresh s r =
    let (canvas, same, requested) = ensure_canvas_parts context s r in
    let e = ensure_canvas context s in
    if_either Runs (not s.settings.enabled)
      (λ off. turn_off-Runs s (not-eq_true s.settings.enabled off) r)
      (λ on.
        let still : e.settings.enabled ≡ true =
          ap (λ t. t.enabled) same ∙ not-eq_false s.settings.enabled on in
        if_either Runs (not e.ctx)
          (λ blank. no_context-Runs e still (not-eq_true e.ctx blank) requested)
          (λ drawn. turn_on-Runs was changed fresh e still canvas))

apply-Runs :
    (value : Input) (context : Bool) (fresh : List Stream) (s : Rain)
    → IsSound s
    → Runs (apply value context fresh s)
unfolding apply
apply-Runs value context fresh s i =
    take_effect-Runs s.settings.enabled _ context fresh (record s { settings = normalize value })
      (record { context = i.shown.context; requested = ground (arith, i.running) })

Runs-IsSound : (s : Rain) → Runs s → IsSound s
Runs-IsSound s (e, i) = record { running = λ h. sym e ∙ h; shown = i }

-- A frame that fires was requested; every listener but that of pagehide settles whether one is.
abbrev pub Settles : Event → Rain → Type 0
Settles pagehide s = ⊥
Settles frame s = s.raf ≡ true
Settles _ s = Unit

true_not_false : (b : Bool) → b ≡ true → b ≡ false → ⊥
true_not_false b h k = ground arith

animate-Runs : (s : Rain) → IsSound s → s.raf ≡ true → Runs (animate s)
unfolding animate
animate-Runs s i h = ground (arith, i.running h)

handle-Runs : (e : Event) (s : Rain) → IsSound s → Settles e s → Runs (handle e s)
unfolding handle
handle-Runs (applied value context fresh) s i h = apply-Runs value context fresh s i
handle-Runs (resized fresh) s i h =
    if_either Runs (s.settings.enabled && s.ctx)
      (λ on. resume-Runs (resize fresh s) (ground (arith, i.shown)))
      (λ off. (ground (arith, i.running), i.shown))
handle-Runs frame s i h =
    if_either Runs s.raf (λ on. animate-Runs s i h) (λ off. absurd (true_not_false s.raf h off))
handle-Runs (visibility hidden) s i h =
    resume-Runs (record s { document_hidden = hidden })
      (record { context = i.shown.context; off = i.shown.off; on = i.shown.on })
handle-Runs (motion reduced) s i h =
    resume-Runs (record s { reduced = reduced })
      (record { context = i.shown.context; off = i.shown.off; on = i.shown.on })
handle-Runs freeze s i h =
    (ground arith, record { context = i.shown.context; off = i.shown.off; on = i.shown.on })
handle-Runs unfreeze s i h =
    resume-Runs (record s { frozen = false })
      (record { context = i.shown.context; off = i.shown.off; on = i.shown.on })
handle-Runs pagehide s i h = absurd h
handle-Runs pageshow s i h = resume-Runs s i.shown

frame_without : (s : Rain) → s.raf ≡ false → handle frame s ≡ s
unfolding handle
frame_without s h = rw h refl

handle-IsSound : (e : Event) (s : Rain) → IsSound s → IsSound (handle e s)
handle-IsSound pagehide s i =
    unfold handle in
    record {
      running = λ h. cc;
      shown = record { context = i.shown.context; off = i.shown.off; on = i.shown.on };
    }
handle-IsSound frame s i = elim (Bool-cases s.raf) [
  | inl on ↦ Runs-IsSound (handle frame s) (handle-Runs frame s i on)
  | inr off ↦ rw (frame_without s off) i
]
handle-IsSound e s i = Runs-IsSound (handle e s) (handle-Runs e s i tt)

unfoldable pub run : List Event → Rain → Rain
run [] s = s
run (e ∷ es) s = run es (handle e s)

run-IsSound : (es : List Event) (s : Rain) → IsSound s → IsSound (run es s)
unfolding run
run-IsSound [] s i = i
run-IsSound (e ∷ es) s i = run-IsSound es (handle e s) (handle-IsSound e s i)

initial-IsSound : (hidden reduced : Bool) → IsSound (initial hidden reduced)
unfolding initial
initial-IsSound hidden reduced = record {
  running = λ h. cc;
  shown = record { context = λ h. cc; off = λ h. (refl, λ k. cc); on = λ h. cc };
}

-- After any events, a frame is requested only while the background is enabled, has a drawing context, is
-- visible, not frozen and motion is not reduced; the canvas is hidden and the mark removed whenever it is
-- off, and shown and marked whenever it is on and has a drawing context.
pub run-initial-IsSound :
    (es : List Event) (hidden reduced : Bool) → IsSound (run es (initial hidden reduced))
run-initial-IsSound es hidden reduced =
    run-IsSound es (initial hidden reduced) (initial-IsSound hidden reduced)

-- After every event but the hiding of the page, and a frame that fires without having been
-- requested, a frame is requested exactly if the animation may run.
pub handle-run_settled :
    (es : List Event) (hidden reduced : Bool) (e : Event)
    → Settles e (run es (initial hidden reduced))
    → (handle e (run es (initial hidden reduced))).raf
      ≡ may_run (handle e (run es (initial hidden reduced)))
handle-run_settled es hidden reduced e h =
    (handle-Runs e (run es (initial hidden reduced)) (run-initial-IsSound es hidden reduced) h).0
