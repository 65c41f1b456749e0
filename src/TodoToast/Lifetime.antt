-- ===== src/TodoToast/Lifetime.antt =====
-- How long a toast can be undone: webapp/src/widget/todo_toast/todo_toast.tsx.
use okrbest_plugin_todo.Common.{
  ℕ, ◌+◌, ◌≤◌, ◌<◌, none, some, is_some, or_else, List, [], ◌∷◌, ◌++◌, ◌≡◌, arith, refl, true, ◌&&◌,
}
use okrbest_plugin_todo.Model.{Toast}
use okrbest_plugin_todo.TodoToast.{
  Host, Event, open_rhs, close_rhs, open_toast, click_undo, wait, timer, step, run,
}

-- There is a timer exactly while there is a toast and the right-hand side is shown, and it is at
-- most 5 seconds away.
pub record IsMounted (h : Host) : Type 0 where
  pub timed : is_some h.closes_at ≡ (h.rhs_shown && is_some h.content)
  pub soon : (t : ℕ) → h.closes_at ≡ some t → t ≤ h.now + 5000

step-IsMounted : (h : Host) (e : Event) → IsMounted h → IsMounted (step h e)
unfolding step
step-IsMounted h (open_toast toast) m = record {
  timed = ground (arith, m.timed);
  soon = λ t e. ground (arith, m.soon t);
}
step-IsMounted h open_rhs m = record {
  timed = ground (arith, m.timed);
  soon = λ t e. ground (arith, m.soon t);
}
step-IsMounted h _ m = record {
  timed = ground (arith, m.timed);
  soon = λ t e. ground (arith, m.soon t);
}

run-IsMounted : (h : Host) (es : List Event) → IsMounted h → IsMounted (run h es)
run-IsMounted h [] m = m
run-IsMounted h (e ∷ es) m = run-IsMounted (step h e) es (step-IsMounted h e m)

closes :
    (h : Host) → IsMounted h → h.rhs_shown ≡ true → (run h (wait 5000 ∷ timer ∷ [])).content ≡ none
unfolding step
closes h m r = ground (arith, m.timed, m.soon (or_else h.closes_at 0))

stays : (h : Host) (n : ℕ) → (run h (close_rhs ∷ wait n ∷ timer ∷ [])).content ≡ h.content
unfolding step
stays h n = refl

shown_after : (h : Host) → (step h open_rhs).rhs_shown ≡ true
unfolding step
shown_after h = ground arith

-- Whatever has happened to a host that showed no toast at first: if the right-hand side is shown
-- then, and nothing is clicked for 5 seconds and the timer is run, there is no toast left. If it is
-- closed then, the toast stays, however long that is, and though a timer is run.
pub run-closes :
    (h : Host) (es : List Event) (n : ℕ)
    → h.content ≡ none
    → h.closes_at ≡ none
    → ((run (run h es) (open_rhs ∷ wait 5000 ∷ timer ∷ [])).content ≡ none)
      × ((run (run h es) (close_rhs ∷ wait n ∷ timer ∷ [])).content ≡ (run h es).content)
run-closes h es n c t =
    let m : IsMounted (run h es) =
      run-IsMounted h es (record { timed = ground arith; soon = λ u e. ground arith }) in
    (
      closes (step (run h es) open_rhs) (step-IsMounted (run h es) open_rhs m)
          (shown_after (run h es)),
      stays (run h es) n,
    )

-- While the right-hand side is shown, a toast that is opened while there is none can be undone for
-- 5 seconds: until then the timer does nothing, and undoing calls the toast's callback and closes
-- it. After 5 seconds the timer closes it.
pub first_toast :
    (h : Host) (toast : Toast) (b : ℕ)
    → h.rhs_shown ≡ true
    → h.content ≡ none
    → h.closes_at ≡ none
    → let shown = run h (open_toast toast ∷ wait b ∷ timer ∷ []) in
      (b < 5000
        → (shown.content ≡ some toast)
          × ((step shown click_undo).undone ≡ h.undone ++ toast.undo ∷ [])
          × ((step shown click_undo).content ≡ none))
      × (5000 ≤ b → (shown.content ≡ none) × (shown.undone ≡ h.undone))
unfolding step
first_toast h toast b r c t = ground arith

-- While the right-hand side is shown, a second toast that replaces the first one after `a`
-- milliseconds is closed by the first one's timer, 5 seconds after the first was opened: it can be
-- undone for less time than the first, and the first can no longer be undone.
pub second_toast :
    (h : Host) (first second : Toast) (a b : ℕ)
    → h.content ≡ none
    → h.closes_at ≡ none
    → h.rhs_shown ≡ true
    → a < 5000
    → let shown = run h (open_toast first ∷ wait a ∷ open_toast second ∷ wait b ∷ timer ∷ []) in
      (a + b < 5000
        → (shown.content ≡ some second)
          × ((step shown click_undo).undone ≡ h.undone ++ second.undo ∷ []))
      × (5000 ≤ a + b → (shown.content ≡ none) × (shown.undone ≡ h.undone))
unfolding step
second_toast h first second a b c t r l = ground arith
