-- ===== src/Menus/Page.antt =====
-- At most one menu of a page is open: the listeners of webapp/src/widget/menuWrapper.tsx.
use okrbest_plugin_todo.Common.{
  String, ℕ, suc, ◌+◌, ◌≤◌, ◌<◌, Bool, false, none, some, List, [], ◌∷◌, ◌++◌, ◌≡◌, refl, arith,
  nat_eq, if◌then◌else◌,
}
use okrbest_plugin_todo.Menus.{
  Wrapper, new, close, keyboard_close, click, Event, clicked, key_up, menu_item_clicked, mounts,
  is_target, each, step, run,
}

-- How many menus are open.
abbrev pub open_count : List Wrapper → ℕ
open_count [] = 0
open_count (w ∷ ws) = (if w.is_open then 1 else 0) + open_count ws

open_count-append : (ws us : List Wrapper) → open_count (ws ++ us) ≡ open_count ws + open_count us
open_count-append [] us = omega arith
open_count-append (w ∷ ws) us = omega (arith, open_count-append ws us)

-- What closes or leaves every menu opens none.
each-closes :
    (f : ℕ → Wrapper → Wrapper) (i : ℕ) (ws : List Wrapper)
    → ((i : ℕ) (w : Wrapper) → w.is_open ≡ false → (f i w).is_open ≡ false)
    → open_count (each f i ws) ≤ open_count ws
unfolding each
each-closes f i [] h = omega arith
each-closes f i (w ∷ ws) h = ground (arith, h i w, each-closes f (suc i) ws h)

-- A click in a wrapper closes those before and after it.
click_behind :
    (j i : ℕ) (ws : List Wrapper) → j < i → open_count (each (λ k. click (nat_eq j k)) i ws) ≡ 0
unfolding each click
click_behind j i [] h = refl
click_behind j i (w ∷ ws) h = ground (arith, click_behind j (suc i) ws)

click_count : (j i : ℕ) (ws : List Wrapper) → open_count (each (λ k. click (nat_eq j k)) i ws) ≤ 1
unfolding each click
click_count j i [] = omega arith
click_count j i (w ∷ ws) = ground (arith, click_count j (suc i) ws, click_behind j (suc i) ws)

keyboard_close-is_open :
    (key : String) (inside : Bool) (w : Wrapper)
    → w.is_open ≡ false
    → (keyboard_close key inside w).is_open ≡ false
unfolding keyboard_close
keyboard_close-is_open key inside w h = ground arith

step_count : (ws : List Wrapper) (e : Event) → open_count ws ≤ 1 → open_count (step ws e) ≤ 1
unfolding step
step_count ws (clicked none) h =
    omega (arith, each-closes (λ i. click false) 0 ws (λ i w k. refl), h)
step_count ws (clicked (some j)) h = click_count j 0 ws
step_count ws (key_up key target) h = omega (
  arith,
  each-closes (λ i. keyboard_close key (is_target target i)) 0 ws
      (λ i w k. keyboard_close-is_open key (is_target target i) w k),
  h,
)
step_count ws menu_item_clicked h = omega (arith, each-closes (λ i. close) 0 ws (λ i w k. refl), h)
step_count ws (mounts disabled) h = omega (arith, open_count-append ws (new false disabled ∷ []))

run_count : (ws : List Wrapper) (es : List Event) → open_count ws ≤ 1 → open_count (run ws es) ≤ 1
run_count ws [] h = h
run_count ws (e ∷ es) h = run_count (step ws e) es (step_count ws e h)

-- On a page that starts with no menus, whatever is clicked, typed or mounted: at most one menu is
-- open.
pub run-one_open : (es : List Event) → open_count (run [] es) ≤ 1
run-one_open es = run_count [] es (omega arith)
