-- ===== src/TodoItem/Timers.antt =====
-- The events of an item keep every invariant that satisfies the rules: the handlers and timers of
-- webapp/src/components/todo_item/todo_item.jsx and webapp/src/components/buttons/complete.jsx.
use okrbest_plugin_todo.Common.{
  String, ℕ, ◌+◌, ◌≤◌, Bool, true, false, not, ◌&&◌, Option, none, some, List, [], ◌∷◌, ◌++◌, ◌≡◌,
  refl, All, str_eq, if◌then◌else◌, Option-cases, Bool-cases, inl, inr,
}
use okrbest_plugin_todo.Model.{Undo, undo_complete_todo, undo_remove_todo}
use okrbest_plugin_todo.Actions.{
  Effect, call, accept, bump, edit_issue, open_assignee_modal, set_editing_todo, open_todo_toast,
}
use okrbest_plugin_todo.Assignee.{edit_assignee}
use okrbest_plugin_todo.TodoItem.{
  Job, complete_toast, complete_issue, remove_issue, Timer, Item, Event, click_complete,
  click_remove, click_save, click_undo, click_assign, click_accept, click_bump, wait, fire_timer,
  key_down, without, due_job, run_job, fire, undo, emit, set_timeout, clear_timeout,
  description_value, remove_todo, save_edited_todo, on_key_down, step, run,
}
use okrbest_plugin_todo.TodoItem.Rules.{
  is_complete, is_remove, count_of, timer, Rules, Inv, All-without, All-snoc, due_timer,
}

key_down_cases :
    (Q : Item → Type 0) (key : String) (shift_key : Bool) (item : Item)
    → Q item
    → Q (save_edited_todo item)
    → ((i : Item) → Q i → Q (record i { edit_todo = false }))
    → Q (on_key_down key shift_key item)
unfolding on_key_down
key_down_cases Q key shift_key item h k f =
    elim (Bool-cases (str_eq key "Enter" && not shift_key)) [
      | inl p ↦ rw p (closed (save_edited_todo item) k)
      | inr p ↦ rw p (closed item h)
    ]
  where
    closed :
        (i : Item) → Q i → Q (if str_eq key "Escape" then record i { edit_todo = false } else i)
    closed i k = elim (Bool-cases (str_eq key "Escape")) [ inl e ↦ rw e (f i k) | inr e ↦ rw e k ]

module _ {P : Timer → Type 0} {L : ℕ → List Effect → Type 0} {E : Event → Type 0}
    (rules : Rules P L E) where
  -- only the timers, the clock and the effects matter
  same-Inv :
      (item item' : Item)
      → item'.pending ≡ item.pending
      → item'.now ≡ item.now
      → item'.log ≡ item.log
      → Inv P L item
      → Inv P L item'
  same-Inv item item' p n l h = record { timers = rw p h.timers; effects = rw (n, l) h.effects }

  emit-Inv :
      (item : Item) (es : List Effect)
      → count_of is_complete es ≡ 0
      → count_of is_remove es ≡ 0
      → Inv P L item
      → Inv P L (record item { log = item.log ++ es })
  emit-Inv item es c r h = record {
    timers = h.timers;
    effects = rules.other_effects item.now item.log es c r h.effects;
  }

  set_timeout-Inv :
      (job : Job) (d : ℕ) (item : Item)
      → P (timer item.next_id (item.now + d) job)
      → Inv P L item
      → Inv P L (set_timeout job d item)
  unfolding set_timeout
  set_timeout-Inv job d item p h = record {
    timers = All-snoc P item.pending h.timers p;
    effects = h.effects;
  }

  clear_timeout-Inv : (o : Option ℕ) (item : Item) → Inv P L item → Inv P L (clear_timeout o item)
  unfolding clear_timeout
  clear_timeout-Inv none item h = h
  clear_timeout-Inv (some id) item h = record {
    timers = All-without P id item.pending h.timers;
    effects = h.effects;
  }

  undo-Inv : (u : Undo) (item : Item) → Inv P L item → Inv P L (undo u item)
  unfolding undo
  undo-Inv (undo_complete_todo i) item h =
      same-Inv (clear_timeout item.complete_timeout item) _ refl refl refl
        (clear_timeout-Inv item.complete_timeout item h)
  undo-Inv (undo_remove_todo i) item h =
      same-Inv (clear_timeout item.remove_timeout item) _ refl refl refl
        (clear_timeout-Inv item.remove_timeout item h)

  save-Inv : (item : Item) → Inv P L item → Inv P L (save_edited_todo item)
  unfolding save_edited_todo
  save-Inv item h = same-Inv _ _ refl refl refl (
      emit-Inv item
        (call (edit_issue item.issue_id item.message (description_value item.description)) ∷ [])
        refl refl h)

  -- the toast, the hidden item and the timer of 5 seconds that completing and removing share
  abbrev hiding : Effect → Job → Item → Item
  hiding e job item = set_timeout job 5000 (record (emit e item) { hidden = true })

  hiding-Inv :
      (e : Effect) (job : Job) (item : Item)
      → count_of is_complete (e ∷ []) ≡ 0
      → count_of is_remove (e ∷ []) ≡ 0
      → P (timer item.next_id (item.now + 5000) job)
      → Inv P L item
      → Inv P L (hiding e job item)
  unfolding emit
  hiding-Inv e job item c r p h =
      set_timeout-Inv job 5000 (record (emit e item) { hidden = true }) p
        (same-Inv (emit e item) _ refl refl refl (emit-Inv item (e ∷ []) c r h))

  remove_todo-Inv : (item : Item) → E click_remove → Inv P L item → Inv P L (remove_todo item)
  unfolding remove_todo open_todo_toast
  remove_todo-Inv item ok h = same-Inv _ _ refl refl refl (
      hiding-Inv _ remove_issue item refl refl
        (rules.removal item.next_id item.now item.log ok h.effects) h)

  run_job-Inv :
      (t : Timer) (job : Job) (item : Item)
      → P t
      → t.job ≡ job
      → t.due ≤ item.now
      → Inv P L item
      → Inv P L (run_job job item)
  unfolding run_job open_todo_toast
  run_job-Inv t complete_toast item p j d h =
      same-Inv _ _ refl refl refl
        (hiding-Inv _ complete_issue item refl refl (rules.toast t item.next_id item.now p j d) h)
  run_job-Inv t complete_issue item p j d h = record {
    timers = h.timers;
    effects = rules.completes t item.now item.log item.issue_id p j d h.effects;
  }
  run_job-Inv t remove_issue item p j d h = record {
    timers = h.timers;
    effects = rules.removes t item.now item.log item.issue_id p j d h.effects;
  }

  fire-Inv : (id : ℕ) (item : Item) → Inv P L item → Inv P L (fire id item)
  unfolding fire
  fire-Inv id item h = elim (Option-cases (due_job id item.now item.pending)) [
    | inl e ↦ rw (e, fire) h
    | inr (job, e) ↦
        let (t, p, j, d) = due_timer P id item.now item.pending job h.timers e in
        rw (e, fire)
          (run_job-Inv t job (record item { pending = without id item.pending }) p j d
            (record { timers = All-without P id item.pending h.timers; effects = h.effects }))
  ]

  step-Inv : (item : Item) (e : Event) → E e → Inv P L item → Inv P L (step item e)
  unfolding step open_assignee_modal set_editing_todo
  step-Inv item click_complete ok h =
      set_timeout-Inv complete_toast 1000 (record item { done = true })
        (rules.click item.next_id item.now item.log ok h.effects) (same-Inv item _ refl refl refl h)
  step-Inv item click_remove ok h = remove_todo-Inv item ok h
  step-Inv item click_save ok h = save-Inv item h
  step-Inv item click_assign ok h = emit-Inv item (edit_assignee item.issue_id) refl refl h
  step-Inv item (key_down key shift_key) ok h =
      key_down_cases (Inv P L) key shift_key item h (save-Inv item h)
        (λ i k. same-Inv i _ refl refl refl k)
  step-Inv item (click_undo u) ok h = undo-Inv u item h
  step-Inv item (wait n) ok h = record {
    timers = h.timers;
    effects = rules.time_passes item.now n item.log h.effects;
  }
  step-Inv item (fire_timer id) ok h = fire-Inv id item h
  step-Inv item click_accept ok h = emit-Inv item (call (accept item.issue_id) ∷ []) refl refl h
  step-Inv item click_bump ok h = emit-Inv item (call (bump item.issue_id) ∷ []) refl refl h
  step-Inv item _ ok h = same-Inv item _ refl refl refl h

  -- Events that satisfy `E` keep the invariant.
  pub run-Inv : (item : Item) (es : List Event) → All E es → Inv P L item → Inv P L (run item es)
  run-Inv item [] ok h = h
  run-Inv item (e ∷ es) ok h = run-Inv (step item e) es ok.1 (step-Inv item e ok.0 h)
