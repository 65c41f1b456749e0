-- ===== src/Db/Calm.antt =====
-- A host that does not fail goes on not failing: server/store.go.
use okrbest_plugin_todo.Common.{String, Bool, List, [], ◌∷◌, Option, none, some, ◌≡◌, arith}
use okrbest_plugin_todo.ListStore.{
  IssueRef, Result, error, ok, add_ref, remove_ref, pop_ref, bump_ref,
}
use okrbest_plugin_todo.Db.{
  Issue, Db, faulty, kv_call, write_issue, read_issue, new_issue, save_issue, get_issue,
  remove_issue, read_list, write_list, get_list, change, add_reference, remove_reference,
  pop_reference, bump_reference, get_issue_reference,
}
use okrbest_plugin_todo.Db.Keeping.{Keeps, IsInvariant, bind-Keeps, then-Keeps, pure-Keeps}

-- No call of the host fails from now on.
abbrev pub IsCalm : Db → Type 0
IsCalm db = db.faults ≡ []

faulty-IsCalm : (fs : List Bool) (db : Db) → fs ≡ [] → IsCalm db → IsCalm (faulty fs db).1
faulty-IsCalm [] db e h = h
faulty-IsCalm (f ∷ fs) db e h = ground (arith, e)

kv_call-Keeps : Keeps IsCalm kv_call
unfolding kv_call
kv_call-Keeps = record { after = λ db h. faulty-IsCalm db.faults db h h }

write_issue-Keeps : (id : String) (issue : Option Issue) → Keeps IsCalm (write_issue id issue)
unfolding write_issue
write_issue-Keeps id issue = record { after = λ db h. h }

read_issue-Keeps : (id : String) → Keeps IsCalm (read_issue id)
unfolding read_issue
read_issue-Keeps id = record { after = λ db h. by db (db.issues id) h }
  where
    by :
        (db : Db) (o : Option Issue)
        → IsCalm db
        → IsCalm
            (elim o as (λ _. Result Issue × Db) [
              | none ↦ (error "cannot find issue", db)
              | some issue ↦ (ok issue, db)
            ]).1
    by db none h = h
    by db (some i) h = h

get_list-Keeps : (user list : String) → Keeps IsCalm (get_list user list)
unfolding get_list read_list
get_list-Keeps user list = then-Keeps IsCalm kv_call-Keeps (record { after = λ db h. h })

write_list-Keeps :
    (user list : String) (rs : List IssueRef) → Keeps IsCalm (write_list user list rs)
unfolding write_list
write_list-Keeps user list rs = record { after = λ db h. h }

change-Keeps :
    {A : Type 0} (user list : String) (f : List IssueRef → Result (A × List IssueRef))
    → Keeps IsCalm (change user list f)
unfolding change
change-Keeps user list f = bind-Keeps IsCalm (get_list-Keeps user list) (λ refs.
    bind-Keeps IsCalm (pure-Keeps IsCalm (f refs)) (λ changed. then-Keeps IsCalm kv_call-Keeps (
      then-Keeps IsCalm (write_list-Keeps user list changed.1) (pure-Keeps IsCalm (ok changed.0)))))

pub IsCalm-IsInvariant : IsInvariant IsCalm
unfolding new_issue save_issue get_issue remove_issue add_reference remove_reference pop_reference
    bump_reference get_issue_reference read_list
IsCalm-IsInvariant = record {
  new = λ message permalink description post. record { after = λ db h. h };
  save = λ issue. then-Keeps IsCalm kv_call-Keeps (write_issue-Keeps issue.id (some issue));
  get = λ id. then-Keeps IsCalm kv_call-Keeps (read_issue-Keeps id);
  remove = λ id. then-Keeps IsCalm kv_call-Keeps (write_issue-Keeps id none);
  list = get_list-Keeps;
  add = λ user issue list foreign_user foreign_issue.
      change-Keeps user list (add_ref issue foreign_user foreign_issue);
  take_out = λ user issue list. change-Keeps user list (remove_ref issue);
  pop = λ user list. change-Keeps user list pop_ref;
  bump = λ user issue list. change-Keeps user list (bump_ref issue);
  find = λ user issue list. then-Keeps IsCalm kv_call-Keeps (record { after = λ db h. h });
}
