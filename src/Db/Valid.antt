-- ===== src/Db/Valid.antt =====
-- What is always true of what the host stores: server/store.go.
use okrbest_plugin_todo.Common.{
  String, Bool, true, false, Option, none, some, List, [], ◌∷◌, ◌≡◌, refl, sym, ◌∙◌, ap, or_else,
  str_eq, eq_iff, arith, if◌then◌else◌,
}
use okrbest_plugin_todo.ListStore.{
  IssueRef, Result, error, panic, ok, add_ref, remove_ref, pop_ref, bump_ref,
}
use okrbest_plugin_todo.ListStore.Distinct.{
  IsDistinct, Leaves, add_ref-IsDistinct, remove_ref-IsDistinct, pop_ref-IsDistinct,
  bump_ref-IsDistinct,
}
use okrbest_plugin_todo.Db.{
  Issue, Db, refs, pure, bound, ◌>>=◌, faulty, kv_call, write_issue, read_issue, new_issue,
  save_issue, get_issue, remove_issue, read_list, write_list, get_list, change, add_reference,
  remove_reference, pop_reference, bump_reference, get_issue_reference,
}
use okrbest_plugin_todo.Db.Keeping.{Keeps, IsInvariant, then-Keeps, pure-Keeps}

-- No list has two references of the same issue, and an issue is under its own id.
abbrev pub IsValid : Db → Type 0
IsValid db =
    ((user list : String) → IsDistinct (refs db user list))
    × ((id : String) (issue : Issue) → db.issues id ≡ some issue → issue.id ≡ id)

faulty-IsValid : (fs : List Bool) (db : Db) → IsValid db → IsValid (faulty fs db).1
faulty-IsValid [] db v = v
faulty-IsValid (true ∷ fs) db v = v
faulty-IsValid (false ∷ fs) db v = v

kv_call-Keeps : Keeps IsValid kv_call
unfolding kv_call
kv_call-Keeps = record { after = λ db v. faulty-IsValid db.faults db v }

write_issue-Keeps :
    (id : String) (issue : Option Issue)
    → ((i : Issue) → issue ≡ some i → i.id ≡ id)
    → Keeps IsValid (write_issue id issue)
unfolding write_issue
write_issue-Keeps id issue own = record {
  after = λ db v. (v.0, λ j i. by db v j i (str_eq id j) refl);
}
  where
    by :
        (db : Db)
        → IsValid db
        → (j : String) (i : Issue) (b : Bool) → str_eq id j ≡ b
        → (if b then issue else db.issues j) ≡ some i
        → i.id ≡ j
    by db v j i true e h = own i h ∙ (eq_iff id j).0 e
    by db v j i false e h = v.1 j i h

read_issue-Keeps : (id : String) → Keeps IsValid (read_issue id)
unfolding read_issue
read_issue-Keeps id = record { after = λ db v. by db (db.issues id) v }
  where
    by :
        (db : Db) (o : Option Issue)
        → IsValid db
        → IsValid
            (elim o as (λ _. Result Issue × Db) [
              | none ↦ (error "cannot find issue", db)
              | some issue ↦ (ok issue, db)
            ]).1
    by db none v = v
    by db (some i) v = v

write_list-Keeps :
    (user list : String) (rs : List IssueRef)
    → IsDistinct rs
    → Keeps IsValid (write_list user list rs)
unfolding write_list
write_list-Keeps user list rs d = record {
  after = λ db v. ((λ u l. by db v u l (str_eq list l) (str_eq user u)), v.1);
}
  where
    by :
        (db : Db)
        → IsValid db
        → (u l : String) (b c : Bool)
        → IsDistinct
            (or_else (if b then (if c then some rs else db.lists u l) else db.lists u l) [])
    by db v u l true true = d
    by db v u l true false = v.0 u l
    by db v u l false c = v.0 u l

-- A change of a list that keeps it distinct.
change-Keeps :
    {A : Type 0} (user list : String) (f : List IssueRef → Result (A × List IssueRef))
    → ((l : List IssueRef) → IsDistinct l → Leaves IsDistinct (f l))
    → Keeps IsValid (change user list f)
unfolding change get_list read_list kv_call
change-Keeps {A} user list f h = record { after = λ db v. read db.faults db v }
  where
    write :
        (r : Result (A × List IssueRef))
        → Leaves IsDistinct r
        → (db : Db) → IsValid db
        → IsValid
            (bound
              (λ (changed : A × List IssueRef).
                kv_call >>= λ _. write_list user list changed.1 >>= λ _. pure changed.0)
              (r, db)).1
    write (error e) d db v = v
    write panic d db v = v
    write (ok (a, rs)) d db v =
        (then-Keeps IsValid kv_call-Keeps (
            then-Keeps IsValid (write_list-Keeps user list rs d) (pure-Keeps IsValid (ok a)))).after
          db v

    read :
        (fs : List Bool) (db : Db)
        → IsValid db
        → IsValid
            (bound
              (λ (rs : List IssueRef) db'.
                bound
                  (λ (changed : A × List IssueRef).
                    kv_call >>= λ _. write_list user list changed.1 >>= λ _. pure changed.0)
                  (f rs, db'))
              (bound (λ _ db'. (ok (refs db' user list), db')) (faulty fs db))).1
    read [] db v = write (f (refs db user list)) (h (refs db user list) (v.0 user list)) db v
    read (true ∷ fs) db v = v
    read (false ∷ fs) db v =
        write (f (refs db user list)) (h (refs db user list) (v.0 user list))
          (record db { faults = fs }) v

pub IsValid-IsInvariant : IsInvariant IsValid
unfolding new_issue save_issue get_issue remove_issue get_list read_list add_reference
    remove_reference pop_reference bump_reference get_issue_reference
IsValid-IsInvariant = record {
  new = λ message permalink description post. record { after = λ db v. v };
  save = λ issue. then-Keeps IsValid kv_call-Keeps (
      write_issue-Keeps issue.id (some issue)
        (λ i e. ap (λ (o : Option Issue). (or_else o issue).id) (sym e)));
  get = λ id. then-Keeps IsValid kv_call-Keeps (read_issue-Keeps id);
  remove =
      λ id. then-Keeps IsValid kv_call-Keeps (write_issue-Keeps id none (λ i e. ground (arith, e)));
  list = λ user list. then-Keeps IsValid kv_call-Keeps (record { after = λ db v. v });
  add = λ user issue list foreign_user foreign_issue.
      change-Keeps user list (add_ref issue foreign_user foreign_issue)
        (add_ref-IsDistinct issue foreign_user foreign_issue);
  take_out =
      λ user issue list. change-Keeps user list (remove_ref issue) (remove_ref-IsDistinct issue);
  pop = λ user list. change-Keeps user list pop_ref pop_ref-IsDistinct;
  bump = λ user issue list. change-Keeps user list (bump_ref issue) (bump_ref-IsDistinct issue);
  find = λ user issue list. then-Keeps IsValid kv_call-Keeps (record { after = λ db v. v });
}
