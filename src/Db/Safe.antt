-- ===== src/Db/Safe.antt =====
-- The handlers do not panic on what is always true of what the host stores: server/store.go. Only
-- the loop of `RemoveReference` can, on a list that has an issue twice.
use okrbest_plugin_todo.Common.{
  String, Bool, true, false, Option, none, some, List, [], ◌∷◌, ◌≡◌, refl, or_else, is_some,
  if◌then◌else◌, Option-cases, inl, inr,
}
use okrbest_plugin_todo.ListStore.{
  IssueRef, Result, error, panic, is_panic, ok, add_ref, remove_ref, pop_ref,
}
use okrbest_plugin_todo.ListStore.Distinct.{
  IsDistinct, Leaves, add_ref-IsDistinct, remove_ref-IsDistinct, pop_ref-IsDistinct,
}
use okrbest_plugin_todo.Db.{
  Issue, Db, M, refs, pure, bound, ◌>>=◌, ◌>>◌, tried, attempt, recovered, rolled_back,
  or_roll_back, log_error, faulty, kv_call, write_issue, read_issue, new_issue, save_issue,
  get_issue, remove_issue, get_and_remove_issue, read_list, write_list, get_list, change,
  add_reference, remove_reference, pop_reference, found_ref, get_issue_reference,
  get_issue_list_and_reference, my_list_key, in_list_key, out_list_key,
}
use okrbest_plugin_todo.Db.Keeping.{
  Keeps, bind-Keeps, pure-Keeps, attempt-Keeps, or_roll_back-Keeps,
}
use okrbest_plugin_todo.Db.Reads.{found_ref-calm}
use okrbest_plugin_todo.Db.Valid.{IsValid, IsValid-IsInvariant}

-- The operation keeps the store valid, and does not panic on one that is.
pub record IsSafe {A : Type 0} (m : M A) : Type 0 where
  pub keeps : Keeps IsValid m
  pub finishes : (db : Db) → IsValid db → is_panic (m db).0 ≡ false

bound-finishes :
    {A B : Type 0} (f : A → M B)
    → ((a : A) → IsSafe (f a))
    → (r : Result A × Db) → IsValid r.1
    → is_panic r.0 ≡ false
    → is_panic (bound f r).0 ≡ false
bound-finishes f h (ok a, db) v c = (h a).finishes db v
bound-finishes f h (error e, db) v c = refl
bound-finishes f h (panic, db) v c = c

pub bind-IsSafe :
    {A B : Type 0} {m : M A} {f : A → M B} → IsSafe m → ((a : A) → IsSafe (f a)) → IsSafe (m >>= f)
bind-IsSafe {m} {f} hm hf = record {
  keeps = bind-Keeps IsValid hm.keeps (λ a. (hf a).keeps);
  finishes = λ db v. bound-finishes f hf (m db) (hm.keeps.after db v) (hm.finishes db v);
}

pub then-IsSafe : {B : Type 0} {m : M (Unit {0})} {k : M B} → IsSafe m → IsSafe k → IsSafe (m >> k)
then-IsSafe hm hk = bind-IsSafe hm (λ _. hk)

pub pure-IsSafe : {A : Type 0} (a : A) → IsSafe (pure a)
pure-IsSafe a = record { keeps = pure-Keeps IsValid (ok a); finishes = λ db v. refl }

tried-finishes :
    {A : Type 0} (r : Result A × Db) → is_panic r.0 ≡ false → is_panic (tried r).0 ≡ false
tried-finishes (ok a, db) c = refl
tried-finishes (error e, db) c = refl
tried-finishes (panic, db) c = c

pub attempt-IsSafe : {A : Type 0} {m : M A} → IsSafe m → IsSafe (attempt m)
attempt-IsSafe {m} h = record {
  keeps = attempt-Keeps IsValid h.keeps;
  finishes = λ db v. tried-finishes (m db) (h.finishes db v);
}

pub log_error-IsSafe : {A : Type 0} {m : M A} → IsSafe m → IsSafe (log_error m)
log_error-IsSafe h = bind-IsSafe (attempt-IsSafe h) (λ _. pure-IsSafe tt)

rolled_back-finishes :
    (A : Type 0) (e : String) (r : Result (Unit {0}) × Db)
    → is_panic r.0 ≡ false
    → is_panic (rolled_back {A = A} e r).0 ≡ false
rolled_back-finishes A e (ok _, db) c = refl
rolled_back-finishes A e (error _, db) c = refl
rolled_back-finishes A e (panic, db) c = c

recovered-finishes :
    {A : Type 0} (rollback : M (Unit {0}))
    → IsSafe rollback
    → (r : Result A × Db) → IsValid r.1
    → is_panic r.0 ≡ false
    → is_panic (recovered rollback r).0 ≡ false
recovered-finishes rollback h (ok a, db) v c = refl
recovered-finishes rollback h (error e, db) v c =
    rolled_back-finishes _ e (rollback db) (h.finishes db v)
recovered-finishes rollback h (panic, db) v c = c

pub or_roll_back-IsSafe :
    {A : Type 0} {m : M A} {rollback : M (Unit {0})}
    → IsSafe m
    → IsSafe rollback
    → IsSafe (or_roll_back m rollback)
or_roll_back-IsSafe {m} {rollback} h hr = record {
  keeps = or_roll_back-Keeps IsValid h.keeps hr.keeps;
  finishes = λ db v. recovered-finishes rollback hr (m db) (h.keeps.after db v) (h.finishes db v);
}

pub if-IsSafe :
    {A : Type 0} (b : Bool) {m k : M A} → IsSafe m → IsSafe k → IsSafe (if b then m else k)
if-IsSafe true hm hk = hm
if-IsSafe false hm hk = hk

pub option-IsSafe :
    {A B : Type 0} (r : Option A) {m : M B} {f : A → M B}
    → IsSafe m
    → ((a : A) → IsSafe (f a))
    → IsSafe (elim r [ none ↦ m | some a ↦ f a ])
option-IsSafe none hm hf = hm
option-IsSafe (some a) hm hf = hf a

faulty-finishes : (fs : List Bool) (db : Db) → is_panic (faulty fs db).0 ≡ false
faulty-finishes [] db = refl
faulty-finishes (true ∷ fs) db = refl
faulty-finishes (false ∷ fs) db = refl

-- What follows a call of the host panics only by itself.
call-finishes :
    {B : Type 0} (k : M B)
    → (db : Db) → ((db' : Db) → db'.lists ≡ db.lists → is_panic (k db').0 ≡ false)
    → is_panic ((kv_call >> k) db).0 ≡ false
unfolding kv_call
call-finishes {B} k db h = by db.faults
  where
    by : (fs : List Bool) → is_panic (bound (λ _. k) (faulty fs db)).0 ≡ false
    by [] = h db refl
    by (true ∷ fs) = refl
    by (false ∷ fs) = h (record db { faults = fs }) refl

Leaves-calm :
    {A : Type 0} (r : Result (A × List IssueRef)) → Leaves IsDistinct r → is_panic r ≡ false
Leaves-calm (error e) d = refl
Leaves-calm panic d = elim d [ ]
Leaves-calm (ok a) d = refl

-- A change of a list panics only if it does so on the list that is read.
change-finishes :
    {A : Type 0} (user list : String) (f : List IssueRef → Result (A × List IssueRef)) (db : Db)
    → is_panic (f (refs db user list)) ≡ false
    → is_panic (change user list f db).0 ≡ false
unfolding change get_list read_list kv_call write_list
change-finishes {A} user list f db h = read db.faults
  where
    write :
        (r : Result (A × List IssueRef))
        → is_panic r ≡ false
        → (db' : Db)
        → is_panic
            (bound
              (λ (changed : A × List IssueRef).
                kv_call >>= λ _. write_list user list changed.1 >>= λ _. pure changed.0)
              (r, db')).0
          ≡ false
    write (error e) c db' = refl
    write panic c db' = c
    write (ok (a, rs)) c db' =
        call-finishes (write_list user list rs >>= λ _. pure a) db' (λ d e. refl)

    read :
        (fs : List Bool)
        → is_panic
            (bound
              (λ (rs : List IssueRef) db'.
                bound
                  (λ (changed : A × List IssueRef).
                    kv_call >>= λ _. write_list user list changed.1 >>= λ _. pure changed.0)
                  (f rs, db'))
              (bound (λ _ db'. (ok (refs db' user list), db')) (faulty fs db))).0
          ≡ false
    read [] = write (f (refs db user list)) h db
    read (true ∷ fs) = refl
    read (false ∷ fs) = write (f (refs db user list)) h (record db { faults = fs })

pub take_out-IsSafe : (user issue list : String) → IsSafe (remove_reference user issue list)
unfolding remove_reference
take_out-IsSafe user issue list = record {
  keeps = IsValid-IsInvariant.take_out user issue list;
  finishes = λ db v.
      change-finishes user list (remove_ref issue) db
        (Leaves-calm _ (remove_ref-IsDistinct issue (refs db user list) (v.0 user list)));
}

pub add-IsSafe :
    (user issue list other foreign : String) → IsSafe (add_reference user issue list other foreign)
unfolding add_reference
add-IsSafe user issue list other foreign = record {
  keeps = IsValid-IsInvariant.add user issue list other foreign;
  finishes = λ db v.
      change-finishes user list (add_ref issue other foreign) db (
        Leaves-calm _ (add_ref-IsDistinct issue other foreign (refs db user list) (v.0 user list)));
}

pub pop-IsSafe : (user list : String) → IsSafe (pop_reference user list)
unfolding pop_reference
pop-IsSafe user list = record {
  keeps = IsValid-IsInvariant.pop user list;
  finishes = λ db v.
      change-finishes user list pop_ref db
        (Leaves-calm _ (pop_ref-IsDistinct (refs db user list) (v.0 user list)));
}

pub new-IsSafe : (m l d p : String) → IsSafe (new_issue m l d p)
unfolding new_issue
new-IsSafe m l d p = record { keeps = IsValid-IsInvariant.new m l d p; finishes = λ db v. refl }

pub save-IsSafe : (issue : Issue) → IsSafe (save_issue issue)
unfolding save_issue write_issue
save-IsSafe issue = record {
  keeps = IsValid-IsInvariant.save issue;
  finishes = λ db v. call-finishes (write_issue issue.id (some issue)) db (λ d e. refl);
}

pub remove-IsSafe : (id : String) → IsSafe (remove_issue id)
unfolding remove_issue write_issue
remove-IsSafe id = record {
  keeps = IsValid-IsInvariant.remove id;
  finishes = λ db v. call-finishes (write_issue id none) db (λ d e. refl);
}

read_issue-finishes : (id : String) (db : Db) → is_panic (read_issue id db).0 ≡ false
unfolding read_issue
read_issue-finishes id db = elim (Option-cases (db.issues id)) [
  | inl e ↦ rw (is_panic, e) refl
  | inr (i, e) ↦ rw (is_panic, e) refl
]

pub get-IsSafe : (id : String) → IsSafe (get_issue id)
unfolding get_issue
get-IsSafe id = record {
  keeps = IsValid-IsInvariant.get id;
  finishes = λ db v. call-finishes (read_issue id) db (λ d e. read_issue-finishes id d);
}

pub list-IsSafe : (user list : String) → IsSafe (get_list user list)
unfolding get_list read_list
list-IsSafe user list = record {
  keeps = IsValid-IsInvariant.list user list;
  finishes = λ db v.
      call-finishes (read_list user list >>= λ found. pure (or_else found [])) db (λ d e. refl);
}

find-IsSafe : (user issue list : String) → IsSafe (get_issue_reference user issue list)
unfolding get_issue_reference read_list
find-IsSafe user issue list = record {
  keeps = IsValid-IsInvariant.find user issue list;
  finishes = λ db v.
      call-finishes (read_list user list >>= λ found d. (found_ref issue found, d)) db
        (λ d e. found_ref-calm issue (d.lists user list));
}

pub get_and_remove-IsSafe : (id : String) → IsSafe (get_and_remove_issue id)
unfolding get_and_remove_issue
get_and_remove-IsSafe id =
    bind-IsSafe (get-IsSafe id) (λ issue. then-IsSafe (remove-IsSafe id) (pure-IsSafe issue))

pub places-IsSafe : (user issue : String) → IsSafe (get_issue_list_and_reference user issue)
unfolding get_issue_list_and_reference
places-IsSafe user issue =
    let look : (list : String) → IsSafe (attempt (get_issue_reference user issue list)) =
      λ list. attempt-IsSafe (find-IsSafe user issue list) in
    bind-IsSafe (look my_list_key) (λ my.
      bind-IsSafe (if-IsSafe (is_some my) (pure-IsSafe none) (look out_list_key)) (λ out.
        bind-IsSafe
          (if-IsSafe (is_some my) (pure-IsSafe none)
            (if-IsSafe (is_some out) (pure-IsSafe none) (look in_list_key)))
          (λ inbox. pure-IsSafe _)))
