-- ===== src/Db/Keeping.antt =====
-- Invariants of what the host stores, over the operations of server/store.go.
use okrbest_plugin_todo.Common.{
  String, Bool, true, false, Option, none, some, is_some, if◌then◌else◌,
}
use okrbest_plugin_todo.ListStore.{Result, error, panic, ok}
use okrbest_plugin_todo.Db.{
  Issue, Db, M, pure, lift, my_list_key, out_list_key, in_list_key, lift, my_list_key, out_list_key,
  in_list_key, bound, ◌>>=◌, ◌>>◌, attempt, tried, or_roll_back, recovered, rolled_back, log_error,
  new_issue, save_issue, get_issue, remove_issue, get_and_remove_issue, get_list, add_reference,
  remove_reference, pop_reference, bump_reference, get_issue_reference,
  get_issue_list_and_reference,
}

-- The operation keeps the property of the store, whether or not it gives an error.
pub record Keeps (P : Db → Type 0) {A : Type 0} (m : M A) : Type 0 where
  pub after : (db : Db) → P db → P (m db).1

module _ (P : Db → Type 0) where
  bound-Keeps :
      {A B : Type 0} (f : A → M B)
      → ((a : A) → Keeps P (f a))
      → (r : Result A × Db) → P r.1
      → P (bound f r).1
  bound-Keeps f h (ok a, db) p = (h a).after db p
  bound-Keeps f h (error e, db) p = p
  bound-Keeps f h (panic, db) p = p

  pub bind-Keeps :
      {A B : Type 0} {m : M A} {f : A → M B}
      → Keeps P m
      → ((a : A) → Keeps P (f a))
      → Keeps P (m >>= f)
  bind-Keeps {m} {f} hm hf = record { after = λ db p. bound-Keeps f hf (m db) (hm.after db p) }

  pub then-Keeps :
      {B : Type 0} {m : M (Unit {0})} {k : M B} → Keeps P m → Keeps P k → Keeps P (m >> k)
  then-Keeps {m} {k} hm hk = record {
    after = λ db p. bound-Keeps (λ _. k) (λ _. hk) (m db) (hm.after db p);
  }

  pub pure-Keeps : {A : Type 0} (r : Result A) → Keeps P (lift r)
  pure-Keeps r = record { after = λ db p. p }

  tried-Keeps : {A : Type 0} (r : Result A × Db) → P r.1 → P (tried r).1
  tried-Keeps (ok a, db) p = p
  tried-Keeps (error e, db) p = p
  tried-Keeps (panic, db) p = p

  pub attempt-Keeps : {A : Type 0} {m : M A} → Keeps P m → Keeps P (attempt m)
  attempt-Keeps {m} h = record { after = λ db p. tried-Keeps (m db) (h.after db p) }

  pub log_error-Keeps : {A : Type 0} {m : M A} → Keeps P m → Keeps P (log_error m)
  log_error-Keeps {m} h = record {
    after = λ db p.
        bound-Keeps (λ _. pure tt) (λ _. record { after = λ d q. q }) (attempt m db)
          ((attempt-Keeps h).after db p);
  }

  rolled_back-Keeps :
      (A : Type 0) (e : String) (r : Result (Unit {0}) × Db) → P r.1 → P (rolled_back {A = A} e r).1
  rolled_back-Keeps A e (ok _, db) p = p
  rolled_back-Keeps A e (error _, db) p = p
  rolled_back-Keeps A e (panic, db) p = p

  recovered-Keeps :
      {A : Type 0} (rollback : M (Unit {0}))
      → Keeps P rollback
      → (r : Result A × Db) → P r.1
      → P (recovered rollback r).1
  recovered-Keeps rollback h (ok a, db) p = p
  recovered-Keeps rollback h (error e, db) p = rolled_back-Keeps _ e (rollback db) (h.after db p)
  recovered-Keeps rollback h (panic, db) p = p

  pub or_roll_back-Keeps :
      {A : Type 0} {m : M A} {rollback : M (Unit {0})}
      → Keeps P m
      → Keeps P rollback
      → Keeps P (or_roll_back m rollback)
  or_roll_back-Keeps {m} {rollback} h hr = record {
    after = λ db p. recovered-Keeps rollback hr (m db) (h.after db p);
  }

  pub if-Keeps :
      {A : Type 0} (b : Bool) {m k : M A} → Keeps P m → Keeps P k → Keeps P (if b then m else k)
  if-Keeps true hm hk = hm
  if-Keeps false hm hk = hk

  pub option-Keeps :
      {A B : Type 0} (r : Option A) {m : M B} {f : A → M B}
      → Keeps P m
      → ((a : A) → Keeps P (f a))
      → Keeps P (elim r [ none ↦ m | some a ↦ f a ])
  option-Keeps none hm hf = hm
  option-Keeps (some a) hm hf = hf a

-- What the operations of the store keep.
pub record IsInvariant (P : Db → Type 0) : Type 0 where
  pub new :
      (message permalink description post : String)
      → Keeps P (new_issue message permalink description post)
  pub save : (issue : Issue) → Keeps P (save_issue issue)
  pub get : (id : String) → Keeps P (get_issue id)
  pub remove : (id : String) → Keeps P (remove_issue id)
  pub list : (user list : String) → Keeps P (get_list user list)
  pub add :
      (user issue list foreign_user foreign_issue : String)
      → Keeps P (add_reference user issue list foreign_user foreign_issue)
  pub take_out : (user issue list : String) → Keeps P (remove_reference user issue list)
  pub pop : (user list : String) → Keeps P (pop_reference user list)
  pub bump : (user issue list : String) → Keeps P (bump_reference user issue list)
  pub find : (user issue list : String) → Keeps P (get_issue_reference user issue list)

module _ (P : Db → Type 0) (inv : IsInvariant P) where
  pub get_and_remove_issue-Keeps : (id : String) → Keeps P (get_and_remove_issue id)
  unfolding get_and_remove_issue
  get_and_remove_issue-Keeps id =
      bind-Keeps P (inv.get id) (λ issue. then-Keeps P (inv.remove id) (pure-Keeps P _))

  pub get_issue_list_and_reference-Keeps :
      (user issue : String) → Keeps P (get_issue_list_and_reference user issue)
  unfolding get_issue_list_and_reference
  get_issue_list_and_reference-Keeps user issue =
      let look : (list : String) → Keeps P (attempt (get_issue_reference user issue list)) =
        λ list. attempt-Keeps P (inv.find user issue list) in
      bind-Keeps P (look my_list_key) (λ my.
        bind-Keeps P (if-Keeps P (is_some my) (pure-Keeps P _) (look out_list_key)) (λ out.
          bind-Keeps P
            (if-Keeps P (is_some my) (pure-Keeps P _)
              (if-Keeps P (is_some out) (pure-Keeps P _) (look in_list_key)))
            (λ inbox. pure-Keeps P _)))
