-- ===== src/ListStore/Racing.antt =====
-- Operations on a list while others write it: the loops of server/store.go around
-- `KVCompareAndSet`.
use okrbest_plugin_todo.Common.{
  String, ℕ, zero, suc, Bool, true, false, arith, Option, none, some, List, [], ◌≡◌, refl, map, sym,
  inl, inr, Bool-cases, Option-cases,
}
use okrbest_plugin_todo.ListStore.{
  IssueRef, Result, ok, error, panic, is_panic, Race, legacy_ref, same_value, legacy_issue_ref,
  get_list, save_list, after_save, store_change, after_read, try_once, retry, add_ref, remove_ref,
  pop_ref, bump_ref, add_reference, remove_reference, pop_reference, bump_reference,
}

-- The values that others' writes make of a key's value.
pub data Others {Value : Type 0} (races : ℕ → Race Value)
    : Option Value → Option Value → Type 0 where
  done : {v : Option Value} → Others races v v
  by_between :
      {v w : Option Value} (n : ℕ) → Others races ((races n).between v) w → Others races v w
  by_others : {v w : Option Value} (n : ℕ) → Others races ((races n).others v) w → Others races v w

Others-trans :
    {Value : Type 0} {races : ℕ → Race Value} {u v w : Option Value}
    → Others races u v
    → Others races v w
    → Others races u w
Others-trans done p = p
Others-trans (Others.by_between n o) p = Others.by_between n (Others-trans o p)
Others-trans (Others.by_others n o) p = Others.by_others n (Others-trans o p)

module _ {Value : Type 0} (same : Value → Value → Bool) (decode : Value → Option (List IssueRef))
    (decode_legacy : Value → Option (List String)) (encode : List IssueRef → Value) where
  -- The list that a key's value stands for, in one of the two formats.
  pub data Reads : Option Value → List IssueRef → Type 0 where
    nothing : Reads none []
    new_format :
        {json : Value} {list : List IssueRef} → decode json ≡ some list → Reads (some json) list
    old_format :
        {json : Value} {ids : List String}
        → decode_legacy json ≡ some ids
        → Reads (some json) (map legacy_ref ids)

  -- What was read: a value that others' writes have made, and the list that it stands for.
  record IsRead (races : ℕ → Race Value) (value : Option Value)
      (p : Result (List IssueRef) × Option Value) : Type 0 where
    others : Others races value p.1
    reads : (list : List IssueRef) → p.0 ≡ ok list → Reads p.1 list
    calm : is_panic p.0 ≡ false

  module _ (races : ℕ → Race Value) (n : ℕ) where
    abbrev race : Race Value
    race = races n

    failed-IsRead : (value : Option Value) (e : String) → IsRead races value (error e, value)
    failed-IsRead value e = record { others = Others.done; reads = λ list h. cc; calm = refl }

    ok-IsRead :
        (value : Option Value) (list : List IssueRef)
        → Reads value list
        → IsRead races value (ok list, value)
    ok-IsRead value list r = record {
      others = Others.done;
      reads = λ l h. let e : list ≡ l = cc in rw (sym e) r;
      calm = refl;
    }

    legacy-IsRead :
        (value : Option Value)
        → IsRead races value (legacy_issue_ref same decode decode_legacy encode race value)
    unfolding legacy_issue_ref
    legacy-IsRead value = elim (Bool-cases race.legacy_fails) [
      | inl e ↦ rw (e, legacy_issue_ref) (failed-IsRead value "get")
      | inr e ↦ rw (e, legacy_issue_ref) (by_value value)
    ]
      where
        by_value :
            (v : Option Value)
            → IsRead races v (elim v [
              | none ↦ (ok [], none)
              | some json ↦ elim (decode_legacy json) [
                | none ↦ (error "json", some json)
                | some ids ↦ (ok (map legacy_ref ids), some json)
              ]
            ])
        by_value none = ok-IsRead none [] nothing
        by_value (some json) = elim (Option-cases (decode_legacy json)) [
          | inl e ↦ rw e (failed-IsRead (some json) "json")
          | inr (ids, e) ↦ rw e (ok-IsRead (some json) (map legacy_ref ids) (old_format e))
        ]

    get_list-IsRead :
        (value : Option Value)
        → IsRead races value (get_list same decode decode_legacy encode race value)
    unfolding get_list
    get_list-IsRead value = elim (Bool-cases race.get_fails) [
      | inl e ↦ rw (e, get_list) (failed-IsRead value "get")
      | inr e ↦ rw (e, get_list) (by_value value)
    ]
      where
        by_value :
            (v : Option Value)
            → IsRead races v (elim v [
              | none ↦ (ok [], none)
              | some json ↦ elim (decode json) [
                | some list ↦ (ok list, some json)
                | none ↦
                    legacy_issue_ref same decode decode_legacy encode race
                      (race.between (some json))
              ]
            ])
        by_value none = ok-IsRead none [] nothing
        by_value (some json) = elim (Option-cases (decode json)) [
          | inl e ↦
              let l = legacy-IsRead (race.between (some json)) in
              rw e
                (record { others = Others.by_between n l.others; reads = l.reads; calm = l.calm })
          | inr (list, e) ↦ rw e (ok-IsRead (some json) list (new_format e))
        ]

  -- How an operation ends. With an error or a panic it has written nothing. With a value, it has
  -- read a list at a value of the key that others' writes had made, and the value that was there
  -- when it wrote what it makes of this list was the same.
  pub data Ended {A : Type 0} (change : List IssueRef → Result (A × List IssueRef))
      (races : ℕ → Race Value) (value : Option Value) : Result A → Option Value → Type 0 where
    unwritten :
        {w : Option Value} (e : String)
        → Others races value w
        → Ended change races value (error e) w
    panicked :
        {v : Option Value} {list : List IssueRef}
        → Others races value v
        → Reads v list
        → change list ≡ panic
        → Ended change races value panic v
    written :
        {v : Option Value} {list list' : List IssueRef} {a : A}
        → Others races value v
        → Reads v list
        → change list ≡ ok (a, list')
        → (n : ℕ) → same_value same decode decode_legacy encode ((races n).others v) v ≡ true
        → Ended change races value (ok a) (some (encode list'))

  Tried :
      {A : Type 0}
      → (List IssueRef → Result (A × List IssueRef))
      → (ℕ → Race Value)
      → Option Value
      → Option (Result A) × Option Value
      → Type 0
  Tried change races value (some r, w) = Ended change races value r w
  Tried change races value (none, w) = Others races value w

  module _ {A : Type 0} (change : List IssueRef → Result (A × List IssueRef))
      (races : ℕ → Race Value) (n : ℕ) where
    save-Tried :
        (value original : Option Value) (list list' : List IssueRef) (a : A)
        → Others races value original
        → Reads original list
        → change list ≡ ok (a, list')
        → Tried change races value (
            after_save same decode decode_legacy encode a
              (save_list same decode decode_legacy encode (races n) list' original))
    unfolding Tried after_save save_list
    save-Tried value original list list' a o r c = elim (Bool-cases (races n).set_fails) [
      | inl e ↦ rw e (unwritten "set" moved)
      | inr e ↦
          elim (Bool-cases
            (same_value same decode decode_legacy encode ((races n).others original) original)) [
              | inl s ↦ rw (e, s) (written o r c n s)
              | inr s ↦ rw (e, s) moved
            ]
    ]
      where
        moved : Others races value ((races n).others original)
        moved = Others-trans o (Others.by_others n Others.done)

    read-Tried :
        (value : Option Value) (p : Result (List IssueRef) × Option Value)
        → IsRead races value p
        → Tried change races value (after_read same decode decode_legacy encode change (races n) p)
    unfolding Tried after_read store_change
    read-Tried value (error e, original) r = unwritten e r.others
    read-Tried value (panic, original) r = ground (arith, r.calm)
    read-Tried value (ok list, original) r = by_change (change list) refl
      where
        by_change :
            (c : Result (A × List IssueRef))
            → change list ≡ c
            → Tried change races value
                (store_change same decode decode_legacy encode (races n) original c)
        by_change (error e) q = unwritten e r.others
        by_change panic q = panicked r.others (r.reads list refl) q
        by_change (ok (a, list')) q =
            save-Tried value original list list' a r.others (r.reads list refl) q

    try_once-Tried :
        (value : Option Value)
        → Tried change races value
            (try_once same decode decode_legacy encode change (races n) value)
    unfolding try_once
    try_once-Tried value = read-Tried value _ (get_list-IsRead races n value)

  module _ {A : Type 0} (change : List IssueRef → Result (A × List IssueRef))
      (races : ℕ → Race Value) where
    Ended-after :
        {value v w : Option Value} (r : Result A)
        → Others races value v
        → Ended change races v r w
        → Ended change races value r w
    Ended-after _ o (unwritten e p) = unwritten e (Others-trans o p)
    Ended-after _ o (panicked p r c) = panicked (Others-trans o p) r c
    Ended-after _ o (written p r c n s) = written (Others-trans o p) r c n s

    no_result :
        (v : Option Value) (p : Option (Result A) × Option Value)
        → Tried change races v p
        → p.0 ≡ none
        → Others races v p.1
    unfolding Tried
    no_result v (none, w) t e = t
    no_result v (some r, w) t e = cc

    result :
        (v : Option Value) (p : Option (Result A) × Option Value) (r : Result A)
        → Tried change races v p
        → p.0 ≡ some r
        → Ended change races v r p.1
    unfolding Tried
    result v (none, w) r t e = cc
    result v (some s, w) r t e = let q : s ≡ r = cc in rw (sym q) t

    retry_from :
        (failure : String) (n : ℕ) (value v : Option Value)
        → Others races value v
        → (let p = retry same decode decode_legacy encode change failure races n v in
            Ended change races value p.0 p.1)
    unfolding retry
    retry_from failure zero value v o = unwritten failure o
    retry_from failure (suc n) value v o =
        let p = try_once same decode decode_legacy encode change (races n) v in
        let t = try_once-Tried change races n v in
        elim (Option-cases p.0) [
          | inl e ↦
              rw (e, retry) (retry_from failure n value p.1 (Others-trans o (no_result v p t e)))
          | inr (r, e) ↦ rw (e, retry) (Ended-after r o (result v p r t e))
        ]

    retry-Ended :
        (failure : String) (n : ℕ) (value : Option Value)
        → (let p = retry same decode decode_legacy encode change failure races n value in
            Ended change races value p.0 p.1)
    retry-Ended failure n value = retry_from failure n value value Others.done

  -- `AddReference`, `RemoveReference`, `PopReference` and `BumpReference` are atomic, however
  -- others write the key in between: each gives an error and has written nothing, or it panics and
  -- has written nothing, since what it makes of a list that it has read does, or it has read a
  -- list at a value that others' writes had made, and has put what it makes of the list in the
  -- place of the same value. So it overwrites nothing that it has not read.
  pub operations-Ended :
      (races : ℕ → Race Value) (value : Option Value) (issue_id user foreign : String)
      → (let added =
            add_reference same decode decode_legacy encode issue_id user foreign races value in
          let removed = remove_reference same decode decode_legacy encode issue_id races value in
          let popped = pop_reference same decode decode_legacy encode races value in
          let bumped = bump_reference same decode decode_legacy encode issue_id races value in
          Ended (add_ref issue_id user foreign) races value added.0 added.1
          × Ended (remove_ref issue_id) races value removed.0 removed.1
          × Ended pop_ref races value popped.0 popped.1
          × Ended (bump_ref issue_id) races value bumped.0 bumped.1)
  unfolding add_reference remove_reference pop_reference bump_reference
  operations-Ended races value issue_id user foreign = (
    retry-Ended (add_ref issue_id user foreign) races "unable to store installation" 3 value,
    retry-Ended (remove_ref issue_id) races "unable to store list" 3 value,
    retry-Ended pop_ref races "unable to store list" 3 value,
    retry-Ended (bump_ref issue_id) races "unable to store list" 3 value,
  )
