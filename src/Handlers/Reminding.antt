-- ===== src/Handlers/Reminding.antt =====
-- How often a user gets the daily reminder: `handleLists` of server/plugin.go.
use Prim.Native.Nat.{◌/◌}
use okrbest_plugin_todo.Preferences.Keys.{key-injective}
use okrbest_plugin_todo.Common.{
  String, ℕ, ◌+◌, ◌≤◌, true, false, not, ◌&&◌, Option, some, List, [], ◌∷◌, ◌≡◌, ◌≢◌, refl, sym,
  ◌∙◌, ap, subst, All, is_nil, ◌⊎◌, str_eq, eq_iff, arith, Bool-cases, inl, inr, if◌then◌else◌,
}
use okrbest_plugin_todo.ListStore.{Result, error, panic, ok}
use okrbest_plugin_todo.Db.{Db}
use okrbest_plugin_todo.ListManager.Reading.{get_all_list}
use okrbest_plugin_todo.Preferences.{
  Kv, reminder_key, get_reminder_preference, get_last_reminder_time, save_last_reminder_time,
}
use okrbest_plugin_todo.Handlers.Listing.{
  Offset, zone_of, Lists, ListsRequest, ListsResponse, is_due, after_time, after_lists,
  handle_lists,
}

module _ (atoi : String → Offset) (date_in : Offset → ℕ → ℕ × ℕ × ℕ) where
  -- The reminder of the request comes an hour or more after a time, in seconds, and on another day
  -- where the request is made.
  abbrev pub IsLater : ℕ → ListsRequest → Type 0
  IsLater last r =
      (last / 1000 + 3600 ≤ r.now / 1000)
      × (date_in (zone_of (atoi r.timezone_offset)) (r.now / 1000)
          ≢ date_in (zone_of (atoi r.timezone_offset)) (last / 1000))

  -- Each reminder is later than a time, the first one than this, and the others than when the one
  -- before was saved.
  abbrev pub Spaced : ℕ → List ListsRequest → Type 0
  Spaced last [] = Unit
  Spaced last (r ∷ rs) = IsLater last r × Spaced r.saved_at rs

  due-IsLater : (r : ListsRequest) (last : ℕ) → is_due atoi date_in r last ≡ true → IsLater last r
  unfolding is_due
  due-IsLater r last h = (
    ground arith,
    λ e. ground (
      arith,
      h,
      ap (λ (d : ℕ × ℕ × ℕ). d.0) e,
      ap (λ (d : ℕ × ℕ × ℕ). d.1) e,
      ap (λ (d : ℕ × ℕ × ℕ). d.2) e,
    ),
  )

  module _ (username : String → Option String) (format_date : ℕ → String) (format_int : ℕ → String)
      (parse_int : String → Option ℕ) where
    -- the requests of a user that are answered by a reminder, of requests that follow each other
    unfoldable pub reminded : String → List (ListsRequest × Db) → Kv → List ListsRequest
    unfolding handle_lists
    reminded user [] kv = []
    reminded user ((r, db) ∷ rs) kv =
        let (response, kv', db') =
          handle_lists atoi date_in username format_date format_int parse_int r (kv, db) in
        let rest = reminded user rs kv' in
        if str_eq r.user_id user && not (is_nil response.notices) then r ∷ rest else rest

    abbrev value : Result ℕ → ℕ
    value (error e) = 0
    value panic = 0
    value (ok n) = n

    last_time : String → Kv → Result ℕ
    last_time = get_last_reminder_time format_int parse_int false

    saved : ListsRequest → Kv → Kv
    saved r kv =
        (save_last_reminder_time format_int parse_int r.saving_fails r.saved_at r.user_id kv).1

    -- No reminder is sent and nothing is saved, or one was due after the time that was saved last,
    -- and its time is saved.
    abbrev Answers : ListsRequest → Kv → ListsResponse × Kv → Type 0
    Answers r kv (response, kv') =
        ((is_nil response.notices ≡ true) × (kv' ≡ kv))
        ⊎ ((is_nil response.notices ≡ false)
            × (kv' ≡ saved r kv)
            × (last : ℕ) × (last_time r.user_id kv ≡ ok last)
            × (is_due atoi date_in r last ≡ true))

    after_time-Answers :
        (r : ListsRequest) (kv : Kv) (lists : Lists)
        → Answers r kv (
            after_time atoi date_in username format_date format_int parse_int r lists kv
              (get_last_reminder_time format_int parse_int r.time_fails r.user_id kv))
    unfolding last_time saved after_time get_last_reminder_time
    after_time-Answers r kv lists = elim (Bool-cases r.time_fails) [
      | inl fails ↦ rw fails (inl (refl, refl))
      | inr reads ↦
          rw reads (by (get_last_reminder_time format_int parse_int false r.user_id kv) refl)
    ]
      where
        by :
            (found : Result ℕ)
            → get_last_reminder_time format_int parse_int false r.user_id kv ≡ found
            → Answers r kv
                (after_time atoi date_in username format_date format_int parse_int r lists kv found)
        by (error e) h = inl (refl, refl)
        by panic h = inl (refl, refl)
        by (ok last) h = elim (Bool-cases (is_due atoi date_in r last)) [
          | inl due ↦ rw due (inr (refl, refl, last, h, due))
          | inr early ↦ rw early (inl (refl, refl))
        ]

    after_lists-Answers :
        (r : ListsRequest) (kv : Kv) (found : Result Lists)
        → Answers r kv
            (after_lists atoi date_in username format_date format_int parse_int r kv found)
    unfolding after_lists
    after_lists-Answers r kv (error e) = inl (refl, refl)
    after_lists-Answers r kv panic = inl (refl, refl)
    after_lists-Answers r kv (ok lists) =
        elim (Bool-cases (
          not (is_nil lists.1)
          && (str_eq r.reminder "true"
              && get_reminder_preference r.preference_fails r.user_id kv))) [
                | inl asked ↦ rw asked (after_time-Answers r kv lists)
                | inr unasked ↦ rw unasked (inl (refl, refl))
              ]

    -- A saved time is read again, and that of another user is as it was.
    saved-own :
        (r : ListsRequest) (kv : Kv)
        → parse_int (format_int r.saved_at) ≡ some r.saved_at
        → r.saving_fails ≡ false
        → last_time r.user_id (saved r kv) ≡ ok r.saved_at
    unfolding last_time saved get_last_reminder_time save_last_reminder_time
    saved-own r kv reads h =
        let key = reminder_key r.user_id in
        let same : str_eq key key ≡ true = (eq_iff key key).1 refl in rw (h, same, reads) refl

    saved-other :
        (r : ListsRequest) (kv : Kv) (user : String)
        → r.user_id ≢ user
        → r.saving_fails ≡ false
        → last_time user (saved r kv) ≡ last_time user kv
    unfolding last_time saved get_last_reminder_time save_last_reminder_time reminder_key
    saved-other r kv user ne h =
        let apart : str_eq (reminder_key r.user_id) (reminder_key user) ≡ false = ground (
          arith,
          eq_iff (reminder_key r.user_id) (reminder_key user),
          λ (e : reminder_key r.user_id ≡ reminder_key user).
              ne (key-injective "reminder" "_" r.user_id user e),
        ) in
        rw (h, apart) refl

    -- Let the host save each time that it is asked to save, and read the text of a number as this
    -- number. Of requests for lists, of all users and whatever is stored of lists and issues at
    -- each: those of one user that are answered by the daily reminder come an hour or more after
    -- the last time that was saved for this user, and on another day where the request is made, and
    -- each of them so after the one before it.
    pub reminded-Spaced :
        (user : String) (rs : List (ListsRequest × Db)) (kv : Kv) (last : ℕ)
        → ((n : ℕ) → parse_int (format_int n) ≡ some n)
        → All (λ (r, db). r.saving_fails ≡ false) rs
        → get_last_reminder_time format_int parse_int false user kv ≡ ok last
        → Spaced last (reminded user rs kv)
    unfolding reminded handle_lists last_time saved
    reminded-Spaced user [] kv last reads s h = tt
    reminded-Spaced user ((r, db) ∷ rs) kv last reads s h =
        let found = (get_all_list username r.user_id db).0 in
        let result =
          after_lists atoi date_in username format_date format_int parse_int r kv found in
        elim (Bool-cases (str_eq r.user_id user)) [
          | inl own ↦ elim (after_lists-Answers r kv found) [
            | inl (silent, kept) ↦
                rw (own, silent, kept) (reminded-Spaced user rs kv last reads s.1 h)
            | inr (told, stored, last', read, due) ↦
                rw (own, told, stored)
                  (
                    subst (λ n. IsLater n r)
                        (ap value
                          (sym read ∙ ap (λ u. last_time u kv) ((eq_iff r.user_id user).0 own) ∙ h))
                        (due-IsLater r last' due),
                    reminded-Spaced user rs (saved r kv) r.saved_at reads s.1 (
                        subst (λ u. last_time u (saved r kv) ≡ ok r.saved_at)
                          ((eq_iff r.user_id user).0 own) (saved-own r kv (reads r.saved_at) s.0)),
                  )
          ]
          | inr other ↦ rw other (elim (after_lists-Answers r kv found) [
            | inl (silent, kept) ↦ rw kept (reminded-Spaced user rs kv last reads s.1 h)
            | inr (told, stored, last', read, due) ↦ rw stored (
                reminded-Spaced user rs (saved r kv) last reads s.1
                  (saved-other r kv user (ground (arith, eq_iff r.user_id user, other)) s.0 ∙ h))
          ])
        ]
