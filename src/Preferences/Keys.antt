-- ===== src/Preferences/Keys.antt =====
-- What is kept of a user stays apart from what is kept of others: the keys of server/store.go.
use Prim.Native.String.{[] as nil, ◌∷◌ as cons}
use Prim.Native.String
use text.Mathlib.TextLemmas.{cons-append, nil-append}
use okrbest_plugin_todo.Common.{
  String, Bool, true, false, none, some, [], ◌∷◌, ◌≡◌, ◌≢◌, refl, ap, sym, ◌∙◌, str_eq, eq_iff,
  arith, concat,
}
use okrbest_plugin_todo.Preferences.{
  Kv, reminder_enabled_key, save_reminder_preference, get_reminder_preference, format_bool,
  parse_bool,
}

tail : String → String
tail nil = nil
tail (cons c s) = s

-- Texts that start alike and are equal end alike.
append_cancel : (p s t : String) → String.◌++◌ p s ≡ String.◌++◌ p t → s ≡ t
unfolding tail
append_cancel nil s t e = sym (nil-append s) ∙ e ∙ nil-append t
append_cancel (cons c p) s t e =
    append_cancel p s t (ap tail (sym (cons-append c p s) ∙ e ∙ cons-append c p t))

pub key-injective :
    (a b user other : String)
    → concat (a ∷ b ∷ user ∷ []) ≡ concat (a ∷ b ∷ other ∷ [])
    → user ≡ other
key-injective a b user other e =
    append_cancel b user other (append_cancel a (String.◌++◌ b user) (String.◌++◌ b other) e)

pub format_bool-parse : (b : Bool) → parse_bool (format_bool b) ≡ some b
unfolding parse_bool
format_bool-parse true = refl
format_bool-parse false = refl

-- While the host does not fail: after a user's preference on reminders was saved, it is what was
-- saved, and the preference of every other user is as it was. It is on while none was saved, and
-- where the host fails to read it.
pub reminder_preference_lem :
    (user : String) (preference : Bool) (kv : Kv)
    → (let saved = (save_reminder_preference false user preference kv).1 in
        (get_reminder_preference false user saved ≡ preference)
        × ((other : String)
            → other ≢ user
            → get_reminder_preference false other saved ≡ get_reminder_preference false other kv)
        × (kv (reminder_enabled_key user) ≡ none → get_reminder_preference false user kv ≡ true)
        × ((other : String) → get_reminder_preference true other saved ≡ true))
unfolding save_reminder_preference get_reminder_preference
reminder_preference_lem user preference kv =
    let same : str_eq (reminder_enabled_key user) (reminder_enabled_key user) ≡ true =
      (eq_iff (reminder_enabled_key user) (reminder_enabled_key user)).1 refl in
    (
      rw (same, format_bool-parse preference) refl,
      (λ other o.
          let apart : str_eq (reminder_enabled_key user) (reminder_enabled_key other) ≡ false =
            ground (
              arith,
              eq_iff (reminder_enabled_key user) (reminder_enabled_key other),
              λ (e : reminder_enabled_key user ≡ reminder_enabled_key other).
                  o (sym (key-injective "reminder_enabled" "_" user other e)),
            ) in
          rw apart refl),
      (λ e. rw e refl),
      λ other. refl,
    )
