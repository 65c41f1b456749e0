-- ===== src/Commands/Words.antt =====
-- The words of a command: how `ExecuteCommand` of server/command.go takes a text apart, and how
-- words are put together, with the functions of the language's library that are called for this.
pub mod Reading
pub mod Filled
use Prim.Native.Char.{Char, code}
use Prim.Native.String.{◌∷◌ as ◌∷ᶜ◌, [] as nil}
use okrbest_plugin_todo.Common.{
  String, Bool, true, false, ◌&&◌, ◌||◌, List, [], ◌∷◌, any, nat_eq, leb, str_eq, concat,
  if◌then◌else◌,
}

-- `unicode.IsSpace`
unfoldable pub is_space : Char → Bool
is_space c =
    let n = code c in
    any (nat_eq n)
      (9 ∷ 10 ∷ 11 ∷ 12 ∷ 13 ∷ 32 ∷ 133 ∷ 160 ∷ 5760 ∷ 8232 ∷ 8233 ∷ 8239 ∷ 8287 ∷ 12288 ∷ [])
    || (leb 8192 n && leb n 8202)

-- `\s` of a regular expression
unfoldable pub is_gap : Char → Bool
is_gap c = any (nat_eq (code c)) (9 ∷ 10 ∷ 12 ∷ 13 ∷ 32 ∷ [])

unfoldable pub trim_left : String → String
unfolding is_space
trim_left nil = ""
trim_left (c ∷ᶜ s) = if is_space c then trim_left s else c ∷ᶜ s

unfoldable pub trim_right : String → String
unfolding is_space
trim_right nil = ""
trim_right (c ∷ᶜ s) =
    let rest = trim_right s in if is_space c && str_eq rest "" then "" else c ∷ᶜ rest

-- `strings.TrimSpace`
unfoldable pub trim_space : String → String
unfolding trim_left trim_right
trim_space s = trim_right (trim_left s)

-- `ReplaceAllString` of `\s+` by one space, in a run of such characters or not
unfoldable pub collapse : Bool → String → String
unfolding is_gap
collapse in_run nil = ""
collapse in_run (c ∷ᶜ s) =
    let rest = collapse (is_gap c) s in
    if is_gap c then (if in_run then rest else " " ∷ᶜ rest) else c ∷ᶜ rest

abbrev pub push : Char → List String → List String
push c [] = (c ∷ᶜ "") ∷ []
push c (word ∷ words) = (c ∷ᶜ word) ∷ words

-- `strings.Split` at each space
unfoldable pub split : String → List String
split nil = "" ∷ []
split (c ∷ᶜ s) = let rest = split s in if nat_eq (code c) 32 then "" ∷ rest else push c rest

-- `stringArgs` of `ExecuteCommand`
unfoldable pub command_words : String → List String
unfolding trim_space collapse split
command_words text = split (collapse false (trim_space text))

-- `strings.Join` with a space
unfoldable pub join : List String → String
join [] = ""
join (word ∷ []) = word
join (word ∷ next ∷ words) = concat (word ∷ " " ∷ join (next ∷ words) ∷ [])
