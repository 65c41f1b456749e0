-- ===== src/Utils/Permissions.antt =====
-- What may be done with an issue on a list: webapp/src/utils.js.
use okrbest_plugin_todo.Common.{String, true, false, ◌≡◌, eq_iff, arith}
use okrbest_plugin_todo.Utils.{can_remove, can_complete, can_accept, can_bump}

-- On any list: what can be accepted can be completed, what can be completed or bumped can be
-- removed, and nothing that can be bumped can be completed. On the list of sent issues, an issue
-- can be removed exactly when it can be bumped, which is while the receiver has it in the inbox.
pub permissions_ordered :
    (my_list foreign_list : String)
    → (can_accept my_list ≡ true → can_complete my_list ≡ true)
      × (can_complete my_list ≡ true → can_remove my_list foreign_list ≡ true)
      × (can_bump my_list foreign_list ≡ true
          → (can_remove my_list foreign_list ≡ true) × (can_complete my_list ≡ false))
      × (my_list ≡ "out"
          → (can_remove my_list foreign_list ≡ can_bump my_list foreign_list)
            × (can_bump my_list foreign_list ≡ true → foreign_list ≡ "in"))
unfolding can_remove can_complete can_accept can_bump
permissions_ordered my_list foreign_list = ground (
  arith,
  eq_iff my_list "my",
  eq_iff my_list "in",
  eq_iff my_list "out",
  eq_iff foreign_list "in",
  eq_iff "out" "my",
  eq_iff "out" "in",
)
