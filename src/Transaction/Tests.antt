-- ===== src/Transaction/Tests.antt =====
-- The theorems on transactions at a concrete table.
use minghe.Prelude.{◌≡◌, [], ◌∷◌, some, codes, list_eq}
use minghe.Prelude.Dict.{get}
use minghe.Text.{Text}
use minghe.Transaction.{
  Transaction, TransactionManager, proceeding, completed, find_transaction, update_state,
}
use minghe.Transaction.Laws.{find-update_state}

abbrev branch : Text
branch = codes "z9hG4bK1"

abbrev invite : Transaction
invite = record {
  branch = branch;
  method = codes "INVITE";
  call_id = codes "a84b4c";
  created_at = 10;
  state = proceeding;
}

abbrev table : TransactionManager
table = (branch, invite) ∷ []

find-update_state_example :
    find_transaction branch (update_state branch completed table)
    ≡ some (record invite { state = completed })
unfolding find_transaction get
find-update_state_example = find-update_state branch branch completed table
