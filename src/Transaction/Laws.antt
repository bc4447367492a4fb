-- ===== src/Transaction/Laws.antt =====
-- What is found in the table after each operation.
use minghe.Prelude.{
  ℕ, ◌+◌, ◌-◌, ◌≡◌, refl, ap, not, Option, none, some, arith, ltb, if◌then◌else◌, ◌==◌, list_eq,
  list_beq_iff,
}
use minghe.Prelude.Dict.{Distinct, get, get-insert, get-retain_values}
use minghe.Text.{Text}
use minghe.Transaction.{
  Transaction, TransactionManager, TransactionState, find_transaction, updated, update_state,
  cleanup_expired,
}

abbrev with_state : TransactionState → Option Transaction → Option Transaction
with_state new_state none = none
with_state new_state (some tx) = some (record tx { state = new_state })

get-updated :
    (branch x : Text) (new_state : TransactionState) (found : Option Transaction)
    (t : TransactionManager)
    → get branch t ≡ found
    → get x (updated branch new_state found t)
      ≡ (if branch == x then with_state new_state (get x t) else get x t)
get-updated branch x new_state none t h = ground (arith, list_beq_iff branch x, ap (λ k. get k t))
get-updated branch x new_state (some tx) t h =
    ground (arith, get-insert branch x (record tx { state = new_state }) t, list_beq_iff branch x)

-- An update sets the state of its transaction alone, and creates none.
pub find-update_state :
    (branch x : Text) (new_state : TransactionState) (t : TransactionManager)
    → find_transaction x (update_state branch new_state t)
      ≡ (if branch == x then with_state new_state (find_transaction x t) else find_transaction x t)
unfolding find_transaction update_state
find-update_state branch x new_state t = get-updated branch x new_state (get branch t) t refl

-- The clean-up removes exactly the transactions that are older than 32 seconds.
abbrev young : ℕ → Option Transaction → Option Transaction
young now none = none
young now (some tx) = if ltb (tx.created_at + 32) now then none else some tx

find-cleanup_expired :
    (now : ℕ) (x : Text) (t : TransactionManager)
    → Distinct t
    → find_transaction x (cleanup_expired now t) ≡ young now (find_transaction x t)
unfolding find_transaction cleanup_expired
find-cleanup_expired now x t d =
    ground
      (arith, get-retain_values (λ (tx : Transaction). not (ltb 32 (now - tx.created_at))) x t d)
