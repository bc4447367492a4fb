-- ===== src/Transaction.antt =====
-- sip/transaction.rs: the table of transactions. The clock, in seconds, is an argument.
pub mod Laws
mod Tests
use minghe.Prelude.{ℕ, ◌-◌, Bool, true, false, not, Option, none, some, ltb, list_eq}
use minghe.Prelude.Dict.{Dict, get, insert, remove, retain_values}
use minghe.Text.{Text}

pub data TransactionState : Type 0 where
  proceeding completed terminated : TransactionState

pub record Transaction : Type 0 where
  pub branch : Text
  pub method : Text
  pub call_id : Text
  pub created_at : ℕ
  pub state : TransactionState

abbrev pub TransactionManager : Type 0
TransactionManager = Dict Text Transaction

pub create_transaction : ℕ → Text → Text → Text → TransactionManager → TransactionManager × Text
create_transaction now branch method call_id transactions =
    let tx : Transaction = record {
      branch = branch;
      method = method;
      call_id = call_id;
      created_at = now;
      state = proceeding;
    } in
    (insert branch tx transactions, branch)

pub find_transaction : Text → TransactionManager → Option Transaction
find_transaction branch transactions = get branch transactions

-- The body of the `if let`, at what `get_mut` finds.
abbrev pub updated :
    Text → TransactionState → Option Transaction → TransactionManager → TransactionManager
updated branch new_state none transactions = transactions
updated branch new_state (some tx) transactions =
    insert branch (record tx { state = new_state }) transactions

pub update_state : Text → TransactionState → TransactionManager → TransactionManager
update_state branch new_state transactions =
    updated branch new_state (get branch transactions) transactions

pub remove_transaction : Text → TransactionManager → TransactionManager
remove_transaction branch transactions = remove branch transactions

-- Timer B: what is older than 32 seconds goes.
pub cleanup_expired : ℕ → TransactionManager → TransactionManager
cleanup_expired now transactions =
    retain_values (λ (tx : Transaction). not (ltb 32 (now - tx.created_at))) transactions
