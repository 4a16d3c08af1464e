-- ===== src/State/Move/Mock.antt =====
-- `MockMoveExecutor` of crates/suwappudb-state/src/vm/executor.rs. It reads no module. The addition to
-- the recipient's balance is not checked in the source, so it wraps at a word.
use suwappu_db.Prelude.{
  ◌≡◌, ◌≤◌, refl, ap, ◌∙◌, true, arith, ℕ, zero, suc, ◌+◌, ◌-◌, ◌*◌, ◌/◌, ◌%◌, List, [], ◌∷◌, ◌++◌,
  Bool, not, ◌&&◌, some, Result, ok, err, ltb, nat_beq, nat_eq, list_beq, length, replicate,
  if◌then◌else◌, ◌==◌, u128_mod,
}
use suwappu_db.State.Address.{MoveAddress, move_address_eq}
use suwappu_db.State.Nonce.{next}
use suwappu_db.State.Move.Types.{
  MoveCall, MoveBalanceView, new_session, MoveSessionState, MoveOutcome, MoveExecutionError,
  ResourceWrite, abort, invalid_arguments,
}
use Prim.Native.Char.{code}
use Prim.Native.String.{String}

-- The bytes of an ASCII text.
abbrev text : String → List ℕ
text String.[] = []
text (String.◌∷◌ c rest) = code c ∷ text rest

abbrev pub canonical_coin_address : MoveAddress
canonical_coin_address = record { bytes = replicate 31 0 ++ 1 ∷ [] }

abbrev pub abort_insufficient_balance : ℕ
abort_insufficient_balance = 65542

-- The digits of a number that `{}` prints.
digits : ℕ → ℕ → List ℕ → List ℕ
digits zero n printed = printed
digits (suc fuel) n printed =
    let more = digits fuel (n / 10) ((b'0' + n % 10) ∷ printed) in
    if nat_beq (n / 10) 0 then (b'0' + n % 10) ∷ printed else more

-- `u64::from_le_bytes`.
unfoldable pub from_le_bytes : List ℕ → ℕ
from_le_bytes [] = 0
from_le_bytes (x ∷ xs) = x + 256 * from_le_bytes xs

abbrev pub is_coin_transfer : MoveCall → Bool
is_coin_transfer call =
    ((call.module_id.address == canonical_coin_address)
      && list_beq call.module_id.name.name (b'c' ∷ b'o' ∷ b'i' ∷ b'n' ∷ []))
    && list_beq call.function.name (b't' ∷ b'r' ∷ b'a' ∷ b'n' ∷ b's' ∷ b'f' ∷ b'e' ∷ b'r' ∷ [])

abbrev outcome_with : List ResourceWrite → MoveOutcome
outcome_with writes = record { return_values = []; events = []; resource_writes = writes }

move_coins : MoveCall → MoveSessionState → MoveAddress → ℕ → Result MoveExecutionError MoveOutcome
move_coins call session to amount =
    let view = session.balance_view in
    let caller_balance = (view.coin_value call.caller).amount in
    if ltb caller_balance amount
    then err (
        abort abort_insufficient_balance
          (record { module_id = some call.module_id; function_index = 0; instruction_index = 0 }))
    else ok (
        outcome_with (
          session.buffered_writes
          ++ record {
            addr = call.caller;
            coin_value = record { amount = caller_balance - amount };
            nonce = next (view.nonce call.caller);
          }
            ∷ record {
              addr = to;
              coin_value = record { amount = ((view.coin_value to).amount + amount) % u128_mod };
              nonce = view.nonce to;
            }
            ∷ []))

with_arguments : MoveCall → MoveSessionState → List (List ℕ) → Result MoveExecutionError MoveOutcome
unfolding digits move_coins
with_arguments call session (to ∷ amount ∷ []) =
    if not (nat_beq (length to) 32)
    then err (invalid_arguments (text "0x1::coin::transfer: arg 0 must be 32-byte address"))
    else if not (nat_beq (length amount) 8)
    then err (invalid_arguments (text "0x1::coin::transfer: arg 1 must be u64 (8 bytes LE)"))
    else move_coins call session (record { bytes = to }) (from_le_bytes amount)
with_arguments call session arguments = err (
    invalid_arguments (
      text "0x1::coin::transfer expects 2 arguments, got "
      ++ digits (suc (length arguments)) (length arguments) []))

unfoldable pub execute : MoveCall → MoveSessionState → Result MoveExecutionError MoveOutcome
unfolding with_arguments
execute call session =
    if not (is_coin_transfer call)
    then ok (outcome_with [])
    else with_arguments call session call.arguments

abbrev pub paid : MoveBalanceView → MoveCall → ℕ → ResourceWrite
paid view call amount = record {
  addr = call.caller;
  coin_value = record { amount = (view.coin_value call.caller).amount - amount };
  nonce = next (view.nonce call.caller);
}

abbrev pub received : MoveBalanceView → MoveAddress → ℕ → ResourceWrite
received view to amount = record {
  addr = to;
  coin_value = record { amount = ((view.coin_value to).amount + amount) % u128_mod };
  nonce = view.nonce to;
}

-- The call asks for a transfer of the coin to an address, with arguments of the right lengths.
pub record AsksFor (call : MoveCall) (to : MoveAddress) (amount : ℕ) : Type 0 where
  pub word : List ℕ
  pub entry : is_coin_transfer call ≡ true
  pub arguments : call.arguments ≡ to.bytes ∷ word ∷ []
  pub address_length : length to.bytes ≡ 32
  pub word_length : length word ≡ 8
  pub amount_eq : from_le_bytes word ≡ amount

execute-coin :
    (call : MoveCall) (session : MoveSessionState)
    → is_coin_transfer call ≡ true
    → execute call session ≡ with_arguments call session call.arguments
unfolding execute
execute-coin call session h = rw h refl

with_arguments-two :
    (call : MoveCall) (session : MoveSessionState) (to word : List ℕ)
    → length to ≡ 32
    → length word ≡ 8
    → with_arguments call session (to ∷ word ∷ [])
      ≡ move_coins call session (record { bytes = to }) (from_le_bytes word)
unfolding with_arguments
with_arguments-two call session to word h k = rw (h, k) refl

move_coins-enough :
    (view : MoveBalanceView) (call : MoveCall) (to : MoveAddress) (amount : ℕ)
    → amount ≤ (view.coin_value call.caller).amount
    → move_coins call (new_session view) to amount
      ≡ ok (outcome_with (paid view call amount ∷ received view to amount ∷ []))
unfolding move_coins
move_coins-enough view call to amount h = ground arith

pub execute_transfers :
    (view : MoveBalanceView) (call : MoveCall) (to : MoveAddress) (amount : ℕ)
    → AsksFor call to amount
    → amount ≤ (view.coin_value call.caller).amount
    → execute call (new_session view)
      ≡ ok (record {
        return_values = [];
        events = [];
        resource_writes = paid view call amount ∷ received view to amount ∷ [];
      })
execute_transfers view call to amount asks enough =
    execute-coin call (new_session view) asks.entry
    ∙ ap (with_arguments call (new_session view)) asks.arguments
    ∙ with_arguments-two call (new_session view) to.bytes asks.word asks.address_length
        asks.word_length
    ∙ ap (move_coins call (new_session view) to) asks.amount_eq
    ∙ move_coins-enough view call to amount enough
