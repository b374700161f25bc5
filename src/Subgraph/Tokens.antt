-- ===== src/Subgraph/Tokens.antt =====
-- packages/subgraph/src/entities: Token.ts, TokenBalance.ts and TokenAllowance.ts, as the events of an
-- ERC20 token update them. A balance's identifier is made of the token's and the owner's, so the
-- balances stand with their token. What the contract answers on its name is a parameter.
pub mod Supply
use Prim.Native.String.{String}
use liquity.Common.{ℕ, ◌==◌, ◌&&◌, Bool, Option, none, some, [], if◌then◌else◌}
use liquity.Common.Int.{ℤ, pos, ◌+ℤ◌, ◌-ℤ◌}
use liquity.Subgraph.Closings.{get_user}
use liquity.Subgraph.Decimals.{BigDecimals}
use liquity.Subgraph.Entities.{User}
use liquity.Subgraph.Tables.{Table, load, save}

pub record Token : Type 0 where
  pub name : String
  pub symbol : String
  pub total_supply : ℤ
  pub balances : Table ℤ

-- The functions of a token's contract that are called
pub record Erc20 : Type 0 where
  pub name_of : ℕ → String
  pub symbol_of : ℕ → String

pub record Tokens (D : Type 0) : Type 0 where
  pub tokens : Table Token
  -- by the token, the owner and the spender
  pub allowances : ℕ → ℕ → ℕ → Option ℕ
  pub users : Table (User D)

-- The address of minting and burning
abbrev pub zero_address : ℕ
zero_address = 0

-- `createToken`
abbrev pub create_token : Erc20 → ℕ → Token
create_token contract address = record {
  name = contract.name_of address;
  symbol = contract.symbol_of address;
  total_supply = pos 0;
  balances = [];
}

unfoldable pub get_token : {D : Type 0} → Erc20 → ℕ → Tokens D → Token
get_token contract address s = elim (load address s.tokens) [
  | some t ↦ t
  | none ↦ create_token contract address
]

-- The balance of an owner, 0 if there is none: `getTokenBalance`, but for the owner's creation
unfoldable pub balance_of : ℕ → Token → ℤ
balance_of owner t = elim (load owner t.balances) [ some amount ↦ amount | none ↦ pos 0 ]

unfoldable pub set_balance : ℕ → ℤ → Token → Token
set_balance owner amount t = record t { balances = save owner amount t.balances }

-- The first half of `updateBalance`: minting, or taking from the sender
unfoldable pub take_from : ℕ → ℕ → Token → Token
unfolding balance_of set_balance
take_from from value t =
    if from == zero_address
    then record t { total_supply = t.total_supply +ℤ pos value }
    else set_balance from (balance_of from t -ℤ pos value) t

-- The second half: burning, or giving to the recipient
unfoldable pub give_to : ℕ → ℕ → Token → Token
unfolding balance_of set_balance
give_to to value t =
    if to == zero_address
    then record t { total_supply = t.total_supply -ℤ pos value }
    else set_balance to (balance_of to t +ℤ pos value) t

module _ (b : BigDecimals) (contract : Erc20) where
  open b use {D}

  abbrev known : ℕ → Table (User D) → Table (User D)
  known owner users = (get_user b owner users).1

  abbrev known_unless_zero : ℕ → Table (User D) → Table (User D)
  known_unless_zero owner users =
      let users' = known owner users in if owner == zero_address then users else users'

  -- `updateBalance`, of the token that emitted the event
  unfoldable pub update_balance : ℕ → ℕ → ℕ → ℕ → Tokens D → Tokens D
  unfolding get_token take_from give_to get_user
  update_balance address from to value s = record s {
    tokens =
        save address (give_to to value (take_from from value (get_token contract address s)))
          s.tokens;
    users = known_unless_zero to (known_unless_zero from s.users);
  }

  -- `updateAllowance`
  unfoldable pub update_allowance : ℕ → ℕ → ℕ → ℕ → Tokens D → Tokens D
  unfolding get_user
  update_allowance address owner spender value s = record s {
    allowances = λ a o p.
        if a == address && o == owner && p == spender then some value else s.allowances a o p;
    users = known spender (known owner s.users);
  }
