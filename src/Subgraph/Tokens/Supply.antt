-- ===== src/Subgraph/Tokens/Supply.antt =====
-- The supply of a token against the balances of its owners.
use liquity.Common.{ℕ, ◌≡◌, ◌∙◌, sym, ap, refl, none, some, List, [], ◌∷◌, arith}
use liquity.Common.Int.{ℤ, pos, ◌+ℤ◌, ◌-ℤ◌, add_sub, sub_add, int_laws}
use native.Mathlib.Decide.{ℕ_discrete}
use liquity.Subgraph.Decimals.{BigDecimals}
use liquity.Subgraph.Tables.{Table, load, save, load-save_self, load-save_ne}
use liquity.Subgraph.Tokens.{
  Token, Erc20, Tokens, get_token, update_balance, balance_of, set_balance, take_from, give_to,
}

-- The sum of the balances.
abbrev pub sum : Table ℤ → ℤ
sum [] = pos 0
sum ((_, amount) ∷ t) = amount +ℤ sum t

sum-save :
    (k : ℕ) (v old : ℤ) (t : Table ℤ) → load k t ≡ some old → sum (save k v t) +ℤ old ≡ sum t +ℤ v
sum-save k v old [] e = ground arith
sum-save k v old (x ∷ t) e = grind (int_laws, sum-save k v old t)

sum-save_new : (k : ℕ) (v : ℤ) (t : Table ℤ) → load k t ≡ none → sum (save k v t) ≡ sum t +ℤ v
sum-save_new k v [] e = omega int_laws
sum-save_new k v (x ∷ t) e = grind (int_laws, sum-save_new k v t)

sum-set_balance :
    (k : ℕ) (v : ℤ) (t : Token)
    → sum (set_balance k v t).balances +ℤ balance_of k t ≡ sum t.balances +ℤ v
unfolding set_balance balance_of
sum-set_balance k v t = grind (int_laws, sum-save, sum-save_new)

-- How much more the supply is than the balances.
abbrev excess : Token → ℤ
excess t = t.total_supply -ℤ sum t.balances

excess-take : (k n : ℕ) (t : Token) → excess (take_from k n t) ≡ excess t +ℤ pos n
unfolding take_from
excess-take k n t = grind (int_laws, sum-set_balance k (balance_of k t -ℤ pos n) t)

excess-give : (k n : ℕ) (t : Token) → excess (give_to k n t) ≡ excess t -ℤ pos n
unfolding give_to
excess-give k n t = grind (int_laws, sum-set_balance k (balance_of k t +ℤ pos n) t)

eq_of_excess : (t : Token) → excess t ≡ pos 0 → t.total_supply ≡ sum t.balances
eq_of_excess t e = grind (int_laws, sub_add t.total_supply (sum t.balances))

-- `Transfer`: the token that emitted it, from, to and value.
pub record Transfer : Type 0 where
  pub token : ℕ
  pub from : ℕ
  pub to : ℕ
  pub value : ℕ

module _ (b : BigDecimals) (contract : Erc20) where
  open b use {D}

  abbrev pub no_tokens : Tokens D
  no_tokens = record { tokens = []; allowances = λ _ _ _. none; users = [] }

  abbrev handle_transfer : Transfer → Tokens D → Tokens D
  handle_transfer x = update_balance b contract x.token x.from x.to x.value

  -- The tokens after the transfers, the last one first.
  unfoldable pub after : List Transfer → Tokens D
  after [] = no_tokens
  after (x ∷ xs) = handle_transfer x (after xs)

  excess-handle_transfer :
      (x : Transfer) (s : Tokens D) (token : ℕ)
      → excess (get_token contract token (handle_transfer x s))
        ≡ excess (get_token contract token s)
  unfolding update_balance get_token
  excess-handle_transfer x s token =
      let old = get_token contract x.token s in
      let taken = take_from x.from x.value old in
      let new = give_to x.to x.value taken in
      let found = get_token contract token (handle_transfer x s) in
      let same : excess new ≡ excess old =
        excess-give x.to x.value taken
        ∙ ap (λ z. z -ℤ pos x.value) (excess-take x.from x.value old)
        ∙ add_sub (excess old) (pos x.value) in
      elim (ℕ_discrete token x.token) [
        | yes e ↦
            let is_new : found ≡ new = ground (arith, load-save_self x.token new s.tokens) in
            ap excess is_new ∙ same ∙ ap (λ k. excess (get_token contract k s)) (sym e)
        | no ne ↦
            let is_old : found ≡ get_token contract token s =
              ground (arith, load-save_ne token x.token new s.tokens ne) in
            ap excess is_old
      ]

  excess-after :
      (xs : List Transfer) (token : ℕ) → excess (get_token contract token (after xs)) ≡ pos 0
  unfolding after get_token ◌-ℤ◌
  excess-after [] token = refl
  excess-after (x ∷ xs) token = excess-handle_transfer x (after xs) token ∙ excess-after xs token

  -- Whatever transfers of whatever tokens there have been, minting and burning included, from and to
  -- whom, to oneself too: the total supply of every token is the sum of its balances.
  pub supply-sum :
      (xs : List Transfer) (token : ℕ)
      → (get_token contract token (after xs)).total_supply
        ≡ sum (get_token contract token (after xs)).balances
  supply-sum xs token = eq_of_excess (get_token contract token (after xs)) (excess-after xs token)
