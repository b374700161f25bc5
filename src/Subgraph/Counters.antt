-- ===== src/Subgraph/Counters.antt =====
-- The counters of `Global` against the statuses of the Troves.
use mathlib.Core.Path.{subst}
use liquity.Common.{
  ℕ, suc, ◌+◌, ◌≡◌, refl, sym, ◌∙◌, arith, true, ◌||◌, List, [], ◌∷◌, ◌++◌, if◌then◌else◌,
}
use liquity.Subgraph.{
  Global, new_global, Status, open_trove, closed_by_owner, closed_by_liquidation,
  closed_by_redemption, same, set_trove_status, Index, create_trove,
}

-- How many Troves have a status.
abbrev pub count : Status → List Status → ℕ
count x [] = 0
count x (y ∷ ys) = (if same x y then 1 else 0) + count x ys

abbrev pub length : List Status → ℕ
length [] = 0
length (y ∷ ys) = suc (length ys)

-- Every counter is the number of the Troves of its status, and the total that of all Troves.
pub record IsCounted (s : Index) : Type 0 where
  pub open_troves : s.global.number_of_open_troves ≡ count open_trove s.troves
  pub liquidated : s.global.number_of_liquidated_troves ≡ count closed_by_liquidation s.troves
  pub redeemed : s.global.number_of_redeemed_troves ≡ count closed_by_redemption s.troves
  pub closed : s.global.number_of_troves_closed_by_owner ≡ count closed_by_owner s.troves
  pub total : s.global.total_number_of_troves ≡ length s.troves

-- The index after `setTroveStatus` of one of its Troves.
abbrev pub with_status : Index → List Status → Status → Status → List Status → Index
with_status s front before status back = record {
  global = set_trove_status status before s.global;
  troves = front ++ status ∷ back;
}

-- A Trove is not closed in one way after it was closed in another.
abbrev pub IsOrderly : Status → Status → Type 0
IsOrderly before status =
    (same before open_trove || same status open_trove || same status before) ≡ true

pub data Step (s : Index) : Index → Type 0 where
  creates : Step s (create_trove s)
  sets :
      (front : List Status) (before status : Status) (back : List Status)
      → s.troves ≡ front ++ before ∷ back
      → IsOrderly before status
      → Step s (with_status s front before status back)

pub data Reach (s : Index) : Index → Type 0 where
  here : Reach s s
  next : {t u : Index} → Reach s t → Step t u → Reach s u

count-++ :
    (x : Status) (front : List Status) (y : Status) (back : List Status)
    → count x (front ++ y ∷ back) ≡ count x front + ((if same x y then 1 else 0) + count x back)
count-++ x [] y back = omega arith
count-++ x (f ∷ front) y back = omega (arith, count-++ x front y back)

length-++ :
    (front : List Status) (y : Status) (back : List Status)
    → length (front ++ y ∷ back) ≡ suc (length front + length back)
length-++ [] y back = omega arith
length-++ (f ∷ front) y back = omega (arith, length-++ front y back)

-- The numbers that the counters have to match.
abbrev pub Matches : Global → (Status → ℕ) → ℕ → Type 0
Matches g counts n =
    (g.number_of_open_troves ≡ counts open_trove)
    × (g.number_of_liquidated_troves ≡ counts closed_by_liquidation)
    × (g.number_of_redeemed_troves ≡ counts closed_by_redemption)
    × (g.number_of_troves_closed_by_owner ≡ counts closed_by_owner)
    × (g.total_number_of_troves ≡ n)

-- The counters after one Trove's status has been set, all others (the numbers of f) staying.
abbrev pub with_one : (Status → ℕ) → Status → Status → ℕ
with_one f y x = f x + (if same x y then 1 else 0)

pub set-Matches :
    (f : Status → ℕ) (n : ℕ) (before status : Status) (g : Global)
    → IsOrderly before status
    → Matches g (with_one f before) n
    → Matches (set_trove_status status before g) (with_one f status) n
unfolding set_trove_status
set-Matches f n open_trove status g orderly h = ground arith
set-Matches f n closed_by_owner status g orderly h = ground arith
set-Matches f n closed_by_liquidation status g orderly h = ground arith
set-Matches f n closed_by_redemption status g orderly h = ground arith

others : List Status → List Status → Status → ℕ
others front back x = count x front + count x back

count-one :
    (front : List Status) (y : Status) (back : List Status) (x : Status)
    → count x (front ++ y ∷ back) ≡ with_one (others front back) y x
unfolding others
count-one front y back x = omega (arith, count-++ x front y back)

abbrev in_list :
    (g : Global) (l : List Status)
    → IsCounted (record { global = g; troves = l })
    → Matches g (λ x. count x l) (length l)
in_list g l h = (h.open_troves, h.liquidated, h.redeemed, h.closed, h.total)

abbrev of_list :
    (g : Global) (l : List Status)
    → Matches g (λ x. count x l) (length l)
    → IsCounted (record { global = g; troves = l })
of_list g l m = record {
  open_troves = m.0;
  liquidated = m.1;
  redeemed = m.2;
  closed = m.3;
  total = m.4;
}

recounted :
    (g : Global) (front : List Status) (before status : Status) (back : List Status)
    → IsOrderly before status
    → IsCounted (record { global = g; troves = front ++ before ∷ back })
    → IsCounted
        (record { global = set_trove_status status before g; troves = front ++ status ∷ back })
recounted g front before status back orderly h =
    let counts : (y : Status)
        → (λ x. count x (front ++ y ∷ back)) ≡ with_one (others front back) y =
      λ y i x. count-one front y back x i in
    let n : length (front ++ status ∷ back) ≡ length (front ++ before ∷ back) =
      length-++ front status back ∙ sym (length-++ front before back) in
    let m = in_list g (front ++ before ∷ back) h in
    let m' = subst (λ c. Matches g c (length (front ++ before ∷ back))) (counts before) m in
    let k = set-Matches (others front back) _ before status g orderly m' in
    of_list (set_trove_status status before g) (front ++ status ∷ back) (
      subst (λ c. Matches (set_trove_status status before g) c (length (front ++ status ∷ back)))
        (sym (counts status))
        (subst
          (λ x. Matches (set_trove_status status before g) (with_one (others front back) status) x)
          (sym n) k))

Step-IsCounted : {s t : Index} → Step s t → IsCounted s → IsCounted t
unfolding create_trove
Step-IsCounted {s} creates h = ground arith
Step-IsCounted {s} (sets front before status back e orderly) h =
    recounted s.global front before status back orderly
      (subst (λ l. IsCounted (record { global = s.global; troves = l })) e h)

-- Starting without Troves, however they are created, closed and reopened, as long as none is closed
-- in one way after it was closed in another: every counter is the number of the Troves that have
-- its status, and the total is that of all Troves.
pub Reach-IsCounted :
    {s : Index} → Reach (record { global = new_global; troves = [] }) s → IsCounted s
Reach-IsCounted here = record {
  open_troves = refl;
  liquidated = refl;
  redeemed = refl;
  closed = refl;
  total = refl;
}
Reach-IsCounted (next r step) = Step-IsCounted step (Reach-IsCounted r)
