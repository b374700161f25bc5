-- ===== src/Batching/Waiting.antt =====
-- What the promises of a batching provider wait for, and what settles them rightly.
use mathlib.Core.Path.{subst}
use Prim.Native.String.{String}
use liquity.Common.{
  ℕ, ◌≡◌, sym, ap, ◌∙◌, Option, some, List, [], ◌∷◌, ◌++◌, Error, Result, ok, ok-injective, bind-ok,
}
use liquity.Readers.Cached.{map_results}
use liquity.Readers.Ethers.{BlockTag}
use liquity.Batching.{CallRequest, bare, Network, BatchedCalls}
use liquity.Batching.World.{Ask, resolve_each, reject_each}

module _ (net : Network) where
  -- The promise was made for a call that by itself answers s.
  abbrev pub Answered : List Ask → ℕ → String → Type 0
  Answered asked p s =
      (a : Ask) × (front : List Ask) × (back : List Ask) × (asked ≡ front ++ a ∷ back)
      × (a.promise ≡ p)
      × (net.call a.request a.tag ≡ ok s)

  -- It was made for a call that by itself has the result of c at the tag.
  abbrev pub Waiting : List Ask → Option BlockTag → CallRequest → ℕ → Type 0
  Waiting asked tag c p =
      (a : Ask) × (front : List Ask) × (back : List Ask) × (asked ≡ front ++ a ∷ back)
      × (a.promise ≡ p)
      × (net.call a.request a.tag ≡ net.call (bare c) tag)

  unfoldable pub WaitAll : List Ask → Option BlockTag → List CallRequest → List ℕ → Type 0
  WaitAll asked tag [] [] = Unit
  WaitAll asked tag [] (p ∷ ps) = ⊥
  WaitAll asked tag (c ∷ cs) [] = ⊥
  WaitAll asked tag (c ∷ cs) (p ∷ ps) = Waiting asked tag c p × WaitAll asked tag cs ps

  -- Each promise that is resolved is resolved with such an answer.
  abbrev pub Right : List Ask → ℕ → Result (Option String) → Type 0
  Right asked p outcome =
      (v : Option String) → outcome ≡ ok v → (s : String) × (v ≡ some s) × Answered asked p s

  unfoldable pub AllRight : List Ask → List (ℕ × Result (Option String)) → Type 0
  AllRight asked [] = Unit
  AllRight asked ((p, outcome) ∷ s) = Right asked p outcome × AllRight asked s

  unfoldable pub AllWait : List Ask → List BatchedCalls → Type 0
  AllWait asked [] = Unit
  AllWait asked (b ∷ bs) = WaitAll asked b.block_tag b.calls b.callbacks × AllWait asked bs

  Waiting-more :
      (asked : List Ask) (x : Ask) (tag : Option BlockTag) (c : CallRequest) (p : ℕ)
      → Waiting asked tag c p
      → Waiting (x ∷ asked) tag c p
  Waiting-more asked x tag c p (a, front, back, e, f, g) =
      (a, x ∷ front, back, ap (λ l. x ∷ l) e, f, g)

  pub WaitAll-more :
      (asked : List Ask) (x : Ask) (tag : Option BlockTag) (cs : List CallRequest) (ps : List ℕ)
      → WaitAll asked tag cs ps
      → WaitAll (x ∷ asked) tag cs ps
  unfolding WaitAll
  WaitAll-more asked x tag [] [] h = tt
  WaitAll-more asked x tag [] (p ∷ ps) h = absurd h
  WaitAll-more asked x tag (c ∷ cs) [] h = absurd h
  WaitAll-more asked x tag (c ∷ cs) (p ∷ ps) (w, h) =
      (Waiting-more asked x tag c p w, WaitAll-more asked x tag cs ps h)

  pub WaitAll-snoc :
      (asked : List Ask) (tag : Option BlockTag) (cs : List CallRequest) (ps : List ℕ)
      (c : CallRequest) (p : ℕ)
      → WaitAll asked tag cs ps
      → Waiting asked tag c p
      → WaitAll asked tag (cs ++ c ∷ []) (ps ++ p ∷ [])
  unfolding WaitAll
  WaitAll-snoc asked tag [] [] c p h w = (w, tt)
  WaitAll-snoc asked tag [] (q ∷ ps) c p h w = absurd h
  WaitAll-snoc asked tag (d ∷ cs) [] c p h w = absurd h
  WaitAll-snoc asked tag (d ∷ cs) (q ∷ ps) c p (v, h) w = (v, WaitAll-snoc asked tag cs ps c p h w)

  pub AllRight-more :
      (asked : List Ask) (x : Ask) (s : List (ℕ × Result (Option String)))
      → AllRight asked s
      → AllRight (x ∷ asked) s
  unfolding AllRight
  AllRight-more asked x [] h = tt
  AllRight-more asked x ((p, outcome) ∷ s) (r, h) = (
    λ v e.
        let (t, f, (a, front, back, g, i, j)) = r v e in
        (t, f, (a, x ∷ front, back, ap (λ l. x ∷ l) g, i, j)),
    AllRight-more asked x s h,
  )

  pub AllRight-append :
      (asked : List Ask) (s t : List (ℕ × Result (Option String)))
      → AllRight asked s
      → AllRight asked t
      → AllRight asked (s ++ t)
  unfolding AllRight
  AllRight-append asked [] t h k = k
  AllRight-append asked ((p, outcome) ∷ s) t (r, h) k = (r, AllRight-append asked s t h k)

  pub AllWait-more :
      (asked : List Ask) (x : Ask) (bs : List BatchedCalls)
      → AllWait asked bs
      → AllWait (x ∷ asked) bs
  unfolding AllWait
  AllWait-more asked x [] h = tt
  AllWait-more asked x (b ∷ bs) (w, h) =
      (WaitAll-more asked x b.block_tag b.calls b.callbacks w, AllWait-more asked x bs h)

  pub AllWait-middle :
      (asked : List Ask) (front back : List BatchedCalls) (b : BatchedCalls)
      → AllWait asked (front ++ b ∷ back)
      → WaitAll asked b.block_tag b.calls b.callbacks × AllWait asked (front ++ back)
  unfolding AllWait
  AllWait-middle asked [] back b h = h
  AllWait-middle asked (f ∷ front) back b (w, h) =
      let (v, k) = AllWait-middle asked front back b h in (v, (w, k))

  pub reject_each-AllRight :
      (asked : List Ask) (ps : List ℕ) (e : Error) → AllRight asked (reject_each net ps e)
  unfolding AllRight
  reject_each-AllRight asked [] e = tt
  reject_each-AllRight asked (p ∷ ps) e = (λ v h. absurd cc, reject_each-AllRight asked ps e)

  pub resolve_each-AllRight :
      (asked : List Ask) (tag : Option BlockTag) (cs : List CallRequest) (ps : List ℕ)
      (rs : List String)
      → WaitAll asked tag cs ps
      → map_results (λ c. net.call (bare c) tag) cs ≡ ok rs
      → AllRight asked (resolve_each net ps rs)
  unfolding AllRight WaitAll map_results
  resolve_each-AllRight asked tag [] [] rs h e = tt
  resolve_each-AllRight asked tag [] (p ∷ ps) rs h e = absurd h
  resolve_each-AllRight asked tag (c ∷ cs) [] rs h e = absurd h
  resolve_each-AllRight asked tag (c ∷ cs) (p ∷ ps) rs (w, h) e =
      let (s, e0, f0) = bind-ok (net.call (bare c) tag) e in
      let (rest, e1, f1) = bind-ok (map_results (λ c. net.call (bare c) tag) cs) f0 in
      subst (λ rs. AllRight asked (resolve_each net (p ∷ ps) rs)) (ok-injective f1)
        (first s e0 w, resolve_each-AllRight asked tag cs ps rest h e1)
    where
      first :
          (s : String)
          → net.call (bare c) tag ≡ ok s
          → Waiting asked tag c p
          → Right asked p (ok (some s))
      first s e0 (a, front, back, g, i, j) v e =
          (s, sym (ok-injective e), (a, front, back, g, i, j ∙ e0))
