-- ===== src/Vbr/Bags.antt =====
-- smrs/vbr/src/lib.rs: how often a slot is in the bags, and how full these are.
use smr_benchmark.Prelude.{
  ℕ, zero, suc, ◌+◌, ◌≤◌, ◌<◌, ◌≡◌, ◌≢◌, refl, List, [], ◌∷◌, ◌++◌, arith, ltb, length, ◌==◌,
}
use smr_benchmark.Prelude.Family.{update}
use smr_benchmark.Prelude.Counting.{
  bit, count, count-append, sum_below, sum_below-update, sum_below-le,
}
use smr_benchmark.Vbr.{Bag, range, give, push_slot}
use smr_benchmark.Vbr.Runs.{new_bags, slots}

abbrev pub in_bags : List Bag → ℕ → ℕ
in_bags [] x = 0
in_bags (b ∷ bs) x = count b x + in_bags bs x

-- Every bag has at most its capacity.
abbrev pub Fit : ℕ → List Bag → Type 0
Fit cap [] = Unit
Fit cap (b ∷ bs) = (length b ≤ cap) × Fit cap bs

pub length-range : (a n : ℕ) → length (range a n) ≡ n
length-range a zero = refl
length-range a (suc n) = omega (arith, length-range (suc a) n)

pub count-range : (a n x : ℕ) → count (range a n) x + bit (ltb x a) ≡ bit (ltb x (n + a))
count-range a zero x = ground arith
count-range a (suc n) x = ground (arith, count-range (suc a) n x)

in_bags-append : (bs cs : List Bag) (x : ℕ) → in_bags (bs ++ cs) x ≡ in_bags bs x + in_bags cs x
in_bags-append [] cs x = omega arith
in_bags-append (b ∷ bs) cs x = omega (arith, in_bags-append bs cs x)

pub in_bags-middle :
    (bs : List Bag) (b : Bag) (cs : List Bag) (x : ℕ)
    → in_bags (bs ++ b ∷ cs) x ≡ count b x + in_bags (bs ++ cs) x
in_bags-middle bs b cs x = omega (arith, in_bags-append bs (b ∷ cs) x, in_bags-append bs cs x)

pub in_bags-give :
    (b : Bag) (bs : List Bag) (x : ℕ) → in_bags (give b bs) x ≡ count b x + in_bags bs x
in_bags-give [] bs x = omega arith
in_bags-give (y ∷ b) bs x = refl

pub in_bags-new :
    (n cap a x : ℕ) → in_bags (new_bags n cap a) x + bit (ltb x a) ≡ bit (ltb x (slots n cap + a))
in_bags-new zero cap a x = ground arith
in_bags-new (suc n) cap a x =
    let rest = in_bags-new n cap (cap + a) x in
    let first = count-range a cap x in
    let e : slots n cap + (cap + a) ≡ slots (suc n) cap + a = omega arith in
    ground (arith, rest, first, e)

pub Fit-middle :
    {cap : ℕ} (bs : List Bag) (b : Bag) (cs : List Bag)
    → Fit cap (bs ++ b ∷ cs)
    → (length b ≤ cap) × Fit cap (bs ++ cs)
Fit-middle [] b cs h = h
Fit-middle (c ∷ bs) b cs (h, hs) = let (f, g) = Fit-middle bs b cs hs in (f, (h, g))

pub Fit-give :
    {cap : ℕ} (b : Bag) (bs : List Bag) → length b ≤ cap → Fit cap bs → Fit cap (give b bs)
Fit-give [] bs h f = f
Fit-give (y ∷ b) bs h f = (h, f)

pub Fit-new : (n cap a : ℕ) → Fit cap (new_bags n cap a)
Fit-new zero cap a = tt
Fit-new (suc n) cap a = (omega (arith, length-range a cap), Fit-new n cap (cap + a))

length-push : (b : Bag) (x : ℕ) → length (b ++ x ∷ []) ≡ suc (length b)
length-push [] x = refl
length-push (y ∷ b) x = omega (arith, length-push b x)

-- A slot that is pushed where there is room is there.
pub count-push :
    (cap : ℕ) (b : Bag) (x y : ℕ)
    → length b < cap
    → (count (push_slot cap b x) y ≡ count b y + bit (x == y)) × (length (push_slot cap b x) ≤ cap)
count-push cap b x y lt =
    (ground (arith, lt, count-append b x y), ground (arith, lt, length-push b x))

pub length-snoc : (cap : ℕ) (b : Bag) (x : ℕ) → length b < cap → length (b ++ x ∷ []) ≤ cap
length-snoc cap b x lt = omega (arith, lt, length-push b x)

-- Two members of a family are not more than the sum.
pub sum_below-two :
    {A : Type 0} (w : A → ℕ) (f : ℕ → A) (z : A) (i j n : ℕ)
    → w z ≡ 0
    → i < n
    → j < n
    → i ≢ j
    → w (f i) + w (f j) ≤ sum_below n (λ k. w (f k))
sum_below-two w f z i j n e hi hj ne =
    let less = sum_below-update w f i z n hi in
    let other = sum_below-le w (update f i z) j n hj in
    let same : w (update f i z j) ≡ w (f j) = ground (arith, ne) in
    omega (arith, less, other, same, e)
