-- ===== src/Bonsai/State.antt =====
-- bonsai_tree.rs: `State`, the private memory of one operation, and the operations as actions on it.
use smr_benchmark.Prelude.{
  ℕ, suc, ◌≡◌, refl, Bool, true, false, if◌then◌else◌, List, [], ◌∷◌, ◌++◌, Option, none, some,
}
use smr_benchmark.Bonsai.Node.{Shared, null, node, ptr_eq}

-- `curr_root` and `new_nodes`, the address that the allocator gives next, and how often the
-- operation has read `root_link`.
pub record State {ℓ κ} (K : Type ℓ) (V : Type κ) : Type (ℓ ⊔ κ) where
  pub curr_root : Shared K V
  pub new_nodes : List (Shared K V)
  pub next_address : ℕ
  pub loads : ℕ

-- The fields behind a pointer, `Node`
pub record NodeRef {ℓ κ} (K : Type ℓ) (V : Type κ) : Type (ℓ ⊔ κ) where
  pub key : K
  pub value : V
  pub size : ℕ
  pub left : Shared K V
  pub right : Shared K V

module _ {ℓ κ} (K : Type ℓ) (V : Type κ) where
  -- `none` is a fault: a null pointer is dereferenced.
  abbrev pub M {μ} : Type μ → Type (ℓ ⊔ κ ⊔ μ)
  M A = State K V → Option (A × State K V)

module _ {ℓ κ} {K : Type ℓ} {V : Type κ} where
  abbrev pub return {μ} : {A : Type μ} → A → M K V A
  return a s = some (a, s)

  infixl 5 ◌>>=◌
  abbrev pub ◌>>=◌ {μ ν} : {A : Type μ} {B : Type ν} → M K V A → (A → M K V B) → M K V B
  ◌>>=◌ m f s = elim (m s) [ none ↦ none | some (a, t) ↦ f a t ]

  -- From any state with the root `c`, the action does not fault, leaves that root in the state, and
  -- its result satisfies `P`.
  abbrev pub Ensures {μ ν} :
      {A : Type μ} → Shared K V → M K V A → (A → Type ν) → Type (ℓ ⊔ κ ⊔ μ ⊔ ν)
  Ensures {A} c m P =
      (s : State K V)
      → s.curr_root ≡ c
      → (a : A) × (t : State K V) × (m s ≡ some (a, t)) × (t.curr_root ≡ c) × P a

  -- Some load of the root differs from `c`.
  abbrev pub Stale : (ℕ → Shared K V) → Shared K V → Type 0
  Stale root_at c = (n : ℕ) × (ptr_eq c (root_at n) ≡ false)

  -- `unsafe { node.deref() }`
  unfoldable pub deref : Shared K V → M K V (NodeRef K V)
  deref (null _) s = none
  deref (node _ _ k v n l r) s =
      some (record { key = k; value = v; size = n; left = l; right = r }, s)

  -- `State::new`; the allocator starts where it likes.
  unfoldable pub new_state : ℕ → State K V
  new_state address = record {
    curr_root = null 0;
    new_nodes = [];
    next_address = address;
    loads = 0;
  }

  -- The nodes of a failed attempt are dropped; none has been published.
  unfoldable pub abort : M K V (Unit {0})
  abort s = some (tt, record s { new_nodes = [] })

  unfoldable pub commit : M K V (Unit {0})
  commit s = some (tt, record s { new_nodes = [] })

  unfoldable pub add_new_node : Shared K V → M K V (Unit {0})
  add_new_node p s = some (tt, record s { new_nodes = s.new_nodes ++ p ∷ [] })

  -- `Shared::from_owned`
  unfoldable pub from_owned : K → V → ℕ → Shared K V → Shared K V → M K V (Shared K V)
  from_owned k v size l r s =
      some (node 0 s.next_address k v size l r, record s { next_address = suc s.next_address })

  -- `root_link.load()`: other operations may store between any two loads, so the `n`-th load of the
  -- operation gives `root_at n`.
  module _ (root_at : ℕ → Shared K V) where
    unfoldable pub load_link : M K V (Shared K V)
    load_link s = some (root_at s.loads, record s { loads = suc s.loads })

    unfoldable pub load_root : M K V (Unit {0})
    unfolding load_link
    load_root = load_link >>= λ p s. some (tt, record s { curr_root = p })

    unfoldable pub check_root : M K V Bool
    unfolding load_link
    check_root = load_link >>= λ p s. some (ptr_eq s.curr_root p, s)

  module _ (c : Shared K V) where
    pub Ensures-bind {μ ν π ρ} :
        {A : Type μ} {B : Type ν} (P : A → Type π) (Q : B → Type ρ) (m : M K V A) (f : A → M K V B)
        → Ensures c m P
        → ((a : A) → P a → Ensures c (f a) Q)
        → Ensures c (m >>= f) Q
    Ensures-bind P Q m f h k s j =
        let (a, t, e, j', p) = h s j in
        let (b, u, e', j'', q) = k a p t j' in (b, u, rw (e, ◌>>=◌) e', j'', q)

    pub Ensures-if {μ ν} :
        {A : Type μ} (P : A → Type ν) (b : Bool) (m n : M K V A)
        → (b ≡ true → Ensures c m P)
        → (b ≡ false → Ensures c n P)
        → Ensures c (if b then m else n) P
    Ensures-if P true m n h k = h refl
    Ensures-if P false m n h k = k refl

    pub Ensures-imp {μ ν π} :
        {A : Type μ} (P : A → Type ν) (Q : A → Type π) (m : M K V A)
        → ((a : A) → P a → Q a)
        → Ensures c m P
        → Ensures c m Q
    Ensures-imp P Q m f h s j = let (a, t, e, j', p) = h s j in (a, t, e, j', f a p)

    pub Ensures-return {μ ν} : {A : Type μ} (P : A → Type ν) (a : A) → P a → Ensures c (return a) P
    Ensures-return P a p s j = (a, s, refl, j, p)

    pub check_root-Ensures :
        (root_at : ℕ → Shared K V)
        → Ensures c (check_root root_at) (λ same. same ≡ false → Stale root_at c)
    unfolding check_root load_link
    check_root-Ensures root_at s j = (_, _, refl, j, λ e. (s.loads, rw (← j) e))
