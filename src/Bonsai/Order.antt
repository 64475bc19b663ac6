-- ===== src/Bonsai/Order.antt =====
-- The bound `K: Ord` of bonsai_tree.rs, with what the trait documents of `cmp`: a total order whose
-- `Equal` is equality.
use Prim.Native.Nat.Ordering.{lt, eq, gt}
use smr_benchmark.Prelude.{ℕ, Ordering, compare, ◌≡◌, arith}

-- `Ordering::reverse`
abbrev pub reverse : Ordering → Ordering
reverse lt = gt
reverse eq = eq
reverse gt = lt

pub record Ord {ℓ} (K : Type ℓ) : Type ℓ where
  pub cmp : K → K → Ordering
  pub cmp_self : (a : K) → cmp a a ≡ eq
  pub eq_of_cmp : (a b : K) → cmp a b ≡ eq → a ≡ b
  pub cmp_reverse : (a b : K) → cmp b a ≡ reverse (cmp a b)
  pub lt_trans : (a b c : K) → cmp a b ≡ lt → cmp b c ≡ lt → cmp a c ≡ lt

infix 50 ◌≺◌
abbrev pub ◌≺◌ {ℓ} : {K : Type ℓ} ⦃o : Ord K⦄ → K → K → Type 0
◌≺◌ ⦃o⦄ a b = o.cmp a b ≡ lt

pub nat_reverse : (a b : ℕ) → compare b a ≡ reverse (compare a b)
nat_reverse a b = ground arith

pub nat_lt_trans : (a b c : ℕ) → compare a b ≡ lt → compare b c ≡ lt → compare a c ≡ lt
nat_lt_trans a b c h k = ground arith

pub nat_self : (a : ℕ) → compare a a ≡ eq
nat_self a = ground arith

pub nat_eq_of : (a b : ℕ) → compare a b ≡ eq → a ≡ b
nat_eq_of a b h = ground arith

instance abbrev pub nat_ord : Ord ℕ
nat_ord = record {
  cmp = compare;
  cmp_self = nat_self;
  eq_of_cmp = nat_eq_of;
  cmp_reverse = nat_reverse;
  lt_trans = nat_lt_trans;
}
