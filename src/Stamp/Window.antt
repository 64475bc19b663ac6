-- ===== src/Stamp/Window.antt =====
-- ebr.rs: the order of the stamped epochs.
use smr_benchmark.Prelude.{
  ℕ, ◌+◌, ◌-◌, ◌%◌, ◌^◌, ◌≤◌, ◌<◌, ◌≡◌, Bool, true, ◌||◌, ◌⊎◌, leb, if◌then◌else◌, arith, ◌∙◌, [],
  ◌∷◌,
}
use smr_benchmark.Prelude.Int.{pos, negsuc, leb_ℤ}
use smr_benchmark.Stamp.{
  of_sub, trans, inver, le, max_from, modular_max, reclaims_now, release_next, epoch, strong,
  with_epoch, sub_strong,
}

-- On stamps and epochs below the maximum, `trans` gives the age, negated.
trans_lem :
    (max stamp : ℕ) → stamp ≤ max → trans max (pos stamp) ≡ of_sub 0 ((max + 1 - stamp) % 2 ^ 4)
unfolding trans
trans_lem max stamp h = ground arith

bound_lem : (curr : ℕ) → trans (curr + 1) (of_sub curr 3) ≡ negsuc 4
unfolding trans
bound_lem curr = ground arith

-- The stamp of an epoch that is at most one ahead of the current one: a node that
-- `dispose_general_node` or `dispose_list` reclaims at once is the root of the disposal, or its epoch
-- is three behind, at the least, though the stamp has but four bits.
pub reclaims_now-behind :
    (is_root : Bool) (old curr : ℕ)
    → old ≤ curr + 1
    → reclaims_now is_root (old % 2 ^ 4) curr ≡ true
    → (is_root ≡ true) ⊎ (old + 3 ≤ curr)
unfolding reclaims_now le
reclaims_now-behind is_root old curr h r =
    ground (arith, r, trans_lem (curr + 1) (old % 2 ^ 4) (omega (arith, h)), bound_lem curr)

-- If the epoch of the stamp is at most one ahead of the current one, and less than 16 behind the next
-- but one, a node is reclaimed at once exactly when it is the root of the disposal or its epoch is
-- three behind the current one, at the least.
pub reclaims_now_lem :
    (is_root : Bool) (old curr : ℕ)
    → old ≤ curr + 1
    → curr + 2 < old + 16
    → reclaims_now is_root (old % 2 ^ 4) curr ≡ (is_root || leb (old + 3) curr)
unfolding reclaims_now le
reclaims_now_lem is_root old curr h w =
    ground (arith, trans_lem (curr + 1) (old % 2 ^ 4) (omega (arith, h)), bound_lem curr)

-- The later of two epochs
abbrev pub later_of : ℕ → ℕ → ℕ
later_of a b = if leb a b then b else a

trans_window :
    (max old : ℕ)
    → old ≤ max
    → max < old + 15
    → trans max (pos (old % 2 ^ 4 % 2 ^ 4)) ≡ negsuc (max - old)
trans_window max old h w =
    trans_lem max (old % 2 ^ 4 % 2 ^ 4) (omega (arith, h)) ∙ ground (arith, h, w)

merge :
    (max a b : ℕ)
    → a ≤ max
    → b ≤ max
    → (if leb_ℤ (negsuc (max - a)) (negsuc (max - b)) then negsuc (max - b) else negsuc (max - a))
      ≡ negsuc (max - later_of a b)
merge max a b h k = ground (arith, h, k)

inver_window : (max old : ℕ) → old ≤ max → inver max (negsuc (max - old)) ≡ pos (old % 2 ^ 4)
unfolding inver
inver_window max old h = ground (arith, h)

-- The merge of the stamps of three epochs in the window is the stamp of the latest.
modular_max_lem :
    (max a b c : ℕ)
    → (a ≤ max) × (b ≤ max) × (c ≤ max)
    → (max < a + 15) × (max < b + 15) × (max < c + 15)
    → modular_max max (a % 2 ^ 4) (b % 2 ^ 4 ∷ c % 2 ^ 4 ∷ [])
      ≡ pos (later_of (later_of a b) c % 2 ^ 4)
unfolding modular_max max_from
modular_max_lem max a b c (ha, hb, hc) (wa, wb, wc) =
    rw
      (
        trans_window max a ha wa,
        trans_window max b hb wb,
        trans_window max c hc wc,
        merge max a b ha hb,
      )
      (rw (merge max (later_of a b) c (ground (arith, ha, hb)) hc)
        (inver_window max (later_of (later_of a b) c) (ground (arith, ha, hb, hc))))

epoch-with_epoch : (word stamp : ℕ) → epoch (with_epoch word stamp) ≡ stamp % 2 ^ 4
unfolding epoch with_epoch
epoch-with_epoch word stamp = omega arith

strong-with_epoch : (word stamp : ℕ) → strong (with_epoch word stamp) ≡ strong word
unfolding strong with_epoch
strong-with_epoch word stamp = omega arith

strong-sub_strong :
    (word : ℕ) → word < 2 ^ 64 → 1 ≤ strong word → strong (sub_strong word 1) ≡ strong word - 1
unfolding strong sub_strong
strong-sub_strong word h one = omega (arith, h, one)

-- The stamp that a node leaves to the next is that of the latest of three epochs, that of the node, of
-- the link and of the next node, if none is more than one ahead of the current one, or 14 behind it;
-- and one count is taken.
release_next_lem :
    (curr a b c word : ℕ)
    → (a ≤ curr + 1) × (b ≤ curr + 1) × (c ≤ curr + 1)
    → (curr < a + 14) × (curr < b + 14) × (curr < c + 14)
    → word < 2 ^ 64
    → 1 ≤ strong word
    → epoch word ≡ c % 2 ^ 4
    → (epoch (release_next curr (a % 2 ^ 4) (b % 2 ^ 4) word) ≡ later_of (later_of a b) c % 2 ^ 4)
      × (strong (release_next curr (a % 2 ^ 4) (b % 2 ^ 4) word) ≡ strong word - 1)
unfolding release_next
release_next_lem curr a b c word (ha, hb, hc) (wa, wb, wc) lt one stamp = (
  rw
      (
        stamp,
        modular_max_lem (curr + 1) a b c (ha, hb, hc)
            (omega (arith, wa), omega (arith, wb), omega (arith, wc)),
      )
      (epoch-with_epoch (sub_strong word 1) (later_of (later_of a b) c % 2 ^ 4) ∙ omega arith),
  strong-with_epoch (sub_strong word 1) _ ∙ strong-sub_strong word lt one,
)
