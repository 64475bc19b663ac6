-- ===== src/Tagged/Parts.antt =====
-- utils.rs: a tagged word in parts, the high tag, the multiple of the alignment and the low tag.
use native.Mathlib.Nat.{
  mul-add-div_right, mul-le-mul_right, div-lt_iff_lt-mul, div-eq_of_lt, div-add-mod', mod-lt,
}
use smr_benchmark.Prelude.{ℕ, suc, ◌+◌, ◌*◌, ◌/◌, ◌%◌, ◌^◌, ◌<◌, ◌≤◌, ◌≡◌, ◌∙◌, arith, ap}

-- The alignment is one of `2 ^ 0` to `2 ^ 60`: `multiples` of it fill the bits below the high tag.
module _ (align multiples : ℕ) (positive : 0 < align) (fills : multiples * align ≡ 2 ^ 60) where
  abbrev pub whole : ℕ → ℕ → ℕ → ℕ
  whole high m low = high * 2 ^ 60 + (m * align + low)

  pub below : (m low : ℕ) → m < multiples → low < align → m * align + low < 2 ^ 60
  below m low h l =
      let room : suc m * align ≤ multiples * align = mul-le-mul_right align (omega (arith, h)) in
      omega (arith, room, fills, l)

  regroup : (high m low : ℕ) → whole high m low ≡ (high * multiples + m) * align + low
  regroup high m low = omega (arith, ap (λ (t : ℕ). high * t) fills)

  pub whole-div : (high m low : ℕ) → low < align → whole high m low / align ≡ high * multiples + m
  whole-div high m low l =
      ap (λ b. b / align) (regroup high m low)
      ∙ mul-add-div_right positive (high * multiples + m) low
      ∙ omega (arith, div-eq_of_lt l)

  pub whole-mod : (high m low : ℕ) → low < align → whole high m low % align ≡ low
  whole-mod high m low l =
      let q = high * multiples + m in
      let again : whole high m low / align * align ≡ q * align =
        ap (λ (t : ℕ). t * align) (whole-div high m low l) in
      omega (arith, again, regroup high m low, div-add-mod' (whole high m low) align)

  -- Every number is the whole of its parts.
  pub parts :
      (b : ℕ)
      → (high : ℕ) × (m : ℕ) × (low : ℕ) × (b ≡ whole high m low) × (m < multiples) × (low < align)
  parts b =
      let rest = b % 2 ^ 60 in
      (
        b / 2 ^ 60,
        rest / align,
        rest % align,
        omega (arith, div-add-mod' rest align),
        (div-lt_iff_lt-mul positive).1 (omega (arith, fills)),
        mod-lt rest positive,
      )
