-- ===== src/Vbr/Words.antt =====
-- smrs/vbr/src/lib.rs: the word of a link, a version above a pointer, and the tag in the low bits of
-- a pointer.
use native.Mathlib.Nat.{mul-add-div_right, div-eq_of_lt, div-add-mod', mod-lt}
use smr_benchmark.Prelude.{ℕ, ◌+◌, ◌*◌, ◌/◌, ◌%◌, ◌^◌, ◌<◌, ◌≡◌, arith, ap, ◌∙◌}

-- `compose_u128`, where a `u64` is shifted into a `u128`, and the pointer fills the low bits
abbrev pub compose_u128 : (meta ptr : ℕ) → ℕ
compose_u128 meta ptr = meta * 18446744073709551616 % 2 ^ 128 + ptr % 18446744073709551616

-- `decompose_u128`
abbrev pub decompose_u128 : ℕ → ℕ × ℕ
decompose_u128 value =
    (value / 18446744073709551616 % 18446744073709551616, value % 18446744073709551616)

-- `ptr_with_tag`, where `& !low_bits` is `/ align * align`, and `& low_bits` is `% align`, as the
-- alignment of a type is a power of two
abbrev pub ptr_with_tag : (align ptr tag : ℕ) → ℕ
ptr_with_tag align ptr tag = ptr / align * align + tag % align

abbrev pub decompose_ptr : (align ptr : ℕ) → ℕ × ℕ
decompose_ptr align ptr = (ptr / align * align, ptr % align)

div_part : (align q r : ℕ) → 0 < align → r < align → (q * align + r) / align ≡ q
div_part align q r pos lt = mul-add-div_right pos q r ∙ omega (arith, div-eq_of_lt lt)

-- A tag that is put into a pointer is read again, cut to the bits that the alignment leaves, and the
-- pointer without its tag is as before.
decompose-ptr_with_tag :
    (align ptr tag : ℕ)
    → 0 < align
    → decompose_ptr align (ptr_with_tag align ptr tag) ≡ (ptr / align * align, tag % align)
decompose-ptr_with_tag align ptr tag pos =
    let d = div_part align (ptr / align) (tag % align) pos (mod-lt tag pos) in
    let w = ptr_with_tag align ptr tag in
    let e : w / align * align ≡ ptr / align * align = ap (λ (q : ℕ). q * align) d in
    let whole = div-add-mod' w align in
    let r : w % align ≡ tag % align = omega (arith, e, whole) in ground (arith, e, r)

-- The version and the pointer that are put into a word of a link are read again.
decompose-compose :
    (meta ptr : ℕ)
    → meta < 18446744073709551616
    → ptr < 18446744073709551616
    → decompose_u128 (compose_u128 meta ptr) ≡ (meta, ptr)
decompose-compose meta ptr hm hp = ground arith
