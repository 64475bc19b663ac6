-- ===== src/Tagged/Laws.antt =====
-- utils.rs: the operations of `Tagged` on the parts of a word.
use native.Mathlib.Nat.{mod-lt}
use smr_benchmark.Prelude.{
  ℕ, ℕ_discrete, ◌+◌, ◌*◌, ◌/◌, ◌%◌, ◌^◌, ◌<◌, ◌≡◌, ◌≢◌, ◌&&◌, ◌==◌, true, arith, ap, ◌∙◌, sym,
}
use smr_benchmark.Tagged.{
  Tagged, IsWord, high_tag, with_high_tag, tagged_eq, hash_input, tag, as_raw, with_tag,
}
use smr_benchmark.Tagged.Parts.{below, whole-div, whole-mod, parts}

module _ (align multiples : ℕ) (positive : 0 < align) (fills : multiples * align ≡ 2 ^ 60) where
  -- The word in parts, and what the operations read off it
  record Split (p : Tagged) (high m low : ℕ) : Type 0 where
    cut : p.bits ≡ high * 2 ^ 60 + (m * align + low)
    m_fits : m < multiples
    low_fits : low < align
    fits : m * align + low < 2 ^ 60
    raw_fits : m * align < 2 ^ 60
    tags : tag align p ≡ low
    quotient : p.bits / align * align ≡ high * 2 ^ 60 + m * align
    raw : (as_raw align p).bits ≡ m * align
    high_tags : high_tag p ≡ high % 16

  at_parts :
      (p : Tagged) (high m low : ℕ)
      → p.bits ≡ high * 2 ^ 60 + (m * align + low)
      → m < multiples
      → low < align
      → Split p high m low
  unfolding tag as_raw high_tag
  at_parts p high m low e h l =
      let small = below align multiples positive fills m low h l in
      let quotient : p.bits / align * align ≡ high * 2 ^ 60 + m * align =
        ap (λ b. b / align * align) e
        ∙ omega (
          arith,
          ap (λ (t : ℕ). t * align) (whole-div align multiples positive fills high m low l),
          ap (λ (t : ℕ). high * t) fills,
        ) in
      record {
        cut = e;
        m_fits = h;
        low_fits = l;
        fits = small;
        raw_fits = omega (arith, small);
        tags = ap (λ b. b % align) e ∙ whole-mod align multiples positive fills high m low l;
        quotient = quotient;
        raw = ap (λ b. b % 2 ^ 60) quotient ∙ omega (arith, small);
        high_tags = omega (arith, small, e);
      }

  split : (p : Tagged) → (high : ℕ) × (m : ℕ) × (low : ℕ) × Split p high m low
  split p =
      let (high, m, low, e, h, l) = parts align multiples positive fills p.bits in
      (high, m, low, at_parts p high m low e h l)

  -- A new low tag is cut to the bits below the alignment, and leaves the address and the high tag; a
  -- word stays a word.
  with_tag_lem :
      (p : Tagged) (t : ℕ)
      → IsWord p
      → (tag align (with_tag align p t) ≡ t % align)
        × ((as_raw align (with_tag align p t)).bits ≡ (as_raw align p).bits)
        × (high_tag (with_tag align p t) ≡ high_tag p)
        × IsWord (with_tag align p t)
  unfolding with_tag
  with_tag_lem p t w =
      let (high, m, low, s) = split p in
      let l : t % align < align = mod-lt t positive in
      let s' =
        at_parts (with_tag align p t) high m (t % align) (omega (arith, s.quotient)) s.m_fits l in
      (
        s'.tags,
        s'.raw ∙ sym s.raw,
        s'.high_tags ∙ sym s.high_tags,
        omega (arith, w, s.cut, s.fits, s'.cut, s'.fits),
      )

  -- A new high tag is cut to four bits, and leaves the address and the low tag; the result is a word.
  with_high_tag_lem :
      (p : Tagged) (t : ℕ)
      → (high_tag (with_high_tag p t) ≡ t % 16)
        × ((as_raw align (with_high_tag p t)).bits ≡ (as_raw align p).bits)
        × (tag align (with_high_tag p t) ≡ tag align p)
        × IsWord (with_high_tag p t)
  unfolding with_high_tag
  with_high_tag_lem p t =
      let (high, m, low, s) = split p in
      let s' =
        at_parts (with_high_tag p t) (t % 16) m low (omega (arith, s.cut, s.fits)) s.m_fits
          s.low_fits in
      (s'.high_tags ∙ omega arith, s'.raw ∙ sym s.raw, s'.tags ∙ sym s.tags, omega arith)

  -- `==` compares the address and the low tag, and not the high tag.
  tagged_eq_lem :
      (p q : Tagged)
      → tagged_eq p q
        ≡ ((as_raw align p).bits == (as_raw align q).bits && tag align p == tag align q)
  unfolding tagged_eq with_high_tag
  tagged_eq_lem p q =
      let keeps = with_high_tag_lem p 0 in
      let keeps' = with_high_tag_lem q 0 in
      let (high, m, low, s) = split p in
      let (high', m', low', s') = split q in
      elim (ℕ_discrete (with_high_tag p 0).bits (with_high_tag q 0).bits) [
        | yes e ↦
            let raws = ap (λ (b : ℕ). (as_raw align (record { bits = b })).bits) e in
            let tags = ap (λ (b : ℕ). tag align (record { bits = b })) e in
            ground (arith, e, raws, tags, keeps.1, keeps.2, keeps'.1, keeps'.2)
        | no n ↦ ground (arith, n, s.raw, s.tags, s.cut, s.fits, s'.raw, s'.tags, s'.cut, s'.fits)
      ]

-- Two pointers that are equal, and that hash differently: a word with a high tag, and the same word
-- without it.
pub hash_differs :
    (p : Tagged)
    → high_tag p ≢ 0
    → (tagged_eq p (with_high_tag p 0) ≡ true) × (hash_input p ≢ hash_input (with_high_tag p 0))
unfolding tagged_eq with_high_tag hash_input high_tag
hash_differs p h = (ground arith, λ e. h (omega (arith, e)))
