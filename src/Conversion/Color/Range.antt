-- ===== src/Conversion/Color/Range.antt =====
-- The ranges of the colour arithmetic, and what happens to greys.
use vision_flow.Base.{ℕ, ◌+◌, ◌-◌, ◌*◌, ◌/◌, ◌≤◌, ◌≡◌, refl, ap, ◌∙◌, subst, sym, arith}
use vision_flow.Base.Int.{
  ℤ, pos, negsuc, ◌+ℤ◌, ◌-ℤ◌, ◌*ℤ◌, pos_part, neg_part, int_laws, eq_of_parts,
}
use vision_flow.Conversion.Color.{
  clip_u8, shr8, rgb_to_y, rgb_to_u, rgb_to_v, yuv_to_r, yuv_to_g, yuv_to_b,
}

abbrev pub Within : ℕ → ℕ → ℕ → Type 0
Within low high x = (low ≤ x) × (x ≤ high)

luma_lem :
    (t : ℤ)
    → neg_part t ≤ pos_part t
    → pos_part t ≤ 56228
    → Within 16 235 (clip_u8 (shr8 t +ℤ pos 16))
unfolding clip_u8 shr8 ◌+ℤ◌
luma_lem (pos n) h k = ground arith
luma_lem (negsuc n) h k = ground arith

chroma_lem :
    (t : ℤ)
    → pos_part t ≤ neg_part t + 28688
    → neg_part t ≤ pos_part t + 28560
    → Within 16 240 (clip_u8 (shr8 t +ℤ pos 128))
unfolding clip_u8 shr8 ◌+ℤ◌
chroma_lem (pos n) h k = ground arith
chroma_lem (negsuc n) h k = ground arith

-- For 8-bit red, green and blue, the luma lies between 16 and 235 and both chromas between 16 and 240,
-- the ranges of BT.601, so that the clip to 8 bits changes none of them.
pub rgb_ranges :
    (r g b : ℕ)
    → r ≤ 255
    → g ≤ 255
    → b ≤ 255
    → Within 16 235 (rgb_to_y r g b)
      × Within 16 240 (rgb_to_u r g b)
      × Within 16 240 (rgb_to_v r g b)
unfolding rgb_to_y rgb_to_u rgb_to_v
rgb_ranges r g b hr hg hb =
    let whole : pos (66 * r) +ℤ pos (129 * g) +ℤ pos (25 * b) +ℤ pos 128
        ≡ pos (66 * r + 129 * g + 25 * b + 128) =
      eq_of_parts _ _ (omega int_laws) in
    (
      subst (λ t. Within 16 235 (clip_u8 (shr8 t +ℤ pos 16))) (sym whole)
          (luma_lem (pos (66 * r + 129 * g + 25 * b + 128)) (omega arith) (omega arith)),
      chroma_lem _ (omega int_laws) (omega int_laws),
      chroma_lem _ (omega int_laws) (omega int_laws),
    )

times_lem : (a c : ℕ) → pos a *ℤ pos c ≡ pos (a * c)
unfolding ◌*ℤ◌
times_lem a c = eq_of_parts _ _ (ground arith)

grey_u : (k : ℕ) → rgb_to_u k k k ≡ 128
unfolding rgb_to_u clip_u8 shr8 ◌+ℤ◌
grey_u k =
    let grey : pos 0 -ℤ pos (38 * k) -ℤ pos (74 * k) +ℤ pos (112 * k) +ℤ pos 128 ≡ pos 128 =
      eq_of_parts _ _ (omega int_laws) in
    ap (λ t. clip_u8 (shr8 t +ℤ pos 128)) grey

grey_v : (k : ℕ) → rgb_to_v k k k ≡ 128
unfolding rgb_to_v clip_u8 shr8 ◌+ℤ◌
grey_v k =
    let grey : pos (112 * k) -ℤ pos (94 * k) -ℤ pos (18 * k) +ℤ pos 128 ≡ pos 128 =
      eq_of_parts _ _ (omega int_laws) in
    ap (λ t. clip_u8 (shr8 t +ℤ pos 128)) grey

luma_back :
    (k : ℕ)
    → k ≤ 255
    → pos (clip_u8 (shr8 (pos (220 * k + 128)) +ℤ pos 16)) -ℤ pos 16 ≡ pos ((220 * k + 128) / 256)
unfolding clip_u8 shr8 ◌+ℤ◌ ◌-ℤ◌
luma_back k h = ground arith

grey_y : (k : ℕ) → k ≤ 255 → pos (rgb_to_y k k k) -ℤ pos 16 ≡ pos ((220 * k + 128) / 256)
unfolding rgb_to_y
grey_y k h =
    let whole = eq_of_parts _ (pos (220 * k + 128)) (omega int_laws) in
    ap (λ t. pos (clip_u8 (shr8 t +ℤ pos 16)) -ℤ pos 16) whole ∙ luma_back k h

no_chroma : pos 128 -ℤ pos 128 ≡ pos 0
unfolding ◌-ℤ◌
no_chroma = refl

-- The three components of a grey, from the luma less 16.
abbrev level : ℕ → ℕ
level c = clip_u8 (shr8 (pos (298 * c + 128)))

grey_back :
    (c : ℕ)
    → (yuv_to_r (pos c) (pos 0) ≡ level c)
      × (yuv_to_g (pos c) (pos 0) (pos 0) ≡ level c)
      × (yuv_to_b (pos c) (pos 0) ≡ level c)
unfolding yuv_to_r yuv_to_g yuv_to_b
grey_back c = (
  ap (λ t. clip_u8 (shr8 t))
      (rw (times_lem 298 c, times_lem 409 0) (eq_of_parts _ _ (omega int_laws))),
  ap (λ t. clip_u8 (shr8 t))
      (rw (times_lem 298 c, times_lem 100 0, times_lem 208 0) (eq_of_parts _ _ (omega int_laws))),
  ap (λ t. clip_u8 (shr8 t))
      (rw (times_lem 298 c, times_lem 516 0) (eq_of_parts _ _ (omega int_laws))),
)

level_lem : (k : ℕ) → k ≤ 255 → Within (k - 1) (k + 1) (level ((220 * k + 128) / 256))
unfolding clip_u8 shr8
level_lem k h = ground arith

-- A grey of level k has both chromas 128. Its luma, taken back with these chromas, gives a grey again
-- whose level is off by at most one.
pub grey_roundtrip :
    (k : ℕ)
    → k ≤ 255
    → (rgb_to_u k k k ≡ 128)
      × (rgb_to_v k k k ≡ 128)
      × (let c = pos (rgb_to_y k k k) -ℤ pos 16 in
          let d = pos (rgb_to_u k k k) -ℤ pos 128 in
          let e = pos (rgb_to_v k k k) -ℤ pos 128 in
          Within (k - 1) (k + 1) (yuv_to_r c e)
          × (yuv_to_g c d e ≡ yuv_to_r c e)
          × (yuv_to_b c d ≡ yuv_to_r c e))
grey_roundtrip k h =
    let c = (220 * k + 128) / 256 in
    let back = grey_back c in
    (
      grey_u k,
      grey_v k,
      rw (grey_u k, grey_v k, grey_y k h, no_chroma)
          (rw (back.0, back.1, back.2) (level_lem k h, refl, refl)),
    )
