-- ===== src/Conversion/Pixels/Sampling.antt =====
-- Luma of every pixel and chroma of every 2x2 block, from the colours of a picture.
use vision_flow.Base.{
  ℕ, ◌*◌, ◌%◌, ◌≡◌, ap, ◌∙◌, Bool, false, List, [], arith, true, false, if_elim, if◌then◌else◌,
}
use vision_flow.Conversion.Color.{rgb_to_y, rgb_to_u, rgb_to_v}
use vision_flow.Conversion.Memory.{Write}
use vision_flow.Conversion.Pixels.{is_uv_sample_point}

-- The colour of a pixel turned into luma and chroma.
abbrev pub luma_of : (ℕ → ℕ → ℕ → ℕ) → ℕ → ℕ → ℕ
luma_of f y x = rgb_to_y (f y x 0) (f y x 1) (f y x 2)

abbrev pub u_of : (ℕ → ℕ → ℕ → ℕ) → ℕ → ℕ → ℕ
u_of f y x = rgb_to_u (f y x 0) (f y x 1) (f y x 2)

abbrev pub v_of : (ℕ → ℕ → ℕ → ℕ) → ℕ → ℕ → ℕ
v_of f y x = rgb_to_v (f y x 0) (f y x 1) (f y x 2)

pub sample_lem : (x y : ℕ) → is_uv_sample_point x y ≡ true → (y % 2 ≡ 0) × (x % 2 ≡ 0)
sample_lem x y e = ground arith

pub sampled : (j i : ℕ) → is_uv_sample_point (2 * i) (2 * j) ≡ true
sampled j i = ground arith

-- A value that depends on the pixel alone.
pub same_value : (g : ℕ → ℕ → ℕ) (j i y x : ℕ) → j ≡ y → i ≡ x → g j i ≡ g y x
same_value g j i y x e h = ap (λ t. g t i) e ∙ ap (g y) h

-- At the first pixel of a block the chromas are written.
pub when_sampled :
    (P : List Write → Type 0) (j i : ℕ) {xs : List Write}
    → P xs
    → P (if is_uv_sample_point (2 * i) (2 * j) then xs else [])
when_sampled P j i p =
    if_elim P (is_uv_sample_point (2 * i) (2 * j)) (λ _. p) (λ ne. absurd (differ ne (sampled j i)))
  where
    differ : {b : Bool} → b ≡ false → b ≡ true → ⊥
    differ p q = cc
