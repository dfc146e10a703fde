-- ===== src/Conversion/Pixels/Overrun.antt =====
-- What the routines that write chroma planes do at an odd height.
use vision_flow.Base.{
  ℕ, ◌+◌, ◌-◌, ◌*◌, ◌/◌, ◌%◌, ◌≤◌, ◌<◌, ◌≡◌, refl, ap, ◌∙◌, none, some, Bool, false, List, arith,
  length, inl, inr, true, false, if_elim,
}
use vision_flow.Error.{success}
use vision_flow.Framebuffer.{Framebuffer, add32}
use vision_flow.Conversion.{rgb888_to_yuv420p, rgb888_to_nv12}
use vision_flow.Conversion.Color.{rgb_to_u, rgb_to_v}
use vision_flow.Conversion.Memory.{◌>>=◌, Write}
use vision_flow.Conversion.Memory.Writes.{Writes}
use vision_flow.Conversion.Pixels.{
  stride, u_plane, v_plane, chroma_at, rgb_pixel, planar_writes, nv12_writes, is_uv_sample_point,
  loops, convert,
}
use vision_flow.Conversion.Pixels.Geometry.{rows, columns, IsPacked, IsPlanar, IsSemiPlanar}
use vision_flow.Conversion.Pixels.Checks.{IsPair, convert_lem}
use vision_flow.Conversion.Memory.Writes.{paint_outside}
use vision_flow.Conversion.Pixels.FromRgb.{colour, rgb_pixel_lem}

odd_row : (h : ℕ) → h % 2 ≡ 1 → is_uv_sample_point 0 (h - 1) ≡ true
odd_row h o = ground arith

differ : {b : Bool} → b ≡ false → b ≡ true → ⊥
differ x y = cc

-- Between two frames of the same dimensions, as the library lays them out, with an odd number of rows
-- and at least one column, the conversion of RGB888 to YUV420P writes outside the memory of the
-- destination: the last row has no room in the chroma planes.
pub rgb_overrun :
    (src dst : Framebuffer) (bs m : List ℕ)
    → IsPair src dst bs m
    → rows dst % 2 ≡ 1
    → 0 < columns dst
    → IsPacked 3 src bs
    → IsPlanar dst m
    → convert rgb888_to_yuv420p src dst ≡ none
unfolding loops
rgb_overrun src dst bs m p o c s g =
    convert_lem rgb888_to_yuv420p src dst bs m p
    ∙ ap (λ r. r >>= λ b. some (success, record dst { bytes = some b }))
        (paint_outside (rgb_pixel planar_writes 0 2 bs src dst) spec (rows dst) (columns dst)
          (λ y x hy hx.
            rgb_pixel_lem planar_writes 0 2 src dst bs y x (omega arith) (omega arith) s
              (omega (arith, p.height)) (omega (arith, p.width)))
          m (rows dst - 1) 0 last_v (rgb_to_v (f 0) (f 1) (f 2)) (omega arith) (omega arith)
          (inr (
            if_elim (Writes last_v (rgb_to_v (f 0) (f 1) (f 2)))
              (is_uv_sample_point 0 (rows dst - 1)) (λ _. inr (inl (refl, refl)))
              (λ ne. absurd (differ ne (odd_row (rows dst) o)))))
          far)
  where
    f : ℕ → ℕ
    f = colour 0 2 src bs (rows dst - 1) 0

    last_v : ℕ
    last_v = v_plane dst + chroma_at dst 2 (rows dst - 1) (0 / 2)

    spec : ℕ → ℕ → List Write
    spec y x = let c = colour 0 2 src bs y x in planar_writes dst y x (c 0) (c 1) (c 2)

    far : length m ≤ last_v
    far =
        let half : (rows dst - 1) / 2 ≡ rows dst / 2 = omega (arith, o) in
        omega (arith, ap (λ (t : ℕ). t * stride dst 2) half, g.v_size, g.whole, g.small)

-- The same for the conversion of RGB888 to NV12.
pub nv12_overrun :
    (src dst : Framebuffer) (bs m : List ℕ)
    → IsPair src dst bs m
    → rows dst % 2 ≡ 1
    → 0 < columns dst
    → IsPacked 3 src bs
    → IsSemiPlanar dst m
    → convert rgb888_to_nv12 src dst ≡ none
unfolding loops
nv12_overrun src dst bs m p o c s g =
    convert_lem rgb888_to_nv12 src dst bs m p
    ∙ ap (λ r. r >>= λ b. some (success, record dst { bytes = some b }))
        (paint_outside (rgb_pixel nv12_writes 0 2 bs src dst) spec (rows dst) (columns dst)
          (λ y x hy hx.
            rgb_pixel_lem nv12_writes 0 2 src dst bs y x (omega arith) (omega arith) s
              (omega (arith, p.height)) (omega (arith, p.width)))
          m (rows dst - 1) 0 last_u (rgb_to_u (f 0) (f 1) (f 2)) (omega arith) (omega arith)
          (inr (
            if_elim (Writes last_u (rgb_to_u (f 0) (f 1) (f 2)))
              (is_uv_sample_point 0 (rows dst - 1)) (λ _. inl (refl, refl))
              (λ ne. absurd (differ ne (odd_row (rows dst) o)))))
          far)
  where
    f : ℕ → ℕ
    f = colour 0 2 src bs (rows dst - 1) 0

    last_u : ℕ
    last_u = u_plane dst + add32 (chroma_at dst 1 (rows dst - 1) 0) 0

    spec : ℕ → ℕ → List Write
    spec y x = let c = colour 0 2 src bs y x in nv12_writes dst y x (c 0) (c 1) (c 2)

    far : length m ≤ last_u
    far =
        let half : (rows dst - 1) / 2 ≡ rows dst / 2 = omega (arith, o) in
        omega (arith, ap (λ (t : ℕ). t * stride dst 1) half, g.whole, g.small)
