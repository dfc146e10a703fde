-- ===== src/Conversion/Pixels/SemiPlanar.antt =====
-- Loops that write an NV12 frame: every byte of the two planes.
use vision_flow.Base.{
  ℕ, ◌+◌, ◌*◌, ◌/◌, ◌<◌, ◌≡◌, refl, ap, sym, ◌∙◌, subst, Option, some, false, List, arith, length,
  get_or, inl, inr, true, false, ◌==◌, if_elim, if◌then◌else◌,
}
use vision_flow.Framebuffer.{Framebuffer, add32, mul32}
use vision_flow.Conversion.Memory.{Write, paint}
use vision_flow.Conversion.Memory.Writes.{Inside, Agrees, Writes, paint-Wrote, painted}
use vision_flow.Conversion.Pixels.{
  stride, plane_size, u_plane, chroma_at, nv12_writes, is_uv_sample_point,
}
use vision_flow.Conversion.Pixels.Geometry.{
  rows, columns, IsSemiPlanar, same_place, row_end, IsEven,
}
use vision_flow.Conversion.Pixels.Sampling.{
  luma_of, u_of, v_of, sample_lem, same_value, when_sampled,
}

-- Every luma, and both chromas of the picture's 2x2 blocks side by side, taken from the first pixel of
-- a block.
pub record ShowsSemiPlanar (fb : Framebuffer) (m : List ℕ) (f : ℕ → ℕ → ℕ → ℕ) : Type 0 where
  pub luma :
      (y x : ℕ) → y < rows fb → x < columns fb → get_or m (y * stride fb 0 + x) 0 ≡ luma_of f y x
  pub u :
      (j i : ℕ)
      → j < rows fb / 2
      → i < columns fb / 2
      → get_or m (u_plane fb + (j * stride fb 1 + 2 * i)) 0 ≡ u_of f (2 * j) (2 * i)
  pub v :
      (j i : ℕ)
      → j < rows fb / 2
      → i < columns fb / 2
      → get_or m (u_plane fb + (j * stride fb 1 + (2 * i + 1))) 0 ≡ v_of f (2 * j) (2 * i)

module _ (dst : Framebuffer) (m : List ℕ) (g : IsSemiPlanar dst m) (e : IsEven dst)
    (f : ℕ → ℕ → ℕ → ℕ) where
  abbrev pub nv12_spec : ℕ → ℕ → List Write
  nv12_spec y x = nv12_writes dst y x (f y x 0) (f y x 1) (f y x 2)

  luma_at :
      (y x : ℕ)
      → y < rows dst
      → x < columns dst
      → (mul32 y (stride dst 0) + x ≡ y * stride dst 0 + x)
        × (y * stride dst 0 + x < plane_size dst 0)
  luma_at y x hy hx =
      let r = row_end y (rows dst) (stride dst 0) hy in
      (omega (arith, g.line), omega (arith, g.line))

  -- A byte of the chroma plane, in a column below the width.
  uv_at :
      (y x k : ℕ)
      → y < rows dst
      → x + k < columns dst
      → (add32 (chroma_at dst 1 y x) k ≡ y / 2 * stride dst 1 + (x + k))
        × (u_plane dst + (y / 2 * stride dst 1 + (x + k)) < length m)
  uv_at y x k hy hx =
      let half : y / 2 < rows dst / 2 = omega (arith, e.0) in
      let r = row_end (y / 2) (rows dst / 2) (stride dst 1) half in
      (omega (arith, g.uv_line), omega (arith, g.uv_line))

  nv12-Inside : (y x : ℕ) → y < rows dst → x < columns dst → Inside (length m) (nv12_spec y x)
  nv12-Inside y x hy hx =
      let l = luma_at y x hy hx in
      (
        omega arith,
        if_elim (Inside (length m)) (is_uv_sample_point x y)
            (λ p.
              let even = sample_lem x y p in
              let u = uv_at y x 0 hy (omega arith) in
              let v = uv_at y x 1 hy (omega (arith, e.1)) in
              (omega (arith, u.0, u.1), (omega (arith, v.0, v.1), tt)))
            (λ _. tt),
      )

  nv12_luma-Agrees :
      (j i y x : ℕ)
      → j < rows dst
      → i < columns dst
      → y < rows dst
      → x < columns dst
      → Agrees (y * stride dst 0 + x) (luma_of f y x) (nv12_spec j i)
  nv12_luma-Agrees j i y x hj hi hy hx =
      let l = luma_at j i hj hi in
      let a = luma_at y x hy hx in
      (
        λ same.
            let s =
              same_place j y (stride dst 0) i x (omega (arith, g.line)) (omega (arith, g.line))
                (omega (arith, same)) in
            same_value (luma_of f) j i y x s.0 s.1,
        if_elim (Agrees (y * stride dst 0 + x) (luma_of f y x)) (is_uv_sample_point i j)
            (λ _.
              (λ same. absurd (omega (arith, same)), (λ same. absurd (omega (arith, same)), tt)))
            (λ _. tt),
      )

  -- A chroma byte is written for its own block alone: k is 0 for U and 1 for V.
  nv12_chroma-Agrees :
      (value : ℕ → ℕ → ℕ) (j i y x k : ℕ)
      → ((b a : ℕ) → value b a ≡ (if k == 0 then u_of f b a else v_of f b a))
      → k < 2
      → j < rows dst
      → i < columns dst
      → y < rows dst / 2
      → x < columns dst / 2
      → Agrees
          (u_plane dst + (y * stride dst 1 + (2 * x + k)))
          (value (2 * y) (2 * x))
          (nv12_spec j i)
  nv12_chroma-Agrees value j i y x k is hk hj hi hy hx =
      let l = luma_at j i hj hi in
      let r = row_end y (rows dst / 2) (stride dst 1) hy in
      (
        λ same. absurd (omega (arith, same)),
        if_elim (Agrees (u_plane dst + (y * stride dst 1 + (2 * x + k))) (value (2 * y) (2 * x)))
            (is_uv_sample_point i j)
            (λ p.
              let even = sample_lem i j p in
              let u = uv_at j i 0 hj (omega arith) in
              let v = uv_at j i 1 hj (omega (arith, e.1)) in
              (
                λ same.
                    let s =
                      same_place (j / 2) y (stride dst 1) (i + 0) (2 * x + k)
                        (omega (arith, g.uv_line)) (omega (arith, g.uv_line))
                        (omega (arith, same, u.0)) in
                    let is_u : (k == 0) ≡ true = ground (arith, s.1) in
                    same_value (u_of f) j i (2 * y) (2 * x) (omega (arith, s.0))
                      (omega (arith, s.1))
                    ∙ sym (is (2 * y) (2 * x) ∙ rw is_u refl),
                (
                  λ same.
                      let s =
                        same_place (j / 2) y (stride dst 1) (i + 1) (2 * x + k)
                          (omega (arith, g.uv_line)) (omega (arith, g.uv_line))
                          (omega (arith, same, v.0)) in
                      let is_v : (k == 0) ≡ false = ground (arith, s.1) in
                      same_value (v_of f) j i (2 * y) (2 * x) (omega (arith, s.0))
                        (omega (arith, s.1))
                      ∙ sym (is (2 * y) (2 * x) ∙ rw is_v refl),
                  tt,
                ),
              ))
            (λ _. tt),
      )

  pub paint-ShowsSemiPlanar :
      (pixel : ℕ → ℕ → Option (List Write))
      → ((y x : ℕ) → y < rows dst → x < columns dst → pixel y x ≡ some (nv12_spec y x))
      → (m' : List ℕ) × (paint pixel (rows dst) (columns dst) m ≡ some m')
        × (length m' ≡ length m)
        × ShowsSemiPlanar dst m' f
  paint-ShowsSemiPlanar pixel reads =
      let w = paint-Wrote pixel nv12_spec (rows dst) (columns dst) reads m nv12-Inside in
      let byte = painted pixel nv12_spec (rows dst) (columns dst) reads m w.0 in
      (
        w.0,
        w.1,
        w.2.kept,
        record {
          luma = λ y x hy hx.
              let l = luma_at y x hy hx in
              byte y x _ _ w.2 hy hx (inl (l.0, refl)) (omega (arith, g.whole))
                (λ j i hj hi. nv12_luma-Agrees j i y x hj hi hy hx);
          u = λ j i hj hi.
              let u = uv_at (2 * j) (2 * i) 0 (omega arith) (omega arith) in
              byte (2 * j) (2 * i) _ _ w.2 (omega arith) (omega arith)
                (inr (
                  when_sampled
                    (λ ws.
                      Writes (u_plane dst + (j * stride dst 1 + 2 * i)) (u_of f (2 * j) (2 * i)) ws)
                    j i (inl (ap (λ t. u_plane dst + t) (u.0 ∙ halves j i 0), refl))))
                (omega (arith, u.1, halves j i 0))
                (λ y x hy hx.
                  subst
                    (λ t.
                      Agrees (u_plane dst + (j * stride dst 1 + t)) (u_of f (2 * j) (2 * i))
                        (nv12_spec y x))
                    (plus_zero (2 * i))
                    (nv12_chroma-Agrees (u_of f) y x j i 0 (λ b a. refl) (omega arith) hy hx hj
                      hi));
          v = λ j i hj hi.
              let v = uv_at (2 * j) (2 * i) 1 (omega arith) (omega arith) in
              byte (2 * j) (2 * i) _ _ w.2 (omega arith) (omega arith)
                (inr (
                  when_sampled
                    (λ ws.
                      Writes (u_plane dst + (j * stride dst 1 + (2 * i + 1)))
                        (v_of f (2 * j) (2 * i)) ws)
                    j i (inr (inl (ap (λ t. u_plane dst + t) (v.0 ∙ halves1 j i), refl)))))
                (omega (arith, v.1, halves1 j i))
                (λ y x hy hx.
                  nv12_chroma-Agrees (v_of f) y x j i 1 (λ b a. refl) (omega arith) hy hx hj hi);
        },
      )
    where
      plus_zero : (k : ℕ) → k + 0 ≡ k
      plus_zero k = omega arith

      halves : (j i k : ℕ) → 2 * j / 2 * stride dst 1 + (2 * i + 0) ≡ j * stride dst 1 + 2 * i
      halves j i k = let a : 2 * j / 2 ≡ j = omega arith in rw a (omega arith)

      halves1 : (j i : ℕ) → 2 * j / 2 * stride dst 1 + (2 * i + 1) ≡ j * stride dst 1 + (2 * i + 1)
      halves1 j i = let a : 2 * j / 2 ≡ j = omega arith in rw a refl
