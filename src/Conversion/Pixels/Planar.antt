-- ===== src/Conversion/Pixels/Planar.antt =====
-- Loops that write a YUV420P frame: every byte of the three planes.
use vision_flow.Base.{
  ℕ, ◌+◌, ◌*◌, ◌/◌, ◌<◌, ◌≡◌, refl, ap, ◌∙◌, Option, some, List, arith, length, get_or, inl, inr,
  if_elim,
}
use vision_flow.Framebuffer.{Framebuffer, mul32}
use vision_flow.Conversion.Memory.{Write, paint}
use vision_flow.Conversion.Memory.Writes.{Inside, Agrees, Writes, paint-Wrote, painted}
use vision_flow.Conversion.Pixels.{
  stride, plane_size, u_plane, v_plane, chroma_at, planar_writes, is_uv_sample_point,
}
use vision_flow.Conversion.Pixels.Geometry.{rows, columns, IsPlanar, same_place, row_end, IsEven}
use vision_flow.Conversion.Pixels.Sampling.{
  luma_of, u_of, v_of, sample_lem, same_value, when_sampled,
}

-- Both chromas of the picture's 2x2 blocks, taken from the first pixel of a block, and every luma.
pub record ShowsPlanar (fb : Framebuffer) (m : List ℕ) (f : ℕ → ℕ → ℕ → ℕ) : Type 0 where
  pub luma :
      (y x : ℕ) → y < rows fb → x < columns fb → get_or m (y * stride fb 0 + x) 0 ≡ luma_of f y x
  pub u :
      (j i : ℕ)
      → j < rows fb / 2
      → i < columns fb / 2
      → get_or m (u_plane fb + (j * stride fb 1 + i)) 0 ≡ u_of f (2 * j) (2 * i)
  pub v :
      (j i : ℕ)
      → j < rows fb / 2
      → i < columns fb / 2
      → get_or m (v_plane fb + (j * stride fb 2 + i)) 0 ≡ v_of f (2 * j) (2 * i)

module _ (dst : Framebuffer) (m : List ℕ) (g : IsPlanar dst m) (e : IsEven dst)
    (f : ℕ → ℕ → ℕ → ℕ) where
  abbrev pub planar_spec : ℕ → ℕ → List Write
  planar_spec y x = planar_writes dst y x (f y x 0) (f y x 1) (f y x 2)

  luma_at :
      (y x : ℕ)
      → y < rows dst
      → x < columns dst
      → (mul32 y (stride dst 0) + x ≡ y * stride dst 0 + x)
        × (y * stride dst 0 + x < plane_size dst 0)
  luma_at y x hy hx =
      let r = row_end y (rows dst) (stride dst 0) hy in
      (omega (arith, g.line), omega (arith, g.line))

  u_at :
      (y x : ℕ)
      → y < rows dst
      → x < columns dst
      → (chroma_at dst 1 y (x / 2) ≡ y / 2 * stride dst 1 + x / 2)
        × (y / 2 * stride dst 1 + x / 2 < plane_size dst 1)
  u_at y x hy hx =
      let half : y / 2 < rows dst / 2 = omega (arith, e.0) in
      let r = row_end (y / 2) (rows dst / 2) (stride dst 1) half in
      (omega (arith, g.u_line, e.1), omega (arith, g.u_line, e.1))

  v_at :
      (y x : ℕ)
      → y < rows dst
      → x < columns dst
      → (chroma_at dst 2 y (x / 2) ≡ y / 2 * stride dst 2 + x / 2)
        × (y / 2 * stride dst 2 + x / 2 < plane_size dst 2)
  v_at y x hy hx =
      let half : y / 2 < rows dst / 2 = omega (arith, e.0) in
      let r = row_end (y / 2) (rows dst / 2) (stride dst 2) half in
      (omega (arith, g.v_line, e.1), omega (arith, g.v_line, e.1))

  planar-Inside : (y x : ℕ) → y < rows dst → x < columns dst → Inside (length m) (planar_spec y x)
  planar-Inside y x hy hx =
      let l = luma_at y x hy hx in
      let u = u_at y x hy hx in
      let v = v_at y x hy hx in
      (
        omega arith,
        if_elim (Inside (length m)) (is_uv_sample_point x y) (λ _. (omega arith, (omega arith, tt)))
            (λ _. tt),
      )

  planar_luma-Agrees :
      (j i y x : ℕ)
      → j < rows dst
      → i < columns dst
      → y < rows dst
      → x < columns dst
      → Agrees (y * stride dst 0 + x) (luma_of f y x) (planar_spec j i)
  planar_luma-Agrees j i y x hj hi hy hx =
      let l = luma_at j i hj hi in
      let a = luma_at y x hy hx in
      (
        λ same.
            let s =
              same_place j y (stride dst 0) i x (omega (arith, g.line)) (omega (arith, g.line))
                (omega (arith, same)) in
            same_value (luma_of f) j i y x s.0 s.1,
        if_elim (Agrees (y * stride dst 0 + x) (luma_of f y x)) (is_uv_sample_point i j)
            (λ _.
              (λ same. absurd (omega (arith, same)), (λ same. absurd (omega (arith, same)), tt)))
            (λ _. tt),
      )

  planar_u-Agrees :
      (j i y x : ℕ)
      → j < rows dst
      → i < columns dst
      → y < rows dst / 2
      → x < columns dst / 2
      → Agrees (u_plane dst + (y * stride dst 1 + x)) (u_of f (2 * y) (2 * x)) (planar_spec j i)
  planar_u-Agrees j i y x hj hi hy hx =
      let l = luma_at j i hj hi in
      let u = u_at j i hj hi in
      let r = row_end y (rows dst / 2) (stride dst 1) hy in
      (
        λ same. absurd (omega (arith, same)),
        if_elim (Agrees (u_plane dst + (y * stride dst 1 + x)) (u_of f (2 * y) (2 * x)))
            (is_uv_sample_point i j)
            (λ p.
              let even = sample_lem i j p in
              (
                λ same.
                    let s =
                      same_place (j / 2) y (stride dst 1) (i / 2) x (omega (arith, g.u_line, e.1))
                        (omega (arith, g.u_line)) (omega (arith, same)) in
                    same_value (u_of f) j i (2 * y) (2 * x) (omega (arith, s.0))
                      (omega (arith, s.1)),
                (λ same. absurd (omega (arith, same, g.u_size, g.u_line)), tt),
              ))
            (λ _. tt),
      )

  planar_v-Agrees :
      (j i y x : ℕ)
      → j < rows dst
      → i < columns dst
      → y < rows dst / 2
      → x < columns dst / 2
      → Agrees (v_plane dst + (y * stride dst 2 + x)) (v_of f (2 * y) (2 * x)) (planar_spec j i)
  planar_v-Agrees j i y x hj hi hy hx =
      let l = luma_at j i hj hi in
      let u = u_at j i hj hi in
      let v = v_at j i hj hi in
      (
        λ same. absurd (omega (arith, same)),
        if_elim (Agrees (v_plane dst + (y * stride dst 2 + x)) (v_of f (2 * y) (2 * x)))
            (is_uv_sample_point i j)
            (λ p.
              let even = sample_lem i j p in
              (
                λ same. absurd (omega (arith, same)),
                (
                  λ same.
                      let s =
                        same_place (j / 2) y (stride dst 2) (i / 2) x (omega (arith, g.v_line, e.1))
                          (omega (arith, g.v_line)) (omega (arith, same)) in
                      same_value (v_of f) j i (2 * y) (2 * x) (omega (arith, s.0))
                        (omega (arith, s.1)),
                  tt,
                ),
              ))
            (λ _. tt),
      )

  -- Loops whose pixels write this picture end, and the planes show it.
  pub paint-ShowsPlanar :
      (pixel : ℕ → ℕ → Option (List Write))
      → ((y x : ℕ) → y < rows dst → x < columns dst → pixel y x ≡ some (planar_spec y x))
      → (m' : List ℕ) × (paint pixel (rows dst) (columns dst) m ≡ some m')
        × (length m' ≡ length m)
        × ShowsPlanar dst m' f
  paint-ShowsPlanar pixel reads =
      let w = paint-Wrote pixel planar_spec (rows dst) (columns dst) reads m planar-Inside in
      let byte = painted pixel planar_spec (rows dst) (columns dst) reads m w.0 in
      (
        w.0,
        w.1,
        w.2.kept,
        record {
          luma = λ y x hy hx.
              let l = luma_at y x hy hx in
              byte y x _ _ w.2 hy hx (inl (l.0, refl)) (omega arith)
                (λ j i hj hi. planar_luma-Agrees j i y x hj hi hy hx);
          u = λ j i hj hi.
              let u = u_at (2 * j) (2 * i) (omega arith) (omega arith) in
              byte (2 * j) (2 * i) _ _ w.2 (omega arith) (omega arith)
                (inr (
                  when_sampled
                    (λ ws.
                      Writes (u_plane dst + (j * stride dst 1 + i)) (u_of f (2 * j) (2 * i)) ws)
                    j i (inl (doubled 1 (u_plane dst) j i u.0, refl))))
                (omega (arith, u.1, halves j i (stride dst 1)))
                (λ y x hy hx. planar_u-Agrees y x j i hy hx hj hi);
          v = λ j i hj hi.
              let v = v_at (2 * j) (2 * i) (omega arith) (omega arith) in
              byte (2 * j) (2 * i) _ _ w.2 (omega arith) (omega arith)
                (inr (
                  when_sampled
                    (λ ws.
                      Writes (v_plane dst + (j * stride dst 2 + i)) (v_of f (2 * j) (2 * i)) ws)
                    j i (inr (inl (doubled 2 (v_plane dst) j i v.0, refl)))))
                (omega (arith, v.1, halves j i (stride dst 2)))
                (λ y x hy hx. planar_v-Agrees y x j i hy hx hj hi);
        },
      )
    where
      halves : (j i s : ℕ) → 2 * j / 2 * s + 2 * i / 2 ≡ j * s + i
      halves j i s =
          let a : 2 * j / 2 ≡ j = omega arith in
          let b : 2 * i / 2 ≡ i = omega arith in rw (a, b) refl

      doubled :
          (k base j i : ℕ)
          → chroma_at dst k (2 * j) (2 * i / 2) ≡ 2 * j / 2 * stride dst k + 2 * i / 2
          → base + chroma_at dst k (2 * j) (2 * i / 2) ≡ base + (j * stride dst k + i)
      doubled k base j i h = ap (λ t. base + t) (h ∙ halves j i (stride dst k))
