-- ===== src/Framebuffer/Files/Writing.antt =====
-- vf_framebuffer_write_to_fptr and the visible bytes.
use vision_flow.Base.{
  ℕ, zero, suc, ◌+◌, ◌*◌, ◌%◌, ◌^◌, ◌≤◌, ◌<◌, ◌≡◌, ◌≢◌, inl, inr, refl, ap, sym, ◌∙◌, true, false,
  some, List, [], ◌∷◌, ◌++◌, arith, length, length-append, append-nil, append_assoc, ◌==◌,
  if◌then◌else◌,
}
use vision_flow.Error.{success, is_success}
use vision_flow.Framebuffer.{Plane}
use vision_flow.Framebuffer.Files.{
  Stdio, bytes_from, moved, ◌>>=◌, add_up, write_line, each_line, each_plane,
}
use vision_flow.Framebuffer.Files.Bytes.{load_inside, length-bytes_from}
use vision_flow.Framebuffer.Files.Streams.{HasRoom, lines_of, image, AllFit, length-lines_of}

module _ {S : Type 0} (io : Stdio S) (written : S → List ℕ) (room : HasRoom io written) where
  write_line_lem :
      (at size : ℕ) (s : S) (m : List ℕ)
      → size ≢ 0
      → at + size ≤ length m
      → write_line io at size s m
        ≡ some (moved success size (io.fwrite (bytes_from m at size) s).1 m)
  write_line_lem at size s m ne h =
      let accepted =
        room.counts (bytes_from m at size) s (omega (arith, length-bytes_from m at size)) in
      rw (load_inside m at size h, accepted) refl

  -- What is left of the loop after a line, the total without a wrap.
  no_wrap : {R : Type 0} (t k : ℕ) (f : ℕ → R) → t + k < 2 ^ 64 → f ((t + k) % 2 ^ 64) ≡ f (t + k)
  no_wrap t k f h = ap f (omega arith)

  pub write_lines :
      (p : Plane) (n at t : ℕ) (s : S) (m : List ℕ)
      → p.line_size ≤ p.stride
      → p.line_size ≢ 0
      → t ≤ at
      → at + p.stride * n ≤ length m
      → length m < 2 ^ 64
      → (s' : S) × (each_line (write_line io) p n at t s m
          ≡ some (moved success (t + length (lines_of m p at n)) s' m))
        × (written s' ≡ written s ++ lines_of m p at n)
  unfolding each_line
  write_lines p zero at t s m le ne lt h small =
      (s, ap (λ k. some (moved success k s m)) (omega arith), sym (append-nil (written s)))
  write_lines p (suc n) at t s m le ne lt h small =
      let xs = bytes_from m at p.line_size in
      let rest_of = lines_of m p (at + p.stride) n in
      let times : p.stride * suc n ≡ p.stride + p.stride * n = grind arith in
      let s1 = (io.fwrite xs s).1 in
      let (s', r, w) =
        write_lines p n (at + p.stride) (t + p.line_size) s1 m le ne (omega arith) (omega arith)
          small in
      let counted : t + p.line_size + length rest_of ≡ t + length (xs ++ rest_of) =
        omega (arith, length-append xs rest_of, length-bytes_from m at p.line_size) in
      (
        s',
        ap (λ o. o >>= λ r. add_up t r (each_line (write_line io) p n (at + p.stride)))
              (write_line_lem at p.line_size s m ne (omega arith))
            ∙ no_wrap t p.line_size (λ k. each_line (write_line io) p n (at + p.stride) k s1 m)
                (omega arith)
            ∙ r
            ∙ ap (λ k. some (moved success k s' m)) counted,
        w ∙ ap (λ ys. ys ++ rest_of) (room.appends xs s) ∙ append_assoc (written s) xs rest_of,
      )

  pub write_planes :
      (ps : List Plane) (at t : ℕ) (s : S) (m : List ℕ)
      → AllFit ps at (length m)
      → t ≤ at
      → length m < 2 ^ 64
      → (s' : S) × (each_plane (write_line io) ps at t s m
          ≡ some (moved success (t + length (image m ps at)) s' m))
        × (written s' ≡ written s ++ image m ps at)
  unfolding each_plane
  write_planes [] at t s m f lt small =
      (s, ap (λ k. some (moved success k s m)) (omega arith), sym (append-nil (written s)))
  write_planes (p ∷ ps) at t s m (inl z) lt small =
      let stop : (p.size == 0) ≡ true = ground arith in
      rw stop (s, ap (λ k. some (moved success k s m)) (omega arith), sym (append-nil (written s)))
  write_planes (p ∷ ps) at t s m (inr f) lt small =
      let fit = f.0 in
      let lines = lines_of m p at p.height in
      let rest_of = image m ps (at + p.size) in
      let (s1, r1, w1) =
        write_lines p p.height at t s m fit.line fit.visible lt
          (omega (arith, fit.inside, fit.whole)) small in
      let (s', r, w) =
        write_planes ps (at + p.size) (t + length lines) s1 m f.1
          (omega (arith, length-lines_of m p at p.height fit.line, fit.whole)) small in
      let counted : t + length lines + length rest_of ≡ t + length (lines ++ rest_of) =
        omega (arith, length-append lines rest_of) in
      let go : (p.size == 0) ≡ false = ground (arith, fit.present) in
      rw go (
        s',
        ap
              (λ o. o >>= λ r.
                if is_success r.err
                then each_plane (write_line io) ps (at + p.size) r.total r.stream r.memory
                else some r)
              r1
            ∙ r
            ∙ ap (λ k. some (moved success k s' m)) counted,
        w ∙ ap (λ ys. ys ++ rest_of) w1 ∙ append_assoc (written s) lines rest_of,
      )
