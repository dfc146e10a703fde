-- ===== src/Framebuffer/Files/Reading.antt =====
-- vf_framebuffer_read_from_fptr and the bytes of a stream.
use vision_flow.Base.{
  ℕ, zero, suc, ◌+◌, ◌*◌, ◌%◌, ◌^◌, ◌≤◌, ◌<◌, ◌≡◌, ◌≢◌, inl, inr, refl, ap, ap₂, sym, ◌∙◌, subst,
  true, false, some, List, [], ◌∷◌, ◌++◌, arith, length, length-append, append_assoc, ◌==◌,
  if◌then◌else◌, get_or,
}
use vision_flow.Error.{success, is_success}
use vision_flow.Framebuffer.{Plane}
use vision_flow.Framebuffer.Files.{
  Stdio, bytes_from, stored, moved, ◌>>=◌, add_up, read_line, each_line, each_plane,
}
use vision_flow.Framebuffer.Files.Bytes.{
  store_inside, length-bytes_from, length-stored, stored_outside, bytes_from-stored,
  bytes_from-same,
}
use vision_flow.Framebuffer.Files.Streams.{
  Delivers, lines_of, image, AllFit, length-lines_of, lines_of-same,
}

-- What a read leaves from an address on: memory of the same length, the same below the address.
pub record Kept (at : ℕ) (m m' : List ℕ) : Type 0 where
  pub long : length m' ≡ length m
  pub below : (i : ℕ) → i < at → get_or m' i 0 ≡ get_or m i 0

module _ {S : Type 0} (io : Stdio S) (unread : S → List ℕ) (source : Delivers io unread)
    (m0 : List ℕ) where
  read_line_lem :
      (at size : ℕ) (rest : List ℕ) (s : S) (m : List ℕ)
      → size ≢ 0
      → at + size ≤ length m
      → unread s ≡ bytes_from m0 at size ++ rest
      → (read_line io at size s m
          ≡ some (
              moved success size
                (source.after (bytes_from m0 at size) s)
                (stored (bytes_from m0 at size) at m)))
        × (unread (source.after (bytes_from m0 at size) s) ≡ rest)
  read_line_lem at size rest s m ne h e =
      let xs = bytes_from m0 at size in
      let long = length-bytes_from m0 at size in
      let got = source.gives xs rest s (omega (arith, long)) e in
      let asked : io.fread size s ≡ (1, xs, source.after xs s) =
        ap (λ k. io.fread k s) (sym long) ∙ got.0 in
      (rw (asked, store_inside xs at m (omega (arith, long))) refl, got.1)

  pub read_lines :
      (p : Plane) (n at t : ℕ) (rest : List ℕ) (s : S) (m : List ℕ)
      → p.line_size ≤ p.stride
      → p.line_size ≢ 0
      → t ≤ at
      → at + p.stride * n ≤ length m
      → length m < 2 ^ 64
      → unread s ≡ lines_of m0 p at n ++ rest
      → (s' : S) × (m' : List ℕ) × (each_line (read_line io) p n at t s m
          ≡ some (moved success (t + length (lines_of m0 p at n)) s' m'))
        × (unread s' ≡ rest)
        × Kept at m m'
        × (lines_of m' p at n ≡ lines_of m0 p at n)
  unfolding each_line
  read_lines p zero at t rest s m le ne lt h small e = (
    s,
    m,
    ap (λ k. some (moved success k s m)) (omega arith),
    e,
    record { long = refl; below = λ i hi. refl },
    refl,
  )
  read_lines p (suc n) at t rest s m le ne lt h small e =
      let size = p.line_size in
      let xs = bytes_from m0 at size in
      let others = lines_of m0 p (at + p.stride) n in
      let times : p.stride * suc n ≡ p.stride + p.stride * n = grind arith in
      let long = length-bytes_from m0 at size in
      let m1 = stored xs at m in
      let same_length = length-stored xs at m in
      let s1 = source.after xs s in
      let first =
        read_line_lem at size (others ++ rest) s m ne (omega arith)
          (e ∙ append_assoc xs others rest) in
      let (s', m', r, u, kept, shown) =
        read_lines p n (at + p.stride) (t + size) rest s1 m1 le ne (omega arith)
          (omega (arith, same_length)) (omega (arith, same_length)) first.1 in
      let counted : t + size + length others ≡ t + length (xs ++ others) =
        omega (arith, length-append xs others, long) in
      let wrap : (t + size) % 2 ^ 64 ≡ t + size = omega arith in
      (
        s',
        m',
        ap (λ o. o >>= λ r. add_up t r (each_line (read_line io) p n (at + p.stride))) first.0
            ∙ ap (λ k. each_line (read_line io) p n (at + p.stride) k s1 m1) wrap
            ∙ r
            ∙ ap (λ k. some (moved success k s' m')) counted,
        u,
        record {
          long = kept.long ∙ same_length;
          below = λ i hi. kept.below i (omega arith) ∙ stored_outside xs at m i (inl hi);
        },
        ap₂ ◌++◌
            (bytes_from-same m1 m' at size (λ i lo hi. kept.below i (omega arith))
              ∙ ap (bytes_from m1 at) (sym long)
              ∙ bytes_from-stored xs at m (omega (arith, long)))
            shown,
      )

  pub read_planes :
      (ps : List Plane) (at t : ℕ) (rest : List ℕ) (s : S) (m : List ℕ)
      → AllFit ps at (length m)
      → t ≤ at
      → length m < 2 ^ 64
      → unread s ≡ image m0 ps at ++ rest
      → (s' : S) × (m' : List ℕ) × (each_plane (read_line io) ps at t s m
          ≡ some (moved success (t + length (image m0 ps at)) s' m'))
        × (unread s' ≡ rest)
        × Kept at m m'
        × (image m' ps at ≡ image m0 ps at)
  unfolding each_plane
  read_planes [] at t rest s m f lt small e = (
    s,
    m,
    ap (λ k. some (moved success k s m)) (omega arith),
    e,
    record { long = refl; below = λ i hi. refl },
    refl,
  )
  read_planes (p ∷ ps) at t rest s m (inl z) lt small e =
      let stop : (p.size == 0) ≡ true = ground arith in
      let at_rest : unread s ≡ rest =
        e
        ∙ ap
            (λ b.
              (if b then [] else lines_of m0 p at p.height ++ image m0 ps (at + p.size)) ++ rest)
            stop in
      rw stop (
        s,
        m,
        ap (λ k. some (moved success k s m)) (omega arith),
        at_rest,
        record { long = refl; below = λ i hi. refl },
        refl,
      )
  read_planes (p ∷ ps) at t rest s m (inr f) lt small e =
      let fit = f.0 in
      let lines = lines_of m0 p at p.height in
      let others = image m0 ps (at + p.size) in
      let go : (p.size == 0) ≡ false = ground (arith, fit.present) in
      let ahead : unread s ≡ lines ++ (others ++ rest) =
        e
        ∙ ap (λ b. (if b then [] else lines ++ others) ++ rest) go
        ∙ append_assoc lines others rest in
      let bound = length-lines_of m0 p at p.height fit.line in
      let (s1, m1, r1, u1, kept1, shown1) =
        read_lines p p.height at t (others ++ rest) s m fit.line fit.visible lt
          (omega (arith, fit.inside, fit.whole)) small ahead in
      let (s', m', r, u, kept, shown) =
        read_planes ps (at + p.size) (t + length lines) rest s1 m1
          (subst (AllFit ps (at + p.size)) (sym kept1.long) f.1) (omega (arith, bound, fit.whole))
          (omega (arith, kept1.long)) u1 in
      let counted : t + length lines + length others ≡ t + length (lines ++ others) =
        omega (arith, length-append lines others) in
      rw go (
        s',
        m',
        ap
              (λ o. o >>= λ r.
                if is_success r.err
                then each_plane (read_line io) ps (at + p.size) r.total r.stream r.memory
                else some r)
              r1
            ∙ r
            ∙ ap (λ k. some (moved success k s' m')) counted,
        u,
        record {
          long = kept.long ∙ kept1.long;
          below = λ i hi. kept.below i (omega arith) ∙ kept1.below i hi;
        },
        ap₂ ◌++◌
            (lines_of-same m1 m' p at p.height fit.line
                (λ i lo hi. kept.below i (omega (arith, fit.whole)))
              ∙ shown1)
            shown,
      )
