-- ===== src/Conversion/Pixels/Yuyv.antt =====
-- The routine from YUYV, which writes two pixels in each round of its loop.
use vision_flow.Base.{
  append_assoc, ℕ, zero, suc, ◌+◌, ◌*◌, ◌/◌, ◌%◌, ◌<◌, ◌≡◌, refl, ap, sym, ◌∙◌, Option, some, List,
  ◌++◌, arith, get_or,
}
use vision_flow.Framebuffer.{Framebuffer, add32}
use vision_flow.Conversion.{yuyv_to_rgb888}
use vision_flow.Conversion.Memory.{◌>>=◌, Write, write_all, paint}
use vision_flow.Conversion.Memory.Writes.{gather, painted}
use vision_flow.Conversion.Pixels.{stride, rgb_writes, centred, yuyv_pixels, loops}
use vision_flow.Conversion.Pixels.Geometry.{rows, columns, IsPacked, row_end}
use vision_flow.Conversion.Pixels.Checks.{IsPair, peek_at, three_reads}
use vision_flow.Conversion.Memory.{apply}
use vision_flow.Conversion.Memory.Writes.{each-gather, paint-picture}
use vision_flow.Conversion.Pixels.ToRgb.{three, paint-Shows, component, Shown, loops-Shown}

-- Two rounds in one.
gather_pairs :
    (n i : ℕ) (f : ℕ → List Write)
    → gather n i (λ k. f (2 * k) ++ f (2 * k + 1)) ≡ gather (2 * n) (2 * i) f
unfolding gather
gather_pairs zero i f = refl
gather_pairs (suc n) i f =
    let twice : 2 * suc n ≡ suc (suc (2 * n)) = omega arith in
    let next : 2 * suc i ≡ suc (suc (2 * i)) = omega arith in
    let one : 2 * i + 1 ≡ suc (2 * i) = omega arith in
    ap (λ t. (f (2 * i) ++ f (2 * i + 1)) ++ t) (gather_pairs n (suc i) f)
    ∙ append_assoc (f (2 * i)) (f (2 * i + 1)) _
    ∙ ap (λ t. f (2 * i) ++ (f t ++ gather (2 * n) (2 * suc i) f)) one
    ∙ ap (λ t. f (2 * i) ++ (f (suc (2 * i)) ++ gather (2 * n) t f)) next
    ∙ ap (λ t. gather t (2 * i) f) (sym twice)

-- The picture that a YUYV memory holds: two neighbours share their chromas.
abbrev pub yuyv_picture : Framebuffer → List ℕ → ℕ → ℕ → ℕ → ℕ
yuyv_picture src bs y x =
    component (get_or bs (y * stride src 0 + 2 * x) 0)
      (get_or bs (y * stride src 0 + (4 * (x / 2) + 1)) 0)
      (get_or bs (y * stride src 0 + (4 * (x / 2) + 3)) 0)

four_reads :
    {A : Type 0} (p q r s : Option ℕ) (a b c d : ℕ) (k : ℕ → ℕ → ℕ → ℕ → A)
    → p ≡ some a
    → q ≡ some b
    → r ≡ some c
    → s ≡ some d
    → (do x ← p; y ← q; z ← r; t ← s; some (k x y z t)) ≡ some (k a b c d)
four_reads p q r s a b c d k e f g h =
    ap (λ t. t >>= λ x. q >>= λ y. r >>= λ z. s >>= λ v. some (k x y z v)) e
    ∙ three_reads q r s b c d (k a) f g h

-- A pixel whose luma and chromas lie at these places of the source.
abbrev from : List ℕ → Framebuffer → ℕ → ℕ → ℕ → ℕ → ℕ → List Write
from bs dst y x l u v =
    rgb_writes dst y x (centred (get_or bs l 0) 16) (centred (get_or bs u 0) 128)
      (centred (get_or bs v 0) 128)

from_same :
    (bs : List ℕ) (dst : Framebuffer) (y x l u v x' l' u' v' : ℕ)
    → x ≡ x'
    → l ≡ l'
    → u ≡ u'
    → v ≡ v'
    → from bs dst y x l u v ≡ from bs dst y x' l' u' v'
from_same bs dst y x l u v x' l' u' v' e f g h =
    ap (λ t. from bs dst y t l u v) e
    ∙ ap (λ t. from bs dst y x' t u v) f
    ∙ ap (λ t. from bs dst y x' l' t v) g
    ∙ ap (λ t. from bs dst y x' l' u' t) h

yuyv_pixels_lem :
    (src dst : Framebuffer) (bs : List ℕ) (y i : ℕ)
    → IsPacked 2 src bs
    → y < rows src
    → 2 * i + 1 < columns src
    → yuyv_pixels bs src dst y i
      ≡ some (
          three dst (yuyv_picture src bs) y (2 * i)
          ++ three dst (yuyv_picture src bs) y (2 * i + 1))
unfolding yuyv_pixels
yuyv_pixels_lem src dst bs y i g hy hx =
    let r = row_end y (rows src) (stride src 0) hy in
    let row = y * stride src 0 in
    let half : 2 * i / 2 ≡ i = omega arith in
    let half' : (2 * i + 1) / 2 ≡ i = omega arith in
    four_reads _ _ _ _ _ _ _ _
      (λ a u b v.
        rgb_writes dst y (2 * i) (centred a 16) (centred u 128) (centred v 128)
        ++ rgb_writes dst y (add32 (2 * i) 1) (centred b 16) (centred u 128) (centred v 128))
      (peek_at bs _ (row + 4 * i) (omega arith) (omega arith))
      (peek_at bs _ (row + (4 * i + 1)) (omega arith) (omega arith))
      (peek_at bs _ (row + (4 * i + 2)) (omega arith) (omega arith))
      (peek_at bs _ (row + (4 * i + 3)) (omega arith) (omega arith))
    ∙ ap
        (λ ws. some (
          ws
          ++ from bs dst y (add32 (2 * i) 1) (row + (4 * i + 2)) (row + (4 * i + 1))
              (row + (4 * i + 3))))
        (from_same bs dst y (2 * i) (row + 4 * i) (row + (4 * i + 1)) (row + (4 * i + 3)) (2 * i)
          (row + 2 * (2 * i)) (row + (4 * (2 * i / 2) + 1)) (row + (4 * (2 * i / 2) + 3)) refl
          (omega arith) (omega arith) (omega arith))
    ∙ ap (λ ws. some (three dst (yuyv_picture src bs) y (2 * i) ++ ws))
        (from_same bs dst y (add32 (2 * i) 1) (row + (4 * i + 2)) (row + (4 * i + 1))
          (row + (4 * i + 3)) (2 * i + 1) (row + 2 * (2 * i + 1))
          (row + (4 * ((2 * i + 1) / 2) + 1)) (row + (4 * ((2 * i + 1) / 2) + 3)) (omega arith)
          (omega arith) (omega arith) (omega arith))

-- Two pixels in a round, or one in each: the loops are the same.
paint_pairs :
    (src dst : Framebuffer) (bs m : List ℕ)
    → IsPacked 2 src bs
    → columns src % 2 ≡ 0
    → paint (yuyv_pixels bs src dst) (rows src) ((columns src + 1) / 2) m
      ≡ paint (λ y x. some (three dst (yuyv_picture src bs) y x)) (rows src) (columns src) m
unfolding paint
paint_pairs src dst bs m g even =
    let half : (columns src + 1) / 2 ≡ columns src / 2 = omega arith in
    let twice : 2 * (columns src / 2) ≡ columns src = omega arith in
    let f = three dst (yuyv_picture src bs) in
    each-gather (rows src) 0 _ (λ y. gather (columns src) 0 (f y)) m
      (λ y m' hy.
        each-gather ((columns src + 1) / 2) 0 _ (λ i. f y (2 * i) ++ f y (2 * i + 1)) m'
          (λ i m'' hi.
            ap (λ ws. apply ws m'') (yuyv_pixels_lem src dst bs y i g (omega arith) (omega arith)))
        ∙ ap (λ ws. write_all ws m')
            (ap (λ n. gather n 0 (λ i. f y (2 * i) ++ f y (2 * i + 1))) half
              ∙ gather_pairs (columns src / 2) 0 (f y)
              ∙ ap (λ n. gather n 0 (f y)) twice))
    ∙ sym (paint-picture _ f (rows src) (columns src) (λ y x hy hx. refl) m)

-- Between two frames of the same dimensions with an even number of columns, as the library lays them
-- out, the conversion of YUYV to RGB888 succeeds without an access outside either memory, and gives
-- every pixel the colour of its luma and of the chromas that it shares with its neighbour.
pub yuyv-Shown :
    (src dst : Framebuffer) (bs m : List ℕ)
    → IsPair src dst bs m
    → columns src % 2 ≡ 0
    → IsPacked 2 src bs
    → IsPacked 3 dst m
    → Shown yuyv_to_rgb888 src dst m (yuyv_picture src bs)
unfolding loops
yuyv-Shown src dst bs m p e s g =
    let (m', painted, kept, shows) =
      paint-Shows dst m g (yuyv_picture src bs) (λ y x. some (three dst (yuyv_picture src bs) y x))
        (λ y x hy hx. refl) in
    let same : (rows src ≡ rows dst) × (columns src ≡ columns dst) = (p.height, p.width) in
    loops-Shown yuyv_to_rgb888 src dst bs m _ p (
      m',
      ap (λ (r : ℕ). paint (yuyv_pixels bs src dst) r ((columns dst + 1) / 2) m) (sym same.0)
          ∙ ap (λ (c : ℕ). paint (yuyv_pixels bs src dst) (rows src) ((c + 1) / 2) m) (sym same.1)
          ∙ paint_pairs src dst bs m s e
          ∙ ap
              (λ (r : ℕ).
                paint (λ y x. some (three dst (yuyv_picture src bs) y x)) r (columns src) m)
              same.0
          ∙ ap (λ (c : ℕ). paint (λ y x. some (three dst (yuyv_picture src bs) y x)) (rows dst) c m)
              same.1
          ∙ painted,
      kept,
      shows,
    )
