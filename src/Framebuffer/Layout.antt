-- ===== src/Framebuffer/Layout.antt =====
-- The plane layout: strides, sizes and the memory that is allocated for them.
use vision_flow.Base.{
  ℕ, ◌+◌, ◌*◌, ◌/◌, ◌%◌, ◌≤◌, ◌≡◌, ◌≢◌, refl, ap, ◌∙◌, Option, none, some, List, [], ◌∷◌, arith,
  length, length-append, length-replicate, length-drop, replicate, drop, if_elim, Option-cases, inl,
  inr, sym, subst, ==_iff, ◌==◌,
}
use vision_flow.Error.{
  VfErr, success, PixelFmt, unknown, rgb888, bgr888, rgba8888, yuv420p, nv12, raw8, yuyv, mjpeg,
  last,
}
use vision_flow.Framebuffer.Format.{bpp}
use vision_flow.Framebuffer.{
  Params, Plane, Framebuffer, mul32, align16, plane_of, no_plane, zeroed, init_planes_for,
  init_planes, init_planes_packed, init_planes_yuv420p, init_planes_nv12, reset_plane_info,
  alloc_data, alloc, calculate_size, memset,
}

-- A plane whose lines fit its stride, a multiple of 16, and whose size is stride times height.
pub record IsSound (p : Plane) : Type 0 where
  pub line_fits : p.line_size ≤ p.stride
  pub aligned : p.stride % 16 ≡ 0
  pub whole : p.size ≡ p.stride * p.height

abbrev pub AllSound : List Plane → Type 0
AllSound [] = Unit {0}
AllSound (p ∷ ps) = IsSound p × AllSound ps

abbrev pub sizes : List Plane → ℕ
sizes [] = 0
sizes (p ∷ ps) = p.size + sizes ps

-- Dimensions at which no 32-bit product or sum of the layout wraps.
abbrev pub Fits : Params → Type 0
Fits p = (p.width ≤ 16384) × (p.height ≤ 16384)

align16_lem : (x : ℕ) → x ≤ 65536 → (x ≤ align16 x) × (align16 x % 16 ≡ 0) × (align16 x ≤ 65536)
unfolding align16
align16_lem x h = omega arith

area_bound : (s h : ℕ) → s ≤ 65536 → h ≤ 16384 → s * h ≤ 65536 * 16384
area_bound s h p q = grind arith

plane_of-IsSound : (w h l : ℕ) → l ≤ 65536 → h ≤ 16384 → IsSound (plane_of w h l)
unfolding plane_of
plane_of-IsSound w h l p q =
    let a = align16_lem l p in
    record { line_fits = a.0; aligned = a.1; whole = omega (arith, area_bound (align16 l) h a.2 q) }

no_plane-IsSound : IsSound no_plane
no_plane-IsSound = omega arith

-- What a successful `init_planes` has set up.
pub record IsLaidOut (fb : Framebuffer) : Type 0 where
  pub four : length fb.planes ≡ 4
  pub sound : AllSound fb.planes
  pub total : fb.total_size ≡ sizes fb.planes

size-plane_of-le : (w h l : ℕ) → l ≤ 65536 → h ≤ 16384 → (plane_of w h l).size ≤ 65536 * 16384
unfolding plane_of
size-plane_of-le w h l p q = omega (arith, area_bound (align16 l) h (align16_lem l p).2 q)

line_bound : (w b : ℕ) → w ≤ 16384 → b ≤ 32 → w * b ≤ 16384 * 32
line_bound w b p q = grind arith

packed-IsLaidOut :
    (fb : Framebuffer) (p : Params)
    → Fits p
    → bpp p.format ≢ 0
    → bpp p.format ≤ 32
    → IsLaidOut (init_planes_packed fb p)
unfolding init_planes_packed
packed-IsLaidOut fb p f ne le =
    let line : mul32 p.width (bpp p.format) / 8 ≤ 65536 =
      omega (arith, line_bound p.width (bpp p.format) f.0 le) in
    if_elim IsLaidOut (bpp p.format == 0) (λ e. absurd (ne ((==_iff _ _).0 e)))
      (λ _. record {
        four = refl;
        sound = (
          plane_of-IsSound p.width p.height _ line f.1,
          (no_plane-IsSound, (no_plane-IsSound, (no_plane-IsSound, tt))),
        );
        total = omega arith;
      })

yuv420p-IsLaidOut : (fb : Framebuffer) (p : Params) → Fits p → IsLaidOut (init_planes_yuv420p fb p)
unfolding init_planes_yuv420p
yuv420p-IsLaidOut fb p f =
    let luma = plane_of-IsSound p.width p.height p.width (omega arith) f.1 in
    let chroma =
      plane_of-IsSound (p.width / 2) (p.height / 2) (p.width / 2) (omega arith) (omega arith) in
    record {
      four = refl;
      sound = (luma, (chroma, (chroma, (no_plane-IsSound, tt))));
      total = omega (
        arith,
        size-plane_of-le p.width p.height p.width (omega arith) f.1,
        size-plane_of-le (p.width / 2) (p.height / 2) (p.width / 2) (omega arith) (omega arith),
      );
    }

nv12-IsLaidOut : (fb : Framebuffer) (p : Params) → Fits p → IsLaidOut (init_planes_nv12 fb p)
unfolding init_planes_nv12
nv12-IsLaidOut fb p f =
    let luma = plane_of-IsSound p.width p.height p.width (omega arith) f.1 in
    let chroma = plane_of-IsSound p.width (p.height / 2) p.width (omega arith) (omega arith) in
    record {
      four = refl;
      sound = (luma, (chroma, (no_plane-IsSound, (no_plane-IsSound, tt))));
      total = omega (
        arith,
        size-plane_of-le p.width p.height p.width (omega arith) f.1,
        size-plane_of-le p.width (p.height / 2) p.width (omega arith) (omega arith),
      );
    }

init_planes_for-IsLaidOut :
    (format : PixelFmt) (fb : Framebuffer) (p : Params)
    → format ≡ p.format
    → Fits p
    → (init_planes_for format fb p).0 ≡ success
    → IsLaidOut (init_planes_for format fb p).1
unfolding init_planes_for bpp
init_planes_for-IsLaidOut rgb888 fb p e f ok =
    packed-IsLaidOut fb p f (rw (← e) (omega arith)) (rw (← e) (omega arith))
init_planes_for-IsLaidOut bgr888 fb p e f ok =
    packed-IsLaidOut fb p f (rw (← e) (omega arith)) (rw (← e) (omega arith))
init_planes_for-IsLaidOut rgba8888 fb p e f ok =
    packed-IsLaidOut fb p f (rw (← e) (omega arith)) (rw (← e) (omega arith))
init_planes_for-IsLaidOut raw8 fb p e f ok =
    packed-IsLaidOut fb p f (rw (← e) (omega arith)) (rw (← e) (omega arith))
init_planes_for-IsLaidOut yuyv fb p e f ok =
    packed-IsLaidOut fb p f (rw (← e) (omega arith)) (rw (← e) (omega arith))
init_planes_for-IsLaidOut yuv420p fb p e f ok = yuv420p-IsLaidOut fb p f
init_planes_for-IsLaidOut nv12 fb p e f ok = nv12-IsLaidOut fb p f
init_planes_for-IsLaidOut unknown fb p e f ok = cc
init_planes_for-IsLaidOut mjpeg fb p e f ok = cc
init_planes_for-IsLaidOut last fb p e f ok = cc

-- The layout that `vf_framebuffer_alloc` and `vf_framebuffer_calculate_size` compute.
abbrev planned : Params → VfErr × Framebuffer
planned p = init_planes (record zeroed { params = p }) p

planned-IsLaidOut : (p : Params) → Fits p → (planned p).0 ≡ success → IsLaidOut (planned p).1
unfolding init_planes
planned-IsLaidOut p f ok =
    init_planes_for-IsLaidOut p.format (reset_plane_info (record zeroed { params = p })) p refl f ok

alloc_of_success :
    (malloc : ℕ → Option (List ℕ)) (fb : Framebuffer) (p : Params)
    → (alloc malloc fb p).0 ≡ success
    → ((planned p).0 ≡ success) × (alloc malloc fb p ≡ alloc_data malloc (planned p).1)
unfolding alloc
alloc_of_success malloc fb p ok = ground arith

alloc_data_of_success :
    (malloc : ℕ → Option (List ℕ)) (fb : Framebuffer)
    → ((n : ℕ) (bs : List ℕ) → malloc n ≡ some bs → length bs ≡ n)
    → (alloc_data malloc fb).0 ≡ success
    → (bs : List ℕ) × (length bs ≡ fb.total_size)
      × ((alloc_data malloc fb).1 ≡ record fb { bytes = some bs; owns_memory = 1 })
unfolding alloc_data
alloc_data_of_success malloc fb law ok = elim (Option-cases (malloc fb.total_size)) [
  | inl e ↦ absurd (failed e)
  | inr (bs, e) ↦ (
    memset bs 0 fb.total_size,
    omega (
      arith,
      length-append {0} (replicate fb.total_size 0) (drop fb.total_size bs),
      length-replicate {A = ℕ} fb.total_size 0,
      length-drop {0} fb.total_size bs,
      law fb.total_size bs e,
    ),
    rw (e, alloc_data),
  )
]
  where
    failed : malloc fb.total_size ≡ none → ⊥
    failed e = ground arith

calculate_size_lem :
    (p : Params) → (planned p).0 ≡ success → calculate_size p ≡ (planned p).1.total_size
unfolding calculate_size
calculate_size_lem p ok = ground arith

-- `vf_framebuffer_alloc` that succeeds, at dimensions up to 16384 and with a `malloc` that returns
-- blocks of the size asked for, has laid the planes out without a wrap: each line fits its stride,
-- strides are multiples of 16, each plane's size is stride times height. The memory is as long as the
-- planes together, which is also what `vf_framebuffer_calculate_size` says, and it is owned.
pub alloc-IsLaidOut :
    (malloc : ℕ → Option (List ℕ)) (fb : Framebuffer) (p : Params)
    → ((n : ℕ) (bs : List ℕ) → malloc n ≡ some bs → length bs ≡ n)
    → Fits p
    → (alloc malloc fb p).0 ≡ success
    → (bs : List ℕ) × ((alloc malloc fb p).1.bytes ≡ some bs)
      × (length bs ≡ sizes (alloc malloc fb p).1.planes)
      × (length bs ≡ calculate_size p)
      × ((alloc malloc fb p).1.owns_memory ≡ 1)
      × IsLaidOut (alloc malloc fb p).1
alloc-IsLaidOut malloc fb p law f ok =
    let i = alloc_of_success malloc fb p ok in
    let d = alloc_data_of_success malloc (planned p).1 law (subst (λ r. r.0 ≡ success) i.1 ok) in
    let laid = planned-IsLaidOut p f i.0 in
    let result : (alloc malloc fb p).1
        ≡ record ((planned p).1) { bytes = some d.0; owns_memory = 1 } =
      ap (λ r. r.1) i.1 ∙ d.2 in
    rw result (
      d.0,
      refl,
      d.1 ∙ laid.total,
      d.1 ∙ sym (calculate_size_lem p i.0),
      refl,
      record { four = laid.four; sound = laid.sound; total = laid.total },
    )
