-- ===== src/Framebuffer.antt =====
-- libraries/vf_framebuffer: the framebuffer structure, its plane layout, allocation, copies, metadata
-- and reference counting. Memory that `data` points to is a list of bytes, `none` is NULL. The C
-- library's `malloc` is an argument.
pub mod Format
pub mod Ops
pub mod RefCount
pub mod Layout
pub mod Files
mod Tests
use vision_flow.Base.{
  ℕ, ◌+◌, ◌-◌, ◌*◌, ◌/◌, ◌%◌, ◌^◌, Bool, true, false, ◌&&◌, ◌||◌, Option, none, some, List, [], ◌∷◌,
  ◌++◌, ◌==◌, if◌then◌else◌, replicate, drop, take,
}
use vision_flow.Error.{
  VfErr, success, invalid_parameter, oom, PixelFmt, unknown, rgb888, bgr888, rgba8888, yuv420p,
  nv12, raw8, yuyv, mjpeg, last, fmt_eq,
}
use Format.{bpp}

-- `vf_fb_params_t`.
pub record Params : Type 0 where
  pub width : ℕ
  pub height : ℕ
  pub format : PixelFmt

-- One entry of the `plane_...` arrays of `vf_framebuffer_t`.
pub record Plane : Type 0 where
  pub width : ℕ
  pub height : ℕ
  pub line_size : ℕ
  pub stride : ℕ
  pub size : ℕ

-- `vf_frame_meta_t`. `source` is the address of the source's name.
pub record FrameMeta : Type 0 where
  pub frame_id : ℕ
  pub sequence_index : ℕ
  pub timestamp_ms : ℕ
  pub source : ℕ
  pub width : ℕ
  pub height : ℕ
  pub format : PixelFmt

-- `vf_framebuffer_t`, the four entries of its plane arrays grouped by plane.
pub record Framebuffer : Type 0 where
  pub bytes : Option (List ℕ)
  pub total_size : ℕ
  pub owns_memory : ℕ
  pub params : Params
  pub num_planes : ℕ
  pub planes : List Plane
  pub info : FrameMeta
  pub ref_count : ℕ

-- `uint32_t` arithmetic.
abbrev pub add32 : ℕ → ℕ → ℕ
add32 a b = (a + b) % 2 ^ 32

abbrev pub mul32 : ℕ → ℕ → ℕ
mul32 a b = (a * b) % 2 ^ 32

-- `ALIGN_SIZE(x, 16U)`: the mask clears the low four bits.
unfoldable pub align16 : ℕ → ℕ
align16 x = let s = add32 x 15 in s - s % 16

abbrev pub no_plane : Plane
no_plane = record { width = 0; height = 0; line_size = 0; stride = 0; size = 0 }

abbrev pub no_planes : List Plane
no_planes = no_plane ∷ no_plane ∷ no_plane ∷ no_plane ∷ []

-- One plane as the `init_planes_...` functions fill it in.
unfoldable pub plane_of : ℕ → ℕ → ℕ → Plane
plane_of width height line_size = record {
  width = width;
  height = height;
  line_size = line_size;
  stride = align16 line_size;
  size = mul32 (align16 line_size) height;
}

-- `reset_plane_info`.
unfoldable pub reset_plane_info : Framebuffer → Framebuffer
reset_plane_info fb = record fb { planes = no_planes; num_planes = 0; total_size = 0 }

-- `init_planes_packed`: nothing is set up for a format without a packed pixel size.
unfoldable pub init_planes_packed : Framebuffer → Params → Framebuffer
init_planes_packed fb p =
    let bits = bpp p.format in
    let plane = plane_of p.width p.height (mul32 p.width bits / 8) in
    if bits == 0 then fb else record fb {
      num_planes = 1;
      planes = plane ∷ no_plane ∷ no_plane ∷ no_plane ∷ [];
      total_size = plane.size;
    }

-- `init_planes_yuv420p`.
unfoldable pub init_planes_yuv420p : Framebuffer → Params → Framebuffer
init_planes_yuv420p fb p =
    let luma = plane_of p.width p.height p.width in
    let chroma = plane_of (p.width / 2) (p.height / 2) (p.width / 2) in
    record fb {
      num_planes = 3;
      planes = luma ∷ chroma ∷ chroma ∷ no_plane ∷ [];
      total_size = add32 (add32 luma.size chroma.size) chroma.size;
    }

-- `init_planes_nv12`.
unfoldable pub init_planes_nv12 : Framebuffer → Params → Framebuffer
init_planes_nv12 fb p =
    let luma = plane_of p.width p.height p.width in
    let chroma = plane_of p.width (p.height / 2) p.width in
    record fb {
      num_planes = 2;
      planes = luma ∷ chroma ∷ no_plane ∷ no_plane ∷ [];
      total_size = add32 luma.size chroma.size;
    }

-- The switch of `init_planes`. The MJPEG format has no case of its own: it falls to `default`.
unfoldable pub init_planes_for : PixelFmt → Framebuffer → Params → VfErr × Framebuffer
init_planes_for rgb888 fb p = (success, init_planes_packed fb p)
init_planes_for bgr888 fb p = (success, init_planes_packed fb p)
init_planes_for rgba8888 fb p = (success, init_planes_packed fb p)
init_planes_for raw8 fb p = (success, init_planes_packed fb p)
init_planes_for yuyv fb p = (success, init_planes_packed fb p)
init_planes_for yuv420p fb p = (success, init_planes_yuv420p fb p)
init_planes_for nv12 fb p = (success, init_planes_nv12 fb p)
init_planes_for f fb p = (invalid_parameter, fb)

-- `init_planes` at pointers that are not NULL.
unfoldable pub init_planes : Framebuffer → Params → VfErr × Framebuffer
init_planes fb p = init_planes_for p.format (reset_plane_info fb) p

abbrev pub no_params : Params
no_params = record { width = 0; height = 0; format = unknown }

-- A framebuffer after `memset(fb, 0, sizeof(*fb))`.
abbrev pub zeroed : Framebuffer
zeroed = record {
  bytes = none;
  total_size = 0;
  owns_memory = 0;
  params = no_params;
  num_planes = 0;
  planes = no_planes;
  info = record {
    frame_id = 0;
    sequence_index = 0;
    timestamp_ms = 0;
    source = 0;
    width = 0;
    height = 0;
    format = unknown;
  };
  ref_count = 0;
}

-- `memset(data, v, n)`.
abbrev pub memset : List ℕ → ℕ → ℕ → List ℕ
memset bs v n = replicate n v ++ drop n bs

-- The end of `vf_framebuffer_alloc`: the memory for the planes that are set up.
unfoldable pub alloc_data : (ℕ → Option (List ℕ)) → Framebuffer → VfErr × Framebuffer
alloc_data malloc fb = elim (malloc fb.total_size) [
  | none ↦ (oom, fb)
  | some bs ↦ (success, record fb { bytes = some (memset bs 0 fb.total_size); owns_memory = 1 })
]

-- `vf_framebuffer_alloc` at pointers that are not NULL.
unfoldable pub alloc : (ℕ → Option (List ℕ)) → Framebuffer → Params → VfErr × Framebuffer
alloc malloc fb p =
    let planned = init_planes (record zeroed { params = p }) p in
    let allocated = alloc_data malloc planned.1 in
    if p.width == 0 || p.height == 0
    then (invalid_parameter, fb)
    else if fmt_eq p.format unknown || fmt_eq p.format last
    then (invalid_parameter, fb)
    else elim planned.0 [ success ↦ allocated | e ↦ planned ]

-- `vf_framebuffer_wrap` at pointers that are not NULL.
unfoldable pub wrap : Framebuffer → List ℕ → Params → ℕ → VfErr × Framebuffer
wrap fb bs p total_size =
    let planned = init_planes (record zeroed { params = p; bytes = some bs }) p in
    let wrapped = planned.1 in
    if total_size == 0 then (invalid_parameter, fb) else elim planned.0 [
      | success ↦ (success, record wrapped { total_size = total_size })
      | e ↦ (e, record wrapped { bytes = none })
    ]

-- `vf_framebuffer_free` at a pointer that is not NULL.
unfoldable pub free : Framebuffer → Framebuffer
free fb =
    reset_plane_info
      (record fb { bytes = none; total_size = 0; owns_memory = 0; params = no_params })

-- `vf_framebuffer_calculate_size` at a pointer that is not NULL.
unfoldable pub calculate_size : Params → ℕ
calculate_size p =
    let planned = init_planes (record zeroed { params = p }) p in
    elim planned.0 [ success ↦ planned.1.total_size | e ↦ 0 ]
