-- ===== src/Framebuffer/Tests.antt =====
-- Runs of the framebuffer operations, and their theorems at concrete inputs.
use vision_flow.Base.{
  ℕ, ◌≡◌, refl, true, false, Option, some, List, [], ◌∷◌, arith, length, replicate,
  length-replicate, subst,
}
use vision_flow.Error.{success, yuv420p, fmt_eq}
use vision_flow.Framebuffer.{
  Params, zeroed, alloc, alloc_data, init_planes, init_planes_for, init_planes_yuv420p, plane_of,
  align16, calculate_size,
}
use vision_flow.Framebuffer.RefCount.{refs, unrefs, unrefs-refs}
use vision_flow.Framebuffer.Layout.{IsLaidOut, sizes, alloc-IsLaidOut}

abbrev params : Params
params = record { width = 6; height = 4; format = yuv420p }

malloc : ℕ → Option (List ℕ)
malloc n = some (replicate n 7)

malloc_lem : (n : ℕ) (bs : List ℕ) → malloc n ≡ some bs → length bs ≡ n
unfolding malloc
malloc_lem n bs e =
    let same : replicate n 7 ≡ bs = cc in
    subst (λ xs. length xs ≡ n) same (length-replicate {A = ℕ} n 7)

alloc_works : (alloc malloc zeroed params).0 ≡ success
unfolding alloc alloc_data init_planes init_planes_for init_planes_yuv420p plane_of align16 malloc
    fmt_eq
alloc_works = refl

size_of_params : calculate_size params ≡ 128
unfolding calculate_size init_planes init_planes_for init_planes_yuv420p plane_of align16
size_of_params = refl

alloc-IsLaidOut_example :
    (bs : List ℕ) × ((alloc malloc zeroed params).1.bytes ≡ some bs)
    × (length bs ≡ sizes (alloc malloc zeroed params).1.planes)
    × (length bs ≡ calculate_size params)
    × ((alloc malloc zeroed params).1.owns_memory ≡ 1)
    × IsLaidOut (alloc malloc zeroed params).1
alloc-IsLaidOut_example = alloc-IsLaidOut malloc zeroed params malloc_lem (omega arith) alloc_works

unrefs-refs_example : unrefs 3 (refs 3 zeroed) ≡ (false ∷ false ∷ true ∷ [], zeroed)
unrefs-refs_example = unrefs-refs 2 zeroed refl (omega arith)
