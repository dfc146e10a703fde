-- ===== src/Framebuffer/RefCount.antt =====
-- Reference counting over several consumers of a frame.
use vision_flow.Base.{
  ℕ, zero, suc, ◌+◌, ◌-◌, ◌%◌, ◌^◌, ◌<◌, ◌≤◌, ◌≡◌, refl, sym, ap, ◌∙◌, Bool, true, false, List, [],
  ◌∷◌, ◌++◌, arith, replicate, ◌==◌,
}
use vision_flow.Framebuffer.{Framebuffer}
use vision_flow.Framebuffer.Ops.{ref, unref}

-- The references that a producer takes, one for each consumer.
pub refs : ℕ → Framebuffer → Framebuffer
refs zero fb = fb
refs (suc n) fb = refs n (ref fb)

-- The unrefs of n consumers one after another, each an atomic decrement: which of them release.
pub unrefs : ℕ → Framebuffer → List Bool × Framebuffer
unrefs zero fb = ([], fb)
unrefs (suc n) fb = let (r, fb') = unref true fb in let (rs, fb'') = unrefs n fb' in (r ∷ rs, fb'')

abbrev pub with_count : Framebuffer → ℕ → Framebuffer
with_count fb n = record fb { ref_count = n }

refs_lem :
    (n m k : ℕ) (fb : Framebuffer)
    → k ≡ m + n
    → k < 2 ^ 32
    → refs n (with_count fb m) ≡ with_count fb k
unfolding refs ref
refs_lem zero m k fb e h = ap (with_count fb) (omega arith)
refs_lem (suc n) m k fb e h = refs_lem n ((m + 1) % 2 ^ 32) k fb (omega arith) h

unref_shared :
    (fb : Framebuffer) (n : ℕ)
    → suc (suc n) < 2 ^ 32
    → unref true (with_count fb (suc (suc n))) ≡ (false, with_count fb (suc n))
unfolding unref
unref_shared fb n h =
    let lowered : (suc (suc n) + 2 ^ 32 - 1) % 2 ^ 32 ≡ suc n = omega arith in
    let not_none : (suc (suc n) == 0) ≡ false = ground arith in
    let not_last : (suc (suc n) == 1) ≡ false = ground arith in rw (not_none, not_last, lowered)

unref_last : (fb : Framebuffer) → unref true (with_count fb 1) ≡ (true, with_count fb 0)
unfolding unref
unref_last fb = refl

unrefs_lem :
    (n : ℕ) (fb : Framebuffer)
    → suc n < 2 ^ 32
    → unrefs (suc n) (with_count fb (suc n)) ≡ (replicate n false ++ (true ∷ []), with_count fb 0)
unfolding unrefs
unrefs_lem zero fb h = rw (unref_last fb)
unrefs_lem (suc n) fb h =
    let rest = unrefs_lem n fb (omega arith) in
    rw (unref_shared fb n h) (unfold unrefs in λ i. (false ∷ (rest i).0, (rest i).1))

-- A frame without references that is given one reference for each of n consumers (n at least 1 and
-- below 2^32) is released exactly once when the n consumers drop theirs: by the last of them. The
-- frame ends up as it was, with a count of 0.
pub unrefs-refs :
    (n : ℕ) (fb : Framebuffer)
    → fb.ref_count ≡ 0
    → suc n < 2 ^ 32
    → unrefs (suc n) (refs (suc n) fb) ≡ (replicate n false ++ (true ∷ []), fb)
unrefs-refs n fb e h =
    let same : with_count fb 0 ≡ fb = ap (with_count fb) (sym e) in
    ap (λ f. unrefs (suc n) (refs (suc n) f)) (sym same)
    ∙ ap (unrefs (suc n)) (refs_lem (suc n) 0 (suc n) fb (omega arith) h)
    ∙ unrefs_lem n fb h
    ∙ ap (λ f. (replicate n false ++ (true ∷ []), f)) same

-- The only reference, or none at all: the frame is released.
pub unref_only :
    (fb : Framebuffer) → fb.ref_count ≤ 1 → unref true fb ≡ (true, record fb { ref_count = 0 })
unfolding unref
unref_only fb h = ground arith

-- One of several references: the frame is kept, with one fewer.
pub unref_one :
    (fb : Framebuffer)
    → 1 < fb.ref_count
    → fb.ref_count < 2 ^ 32
    → unref true fb ≡ (false, record fb { ref_count = fb.ref_count - 1 })
unfolding unref
unref_one fb h k = ground arith
