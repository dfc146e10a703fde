-- ===== src/Framebuffer/Files/Streams.antt =====
-- What a working stream does, and how the visible bytes of a framebuffer lie in its memory.
use vision_flow.Base.{
  ℕ, zero, suc, ◌+◌, ◌*◌, ◌≤◌, ◌<◌, ◌≡◌, ◌≢◌, ◌⊎◌, refl, ap₂, List, [], ◌∷◌, ◌++◌, arith, length,
  length-append, get_or, ◌==◌, if◌then◌else◌,
}
use vision_flow.Framebuffer.{Plane}
use vision_flow.Framebuffer.Files.{Stdio, bytes_from}
use vision_flow.Framebuffer.Files.Bytes.{length-bytes_from, bytes_from-same}

-- A stream with room: a write that is not empty counts its element and appends its bytes.
pub record HasRoom {S : Type 0} (io : Stdio S) (written : S → List ℕ) : Type 0 where
  pub counts : (xs : List ℕ) (s : S) → length xs ≢ 0 → (io.fwrite xs s).0 ≡ 1
  pub appends : (xs : List ℕ) (s : S) → written (io.fwrite xs s).1 ≡ written s ++ xs

-- A stream that is read: as many bytes as are asked for, if there are, and the rest is left.
pub record Delivers {S : Type 0} (io : Stdio S) (unread : S → List ℕ) : Type 0 where
  pub after : List ℕ → S → S
  pub gives :
      (xs rest : List ℕ) (s : S)
      → length xs ≢ 0
      → unread s ≡ xs ++ rest
      → (io.fread (length xs) s ≡ (1, xs, after xs s)) × (unread (after xs s) ≡ rest)

-- The visible bytes of n lines of a plane, and of planes, from an address on.
abbrev pub lines_of : List ℕ → Plane → ℕ → ℕ → List ℕ
lines_of m p at zero = []
lines_of m p at (suc n) = bytes_from m at p.line_size ++ lines_of m p (at + p.stride) n

abbrev pub image : List ℕ → List Plane → ℕ → List ℕ
image m [] at = []
image m (p ∷ ps) at =
    if p.size == 0 then [] else lines_of m p at p.height ++ image m ps (at + p.size)

-- A plane whose lines lie in memory of some length, and planes one after another up to an empty one.
pub record IsFit (p : Plane) (at len : ℕ) : Type 0 where
  pub line : p.line_size ≤ p.stride
  pub visible : p.line_size ≢ 0
  pub present : p.size ≢ 0
  pub whole : p.size ≡ p.stride * p.height
  pub inside : at + p.size ≤ len

abbrev pub AllFit : List Plane → ℕ → ℕ → Type 0
AllFit [] at len = Unit {0}
AllFit (p ∷ ps) at len = (p.size ≡ 0) ⊎ (IsFit p at len × AllFit ps (at + p.size) len)

pub length-lines_of :
    (m : List ℕ) (p : Plane) (at n : ℕ)
    → p.line_size ≤ p.stride
    → length (lines_of m p at n) ≤ p.stride * n
length-lines_of m p at zero h = omega arith
length-lines_of m p at (suc n) h =
    let rest = length-lines_of m p (at + p.stride) n h in
    let split = length-append (bytes_from m at p.line_size) (lines_of m p (at + p.stride) n) in
    let first = length-bytes_from m at p.line_size in
    let times : p.stride * suc n ≡ p.stride + p.stride * n = grind arith in
    omega (arith, rest, split, first, times)

-- Memories that agree on the plane have the same lines.
pub lines_of-same :
    (m m' : List ℕ) (p : Plane) (at n : ℕ)
    → p.line_size ≤ p.stride
    → ((i : ℕ) → at ≤ i → i < at + p.stride * n → get_or m' i 0 ≡ get_or m i 0)
    → lines_of m' p at n ≡ lines_of m p at n
lines_of-same m m' p at zero h same = refl
lines_of-same m m' p at (suc n) h same =
    let times : p.stride * suc n ≡ p.stride + p.stride * n = grind arith in
    ap₂ ◌++◌ (bytes_from-same m m' at p.line_size (λ i lo hi. same i lo (omega arith)))
      (lines_of-same m m' p (at + p.stride) n h (λ i lo hi. same i (omega arith) (omega arith)))
