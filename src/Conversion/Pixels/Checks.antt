-- ===== src/Conversion/Pixels/Checks.antt =====
-- What the routines have in common: the validation of the frames, and the reads of a pixel.
use vision_flow.Base.{
  ℕ, ◌<◌, ◌≡◌, refl, ap, ◌∙◌, Option, some, List, arith, length, get_or, if_elim,
}
use vision_flow.Error.{success}
use vision_flow.Framebuffer.{Framebuffer}
use vision_flow.Conversion.{ConvertFn}
use vision_flow.Conversion.Memory.{◌>>=◌, peek}
use vision_flow.Conversion.Memory.Writes.{peek-inside}
use vision_flow.Conversion.Pixels.{loops, validated, same_dimensions, convert, convert_bytes}
use vision_flow.Conversion.Pixels.Geometry.{rows, columns}

-- Two frames of the same dimensions, and their memory.
pub record IsPair (src dst : Framebuffer) (bs m : List ℕ) : Type 0 where
  pub from : src.bytes ≡ some bs
  pub to : dst.bytes ≡ some m
  pub height : rows src ≡ rows dst
  pub width : columns src ≡ columns dst

pub validated_lem :
    (src dst : Framebuffer) (bs m : List ℕ) (r : Option (List ℕ))
    → IsPair src dst bs m
    → validated src dst r ≡ (r >>= λ m'. some (success, record dst { bytes = some m' }))
unfolding validated
validated_lem src dst bs m r p =
    if_elim (λ t. t ≡ (r >>= λ m'. some (success, record dst { bytes = some m' })))
      (same_dimensions src dst) (λ _. refl) (λ e. ground (arith, p.height, p.width))

pub convert_lem :
    (fn : ConvertFn) (src dst : Framebuffer) (bs m : List ℕ)
    → IsPair src dst bs m
    → convert fn src dst ≡ (
        loops fn src dst (rows dst) (columns dst) bs m >>= λ m'.
        some (success, record dst { bytes = some m' }))
unfolding convert convert_bytes
convert_lem fn src dst bs m p =
    ap (λ b. convert_bytes fn src dst b dst.bytes) p.from
    ∙ ap (convert_bytes fn src dst (some bs)) p.to
    ∙ validated_lem src dst bs m _ p
    ∙ ap (λ r. r >>= λ m'. some (success, record dst { bytes = some m' }))
        (ap (λ h. loops fn src dst h (columns src) bs m) p.height
          ∙ ap (λ c. loops fn src dst (rows dst) c bs m) p.width)

-- A read at an address that is computed without a wrap and lies inside.
pub peek_at : (bs : List ℕ) (a b : ℕ) → a ≡ b → b < length bs → peek bs a ≡ some (get_or bs b 0)
peek_at bs a b e h = ap (peek bs) e ∙ peek-inside bs b h

pub three_reads :
    {A : Type 0} (p q r : Option ℕ) (a b c : ℕ) (k : ℕ → ℕ → ℕ → A)
    → p ≡ some a
    → q ≡ some b
    → r ≡ some c
    → (do x ← p; y ← q; z ← r; some (k x y z)) ≡ some (k a b c)
three_reads p q r a b c k e f g =
    ap (λ t. t >>= λ x. q >>= λ y. r >>= λ z. some (k x y z)) e
    ∙ ap (λ t. t >>= λ y. r >>= λ z. some (k a y z)) f
    ∙ ap (λ t. t >>= λ z. some (k a b z)) g
