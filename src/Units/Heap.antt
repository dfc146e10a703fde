-- ===== src/Units/Heap.antt =====
-- Reading back from the framebuffers.
use vision_flow.Base.{ℕ, ◌≡◌, ◌≢◌, refl, arith, ◌==◌, if_elim}
use vision_flow.Framebuffer.{Framebuffer}
use vision_flow.Units.{put_frame}

pub put_elsewhere :
    (frames : ℕ → Framebuffer) (a b : ℕ) (fb : Framebuffer)
    → b ≢ a
    → put_frame frames a fb b ≡ frames b
put_elsewhere frames a b fb ne =
    if_elim (λ t. t ≡ frames b) (b == a) (λ e. absurd (ne (ground arith))) (λ _. refl)

pub put_here : (frames : ℕ → Framebuffer) (a : ℕ) (fb : Framebuffer) → put_frame frames a fb a ≡ fb
put_here frames a fb = if_elim (λ t. t ≡ fb) (a == a) (λ _. refl) (λ e. absurd (ground arith))
