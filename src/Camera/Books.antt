-- ===== src/Camera/Books.antt =====
-- What a trace leaves mapped and open, and how each call changes it.
use vision_flow.Base.{ap₂, ℕ, ◌≡◌, refl, some, List, [], ◌∷◌, ◌++◌, append_assoc, append-nil}
use vision_flow.Error.{success}
use vision_flow.Camera.Calls.{
  Request, Call, opened, mapped, unmapped, closed, Trace, Tries, accepted, failed, interrupted,
  last_of, region_mapped, region_unmapped, fd_opened, fd_closed, maps, unmaps, opens, closes,
}
use vision_flow.Camera.{Session, camera_ioctl}
use vision_flow.Camera.Regions.{flat_map-snoc}

-- After a trace the regions of a list are mapped, and the descriptors of another are open.
pub record Books (t : Trace) (held : List (ℕ × ℕ)) (fds : List ℕ) : Type 0 where
  pub mapped : maps t ≡ unmaps t ++ held
  pub opened : opens t ≡ closes t ++ fds

-- A call at the end of a trace.
ruleset trace_laws = (flat_map-snoc, append-nil, append_assoc)

pub Books-quiet :
    {t : Trace} {h : List (ℕ × ℕ)} {f : List ℕ} (c : Call)
    → (region_mapped c ≡ []) × (region_unmapped c ≡ [])
    → (fd_opened c ≡ []) × (fd_closed c ≡ [])
    → Books t h f
    → Books (t ++ (c ∷ [])) h f
Books-quiet c (m, u) (o, d) b = record {
  mapped = simp (trace_laws, m, u, b.mapped);
  opened = simp (trace_laws, o, d, b.opened);
}

pub Books-mapped :
    {t : Trace} {h : List (ℕ × ℕ)} {f : List ℕ} (a n : ℕ)
    → Books t h f
    → Books (t ++ (mapped (some a) n ∷ [])) (h ++ ((a, n) ∷ [])) f
Books-mapped a n b = record {
  mapped = simp (trace_laws, b.mapped);
  opened = simp (trace_laws, b.opened);
}

pub Books-unmapped :
    {t : Trace} {h : List (ℕ × ℕ)} {f : List ℕ} (a n : ℕ)
    → Books t ((a, n) ∷ h) f
    → Books (t ++ (unmapped a n ∷ [])) h f
Books-unmapped a n b = record {
  mapped = simp (trace_laws, b.mapped);
  opened = simp (trace_laws, b.opened);
}

pub Books-opened :
    {t : Trace} {h : List (ℕ × ℕ)} (fd : ℕ)
    → Books t h []
    → Books (t ++ (opened (some fd) ∷ [])) h (fd ∷ [])
Books-opened fd b = record {
  mapped = simp (trace_laws, b.mapped);
  opened = simp (trace_laws, b.opened);
}

pub Books-closed :
    {t : Trace} {h : List (ℕ × ℕ)} (fd : ℕ)
    → Books t h (fd ∷ [])
    → Books (t ++ (closed fd ∷ [])) h []
Books-closed fd b = record {
  mapped = simp (trace_laws, b.mapped);
  opened = simp (trace_laws, b.opened);
}

pub camera_ioctl-Books :
    {A : Type 0} {h : List (ℕ × ℕ)} {f : List ℕ} (r : Request) (t : Tries A) (s : Session)
    → Books s.trace h f
    → Books (camera_ioctl r t s).after.trace h f
unfolding camera_ioctl
camera_ioctl-Books r (accepted a) s b = Books-quiet _ (refl, refl) (refl, refl) b
camera_ioctl-Books r failed s b = Books-quiet _ (refl, refl) (refl, refl) b
camera_ioctl-Books r (interrupted t) s b =
    camera_ioctl-Books r t _ (Books-quiet _ (refl, refl) (refl, refl) b)

pub camera_ioctl-camera :
    {A : Type 0} (r : Request) (t : Tries A) (s : Session)
    → (camera_ioctl r t s).after.camera ≡ s.camera
unfolding camera_ioctl
camera_ioctl-camera r (accepted a) s = refl
camera_ioctl-camera r failed s = refl
camera_ioctl-camera r (interrupted t) s = camera_ioctl-camera r t _

-- Whatever the kernel answers, also when it fails, camera_ioctl returns VF_SUCCESS; it hands on what the
-- kernel wrote.
pub camera_ioctl-success :
    {A : Type 0} (r : Request) (t : Tries A) (s : Session)
    → ((camera_ioctl r t s).err ≡ success) × ((camera_ioctl r t s).reply ≡ last_of t)
unfolding camera_ioctl
camera_ioctl-success r (accepted a) s = (refl, refl)
camera_ioctl-success r failed s = (refl, refl)
camera_ioctl-success r (interrupted t) s = camera_ioctl-success r t _

pub camera_ioctl-eq :
    {A : Type 0} (r : Request) (t : Tries A) (s : Session)
    → camera_ioctl r t s
      ≡ record { err = success; reply = last_of t; after = (camera_ioctl r t s).after }
camera_ioctl-eq r t s =
    let (e, a) = camera_ioctl-success r t s in
    ap₂ (λ x y. record { err = x; reply = y; after = (camera_ioctl r t s).after }) e a
