-- ===== src/Camera/Mapping.antt =====
-- The loops that map and queue a camera's buffers, and what the camera holds while they run.
use native.Mathlib.Nat.{add-zero, add-suc, suc-add}
use vision_flow.Base.{
  if_elim, ℕ, zero, suc, ◌+◌, ◌≤◌, ◌<◌, ◌≡◌, refl, sym, ap, subst, ◌∙◌, Option, none, some, List,
  [], ◌∷◌, ◌++◌, append-nil, length, length-set, get_or, get_or-set_self, set, take, drop, arith,
}
use vision_flow.Error.{VfErr, success, is_success}
use vision_flow.Camera.Calls.{Request, Tries, last_of, mapped, Kernel, querybuf, qbuf, Trace}
use vision_flow.Camera.{
  stopped, pointer, set_buffer, written, Buffer, Session, camera_ioctl, no_buffer,
}
use vision_flow.Camera.Setup.{map_reply, map_buffer, queue_buffer, for_buffers}
use vision_flow.Camera.Regions.{
  held_at, region, regions, regions-take, regions-drop, take-set, drop-set,
}
use vision_flow.Camera.Books.{
  Books, Books-quiet, Books-mapped, camera_ioctl-Books, camera_ioctl-camera, camera_ioctl-success,
  camera_ioctl-eq,
}
use vision_flow.Camera.Unmapping.{fds, access_within}

append-empty : (xs ys : List (ℕ × ℕ)) → xs ++ ys ≡ [] → (xs ≡ []) × (ys ≡ [])
append-empty [] ys h = (refl, h)
append-empty (x ∷ xs) ys h = cc

-- Before the i-th buffer is mapped: those below hold all that is mapped, and none above holds any.
pub record Filling (n : ℕ) (fd : Option ℕ) (i : ℕ) (s : Session) : Type 0 where
  pub sixteen : length s.camera.buffers ≡ 16
  pub count : s.camera.buffer_count ≡ n
  pub open_as : s.camera.fd ≡ fd
  pub halted : s.camera.state ≡ stopped
  pub above : regions (drop i s.camera.buffers) ≡ []
  pub books : Books s.trace (regions (take i s.camera.buffers)) (fds fd)

-- One buffer more is mapped, or its pointer is MAP_FAILED.
Filling-set :
    {n i : ℕ} {fd : Option ℕ} {s : Session} (b : Buffer) (t : Trace)
    → i < 16
    → Filling n fd i s
    → Books t (regions (take i s.camera.buffers) ++ region b) (fds fd)
    → Filling n fd (suc i) (record s { camera = set_buffer s.camera i b; trace = t })
Filling-set {i = i} {fd = fd} {s = s} b t lt h books =
    let l = s.camera.buffers in
    let within : i < length l = omega (arith, h.sixteen) in
    record {
      sixteen = length-set l i b ∙ h.sixteen;
      count = h.count;
      open_as = h.open_as;
      halted = h.halted;
      above =
          rw (drop-set i l b)
            (append-empty (region (get_or l i no_buffer)) _
              (sym (regions-drop i l no_buffer within) ∙ h.above)).1;
      books =
          subst (λ r. Books t r (fds fd))
            (sym (
              regions-take i (set l i b) no_buffer
                (subst (λ k. i < k) (sym (length-set l i b)) within)
              ∙ rw (take-set i l b, get_or-set_self l i b no_buffer within) refl))
            books;
    }

Books-mmap :
    {t : Trace} {h : List (ℕ × ℕ)} {f : List ℕ} (a : Option ℕ) (n : ℕ)
    → Books t h f
    → Books (t ++ (mapped a n ∷ [])) (h ++ held_at (pointer a) n) f
Books-mmap none n b = rw append-nil (Books-quiet _ (refl, refl) (refl, refl) b)
Books-mmap (some a) n b = Books-mapped a n b

-- A request changes nothing of what the camera holds.
pub asked-Filling :
    {A : Type 0} {n i : ℕ} {fd : Option ℕ} {s : Session} (r : Request) (t : Tries A)
    → Filling n fd i s
    → Filling n fd i (camera_ioctl r t s).after
asked-Filling {i = i} {fd = fd} {s = s} r t h =
    let q = camera_ioctl r t s in
    let same = camera_ioctl-camera r t s in
    record {
      sixteen = ap (λ d. length d.buffers) same ∙ h.sixteen;
      count = ap (λ d. d.buffer_count) same ∙ h.count;
      open_as = ap (λ d. d.fd) same ∙ h.open_as;
      halted = ap (λ d. d.state) same ∙ h.halted;
      above = ap (λ d. regions (drop i d.buffers)) same ∙ h.above;
      books =
          subst (λ d. Books q.after.trace (regions (take i d.buffers)) (fds fd)) (sym same)
            (camera_ioctl-Books r t s h.books);
    }

-- A buffer above is empty.
Filling-weaken :
    {n i : ℕ} {fd : Option ℕ} {s : Session} → i < 16 → Filling n fd i s → Filling n fd (suc i) s
Filling-weaken {i = i} {fd = fd} {s = s} lt h =
    let l = s.camera.buffers in
    let within : i < length l = omega (arith, h.sixteen) in
    let parts =
      append-empty (region (get_or l i no_buffer)) _
        (sym (regions-drop i l no_buffer within) ∙ h.above) in
    record {
      sixteen = h.sixteen;
      count = h.count;
      open_as = h.open_as;
      halted = h.halted;
      above = parts.1;
      books =
          subst (λ r. Books s.trace r (fds fd))
            (sym (regions-take i l no_buffer within ∙ rw (parts.0, append-nil) refl)) h.books;
    }

Filling-weaken_by :
    (k : ℕ) {n i : ℕ} {fd : Option ℕ} {s : Session}
    → i + k ≤ 16
    → Filling n fd i s
    → Filling n fd (i + k) s
Filling-weaken_by zero le h = rw add-zero h
Filling-weaken_by (suc k) le h =
    rw (add-suc, ← suc-add) (Filling-weaken_by k (omega arith) (Filling-weaken (omega arith) h))

module _ (kernel : Kernel) where
  map_reply-Filling :
      {n i : ℕ} {fd : Option ℕ} {s : Session} (reply : Option (ℕ × ℕ))
      → i < 16
      → Filling n fd i s
      → Filling n fd
          (suc i)
          (map_reply kernel i (record { err = success; reply = reply; after = s })).1
  unfolding map_reply
  map_reply-Filling {i = i} {s = s} reply lt h =
      let w = written reply (0, 0) in
      let a = kernel.mmap s.trace w.0 w.1 in
      rw (access_within s i lt)
        (Filling-set (record { start = pointer a; length = w.0 }) _ lt h (Books-mmap a w.0 h.books))

  map_buffer-Filling :
      {n i : ℕ} {fd : Option ℕ} {s : Session}
      → i < 16
      → Filling n fd i s
      → Filling n fd (suc i) (map_buffer kernel i s).1
  map_buffer-Filling {n = n} {i = i} {fd = fd} {s = s} lt h =
      let t = kernel.querybuf_reply s.trace i in
      subst (λ q. Filling n fd (suc i) (map_reply kernel i q).1)
        (sym (camera_ioctl-eq (querybuf i) t s))
        (map_reply-Filling (last_of t) lt (asked-Filling (querybuf i) t h))

  -- The loop that maps the buffers, whether it reaches its end or not.
  pub mapping-Filling :
      (k i : ℕ) {n : ℕ} {fd : Option ℕ} {s : Session}
      → i + k ≤ 16
      → Filling n fd i s
      → Filling n fd (i + k) (for_buffers (map_buffer kernel) k i s).1
  unfolding for_buffers
  mapping-Filling zero i le h = rw add-zero h
  mapping-Filling (suc k) i {n = n} {fd = fd} {s = s} le h =
      let one = map_buffer-Filling (omega arith) h in
      if_elim (λ (r : VfErr × Session). Filling n fd (i + suc k) r.1)
        (is_success (map_buffer kernel i s).0)
        (λ _. rw (add-suc, ← suc-add) (mapping-Filling k (suc i) (omega arith) one))
        (λ _. rw (add-suc, ← suc-add) (Filling-weaken_by k (omega arith) one))

  -- The loop that queues the buffers never ends early.
  pub queueing-Filling :
      (k i : ℕ) {n j : ℕ} {fd : Option ℕ} {s : Session}
      → Filling n fd j s
      → ((for_buffers (queue_buffer kernel) k i s).0 ≡ success)
        × Filling n fd j (for_buffers (queue_buffer kernel) k i s).1
  unfolding for_buffers
  queueing-Filling zero i h = (refl, h)
  queueing-Filling (suc k) i {s = s} h =
      let t = kernel.qbuf_reply s.trace i in
      rw (camera_ioctl-success (qbuf i) t s).0
        (queueing-Filling k (suc i) (asked-Filling (qbuf i) t h))
