-- ===== src/Camera/Unmapping.antt =====
-- The loop that unmaps a camera's buffers.
use native.Mathlib.Nat.{add-zero, add-suc, suc-add}
use vision_flow.Base.{
  ℕ, zero, suc, ◌+◌, ◌≤◌, ◌<◌, ◌≡◌, refl, sym, ap, subst, ◌∙◌, Option, none, some, List, [], ◌∷◌,
  length, length-set, get_or-set_self, set, take, drop, arith,
}
use vision_flow.Camera.{
  access, Buffer, Session, Pointer, null, map_failed, at, no_buffer, unmap_from, munmap_start,
  buffer_at,
}
use vision_flow.Camera.Regions.{
  held_at, region, regions, regions-take, regions-drop, take-set, drop-set, drop-set_below,
}
use vision_flow.Camera.Books.{Books, Books-unmapped}

abbrev pub fds : Option ℕ → List ℕ
fds none = []
fds (some fd) = fd ∷ []

-- Before the i-th buffer is unmapped: those from it on hold all that is mapped.
pub record Emptying (n : ℕ) (fd : Option ℕ) (i : ℕ) (s : Session) : Type 0 where
  pub sixteen : length s.camera.buffers ≡ 16
  pub count : s.camera.buffer_count ≡ n
  pub open_as : s.camera.fd ≡ fd
  pub within : n ≤ 16
  pub above : regions (drop n s.camera.buffers) ≡ []
  pub below : regions (take i s.camera.buffers) ≡ []
  pub books : Books s.trace (regions (drop i s.camera.buffers)) (fds fd)

held_as :
    (b : Buffer) (p : Pointer) {c : Buffer} → b ≡ c → p ≡ b.start → region c ≡ held_at p b.length
held_as b p e pe = ap region (sym e) ∙ ap (λ q. held_at q b.length) (sym pe)

-- A buffer that holds nothing is passed over.
Emptying-skip :
    {n i : ℕ} {fd : Option ℕ} {s : Session}
    → i < n
    → region (buffer_at s.camera i) ≡ []
    → Emptying n fd i s
    → Emptying n fd (suc i) s
Emptying-skip {i = i} {fd = fd} {s = s} lt none_held h =
    let l = s.camera.buffers in
    let within : i < length l = omega (arith, h.sixteen, h.within) in
    record {
      sixteen = h.sixteen;
      count = h.count;
      open_as = h.open_as;
      within = h.within;
      above = h.above;
      below = regions-take i l no_buffer within ∙ rw (h.below, none_held) refl;
      books =
          subst (λ r. Books s.trace r (fds fd))
            (regions-drop i l no_buffer within ∙ rw none_held refl) h.books;
    }

-- A buffer that holds a region gives it back.
Emptying-unmap :
    {n i : ℕ} {fd : Option ℕ} {s : Session} (b : Buffer) (a : ℕ)
    → i < n
    → region (buffer_at s.camera i) ≡ (a, b.length) ∷ []
    → Emptying n fd i s
    → Emptying n fd (suc i) (munmap_start s i b (at a))
Emptying-unmap {n = n} {i = i} {fd = fd} {s = s} b a lt held h =
    let l = s.camera.buffers in
    let b' = record b { start = null } in
    let within : i < length l = omega (arith, h.sixteen, h.within) in
    record {
      sixteen = length-set l i b' ∙ h.sixteen;
      count = h.count;
      open_as = h.open_as;
      within = h.within;
      above = rw (drop-set_below n i l b' lt) h.above;
      below =
          regions-take i (set l i b') no_buffer
            (subst (λ k. i < k) (sym (length-set l i b')) within)
          ∙ rw (take-set i l b', h.below, get_or-set_self l i b' no_buffer within) refl;
      books = Books-unmapped a b.length (
          subst (λ r. Books s.trace r (fds fd))
            (regions-drop i l no_buffer within ∙ rw (held, ← drop-set i l b') refl) h.books);
    }

munmap_start-Emptying :
    {n i : ℕ} {fd : Option ℕ} {s : Session} (b : Buffer) (p : Pointer)
    → i < n
    → b ≡ buffer_at s.camera i
    → p ≡ b.start
    → Emptying n fd i s
    → Emptying n fd (suc i) (munmap_start s i b p)
munmap_start-Emptying b null lt e pe h = Emptying-skip lt (held_as b null e pe) h
munmap_start-Emptying b map_failed lt e pe h = Emptying-skip lt (held_as b map_failed e pe) h
munmap_start-Emptying b (at a) lt e pe h = Emptying-unmap b a lt (held_as b (at a) e pe) h

pub access_within : (s : Session) (i : ℕ) → i < 16 → access s i ≡ s
access_within s i lt = ground arith

-- Unmapping every buffer in use gives back all that was mapped.
pub unmap_from-Emptying :
    (k i : ℕ) {n : ℕ} {fd : Option ℕ} {s : Session}
    → i + k ≤ n
    → Emptying n fd i s
    → Emptying n fd (i + k) (unmap_from k i s)
unfolding unmap_from
unmap_from-Emptying zero i le h = rw add-zero h
unmap_from-Emptying (suc k) i {n = n} {s = s} le h =
    let b = buffer_at s.camera i in
    let lt : i < n = omega arith in
    rw (add-suc, ← suc-add)
      (unmap_from-Emptying k (suc i) (omega arith) (
        rw (access_within s i (omega (arith, h.within)))
          (munmap_start-Emptying b b.start lt refl refl h)))
