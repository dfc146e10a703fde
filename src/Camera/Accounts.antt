-- ===== src/Camera/Accounts.antt =====
-- What a camera has mapped and opened, through its whole life.
use mathlib.Core.List.{flat_map}
use native.Mathlib.Nat.{zero-add}
use vision_flow.Base.{
  ℕ, ◌≤◌, ◌≡◌, refl, sym, subst, ◌∙◌, none, some, [], ◌∷◌, ◌++◌, append-nil, length, drop, arith,
}
use vision_flow.Camera.Calls.{Kernel, closed, last_of, Trace, maps, unmaps, opens, closes}
use vision_flow.Camera.{Session, State, unmap_all, close_as}
use vision_flow.Camera.Regions.{regions, regions-split}
use vision_flow.Camera.Books.{Books, Books-closed}
use vision_flow.Camera.Mapping.{Filling}
use vision_flow.Camera.Unmapping.{fds, Emptying, unmap_from-Emptying}

-- What a camera's trace has left mapped is what its buffers hold, and what it has left open is its
-- descriptor; the buffers in use are within the array, and a camera without a descriptor holds nothing.
pub record Accounted (s : Session) : Type 0 where
  pub sixteen : length s.camera.buffers ≡ 16
  pub within : s.camera.buffer_count ≤ 16
  pub above : regions (drop s.camera.buffer_count s.camera.buffers) ≡ []
  pub books : Books s.trace (regions s.camera.buffers) (fds s.camera.fd)
  pub idle : s.camera.fd ≡ none → regions s.camera.buffers ≡ []

-- Nothing is mapped and nothing is open.
pub record Released (s : Session) : Type 0 where
  pub accounted : Accounted s
  pub fd : s.camera.fd ≡ none
  pub unmapped : maps s.trace ≡ unmaps s.trace
  pub closed : opens s.trace ≡ closes s.trace

-- A driver grants no more buffers than the array has.
abbrev pub Grants : Kernel → Type 0
Grants kernel = (t : Trace) (n a : ℕ) → last_of (kernel.reqbufs_reply t n) ≡ some a → a ≤ 16

pub Released-by : {s : Session} → Accounted s → s.camera.fd ≡ none → Released s
Released-by {s = s} h e = record {
  accounted = h;
  fd = e;
  unmapped = h.books.mapped ∙ rw (h.idle e, append-nil) refl;
  closed = h.books.opened ∙ rw (e, append-nil) refl;
}

pub Released-Books : {s : Session} → Released s → Books s.trace [] []
Released-Books h = record {
  mapped = h.unmapped ∙ sym (append-nil _);
  opened = h.closed ∙ sym (append-nil _);
}

-- A camera that has mapped all its buffers.
pub Filling-Accounted : {n fd : ℕ} {s : Session} → n ≤ 16 → Filling n (some fd) n s → Accounted s
Filling-Accounted {n = n} {fd = fd} {s = s} le h =
    let l = s.camera.buffers in
    let above : regions (drop s.camera.buffer_count l) ≡ [] = rw h.count h.above in
    record {
      sixteen = h.sixteen;
      within = omega (arith, h.count);
      above = above;
      books =
          subst (λ f. Books s.trace (regions l) (fds f)) (sym h.open_as)
            (subst (λ r. Books s.trace r (fd ∷ []))
              (sym (regions-split n l ∙ rw (h.above, append-nil) refl)) h.books);
      idle = λ e. absurd (cc (e, h.open_as));
    }

close_as-Released :
    {n fd : ℕ} {s : Session} (st : State) → Emptying n (some fd) n s → Released (close_as st s)
close_as-Released {n = n} {fd = fd} {s = s} st h =
    let l = s.camera.buffers in
    let none_held : regions l ≡ [] = regions-split n l ∙ rw (h.below, h.above) refl in
    let books : Books (s.trace ++ (closed fd ∷ [])) [] [] =
      Books-closed fd (subst (λ r. Books s.trace r (fd ∷ [])) h.above h.books) in
    Released-by
      (rw h.open_as (record {
        sixteen = h.sixteen;
        within = omega (arith, h.count, h.within);
        above = rw h.count h.above;
        books = rw none_held books;
        idle = λ e. none_held;
      }))
      refl

-- The unmapping and the close.
pub Accounted-closed :
    (st : State) (fd : ℕ) {s : Session}
    → s.camera.fd ≡ some fd
    → Accounted s
    → Released (close_as st (unmap_all s))
unfolding flat_map
Accounted-closed st fd {s = s} open_as h =
    let n = s.camera.buffer_count in
    close_as-Released st (
      subst (λ m. Emptying n (some fd) m (unmap_all s)) (zero-add n)
        (unmap_from-Emptying n 0 (omega arith) (record {
          sixteen = h.sixteen;
          count = refl;
          open_as = open_as;
          within = h.within;
          above = h.above;
          below = refl;
          books = subst (λ f. Books s.trace (regions s.camera.buffers) (fds f)) open_as h.books;
        })))
