-- ===== src/BuffPool/Exclusive.antt =====
-- Who holds a slot, over the calls of several threads.
use vision_flow.Base.{
  ℕ, ◌<◌, ◌≡◌, ◌≢◌, refl, sym, ap, subst, ◌∙◌, Bool, true, false, Option, none, some, List, [], ◌∷◌,
  arith, ◌==◌, get_or, get_or-set_ne, if_elim,
}
use vision_flow.Error.{VfErr}
use vision_flow.Sync.{Returned, FrameResult, Outcome, worked, mutex_lock}
use vision_flow.BuffPool.{
  Pool, grab, acquire_at, release_at, shutdown_at, reset_at, address, release_found,
}
use vision_flow.BuffPool.Slots.{slot_at, find_slot}
use vision_flow.BuffPool.Counting.{slot_at-injective, find_slot-some}
use vision_flow.BuffPool.Invariant.{
  IsValid, IsLent, marked, cleared, grab_lem, give_back_lem, marked-IsValid, cleared-IsValid,
}
use vision_flow.BuffPool.Lending.{slot_at-ne-zero}
use vision_flow.BuffPool.Threads.{Op, acquires, releases, shuts_down, resets, step, run}

-- How a call can leave a valid pool: as it was but for the shutdown flag, with a free slot marked and
-- its address handed out, or with the lent slot at the released address cleared.
data Change (p : Pool) (op : Op) (a : ℕ) (q : Pool) : Type 0 where
  keeps : (s : Bool) → a ≡ 0 → q ≡ record p { shutdown = s } → Change p op a q
  lends :
      (i : ℕ)
      → i < p.capacity
      → get_or p.in_use i 0 ≡ 0
      → a ≡ slot_at p.place i
      → q ≡ marked p i
      → Change p op a q
  clears :
      (rc : Returned) (i : ℕ)
      → op ≡ releases rc (slot_at p.place i)
      → i < p.capacity
      → IsLent p i
      → a ≡ 0
      → q ≡ cleared p i
      → Change p op a q

acquire-Change :
    (rc : Returned) {p : Pool} (op : Op)
    → IsValid p
    → Change p op (address (acquire_at rc p).ret.out) (acquire_at rc p).obj
unfolding acquire_at
acquire-Change rc {p} op v =
    if_elim P (p.initialized == 0) (λ _. same)
      (λ _.
        if_elim P (worked rc mutex_lock)
          (λ _. if_elim P (p.available == 0) (λ _. same) (λ e. taken (ground arith))) (λ _. same))
  where
    P : Outcome FrameResult Pool → Type 0
    P o = Change p op (address o.ret.out) o.obj

    same : Change p op 0 p
    same = keeps p.shutdown refl refl

    taken : p.available ≢ 0 → Change p op (address (grab p).0) (grab p).1
    taken ne =
        let g = grab_lem v ne in lends g.0 g.1 g.2 (ap (λ r. address r.0) g.3) (ap (λ r. r.1) g.3)

release-Change :
    (rc : Returned) {p : Pool} (fb : ℕ)
    → IsValid p
    → Change p (releases rc fb) 0 (release_at rc p fb).obj
unfolding release_at
release-Change rc {p} fb v =
    if_elim P (fb == 0) (λ _. same)
      (λ _.
        if_elim P (p.initialized == 0) (λ _. same)
          (λ _.
            if_elim P (worked rc mutex_lock) (λ _. found (find_slot p.place p.capacity 0 fb) refl)
              (λ _. same)))
  where
    P : Outcome VfErr Pool → Type 0
    P o = Change p (releases rc fb) 0 o.obj

    same : Change p (releases rc fb) 0 p
    same = keeps p.shutdown refl refl

    found : (r : Option ℕ) → find_slot p.place p.capacity 0 fb ≡ r → P (release_found rc p r)
    found none e = same
    found (some i) e =
        let at = find_slot-some p.place p.capacity 0 fb i e in
        if_elim P (get_or p.in_use i 0 == 0) (λ _. same)
          (λ held.
            clears rc i (ap (releases rc) at.2) (omega (arith, at.1)) (ground arith) refl
              (give_back_lem i v))

step-Change : {p : Pool} (op : Op) → IsValid p → Change p op (step p op).0 (step p op).1
unfolding step
step-Change (acquires rc) v = acquire-Change rc (acquires rc) v
step-Change (releases rc fb) v = release-Change rc fb v
step-Change {p} (shuts_down rc) v = shut (worked rc mutex_lock) refl
  where
    shut : (b : Bool) → worked rc mutex_lock ≡ b → Change p (shuts_down rc) 0 (shutdown_at rc p).obj
    shut true e = keeps true refl (unfold shutdown_at in rw e)
    shut false e = keeps p.shutdown refl (unfold shutdown_at in rw e)
step-Change resets v = keeps false refl (unfold reset_at in refl)

Change-IsValid : {p : Pool} {op : Op} {a : ℕ} {q : Pool} → IsValid p → Change p op a q → IsValid q
Change-IsValid v (keeps s _ e) = rw e (record {
  ready = v.ready;
  storage = v.storage;
  nonempty = v.nonempty;
  small = v.small;
  counted = v.counted;
  sized = v.sized;
  placed = v.placed;
})
Change-IsValid v (lends i h z _ e) = subst IsValid (sym e) (marked-IsValid i v h z)
Change-IsValid v (clears rc i _ h lent _ e) = subst IsValid (sym e) (cleared-IsValid i v h lent)

-- Every call keeps the pool valid, whatever the thread calls return.
pub lending_run-IsValid : (ops : List Op) (p : Pool) → IsValid p → IsValid (run p ops).1
unfolding run
lending_run-IsValid [] p v = v
lending_run-IsValid (op ∷ ops) p v =
    lending_run-IsValid ops (step p op).1 (Change-IsValid v (step-Change op v))

-- No call of the sequence releases this pointer.
abbrev pub Keeps : ℕ → List Op → Type 0
Keeps fb [] = Unit {0}
Keeps fb (releases rc a ∷ ops) = (a ≢ fb) × Keeps fb ops
Keeps fb (_ ∷ ops) = Keeps fb ops

abbrev pub NotAmong : ℕ → List ℕ → Type 0
NotAmong fb [] = Unit {0}
NotAmong fb (a ∷ as') = (a ≢ fb) × NotAmong fb as'

-- The pointer that a release names.
abbrev target : Op → ℕ
target (releases rc a) = a
target _ = 0

Keeps-head :
    (fb : ℕ) (op : Op) (ops : List Op) → Keeps fb (op ∷ ops) → (rc : Returned) → op ≢ releases rc fb
Keeps-head fb (acquires rc) ops k rc' = λ e. cc
Keeps-head fb (releases rc a) ops k rc' = λ e. k.0 (ap target e)
Keeps-head fb (shuts_down rc) ops k rc' = λ e. cc
Keeps-head fb resets ops k rc' = λ e. cc

Keeps-tail : (fb : ℕ) (op : Op) (ops : List Op) → Keeps fb (op ∷ ops) → Keeps fb ops
Keeps-tail fb (acquires rc) ops k = k
Keeps-tail fb (releases rc a) ops k = k.1
Keeps-tail fb (shuts_down rc) ops k = k
Keeps-tail fb resets ops k = k

-- A slot that is lent out and not released stays lent, is not handed out again, and stays in place.
Change-IsLent :
    {p : Pool} {op : Op} {a : ℕ} {q : Pool} (i : ℕ)
    → IsValid p
    → IsLent p i
    → ((rc : Returned) → op ≢ releases rc (slot_at p.place i))
    → Change p op a q
    → IsLent q i × (a ≢ slot_at p.place i) × (q.place ≡ p.place)
Change-IsLent {p} i v lent no_release (keeps s ea e) = (
  subst (λ q. IsLent q i) (sym e) lent,
  λ x. slot_at-ne-zero i v (sym x ∙ ea),
  ap (λ q. q.place) e,
)
Change-IsLent {p} i v lent no_release (lends j h z ea e) =
    let other : j ≢ i = λ x. lent (subst (λ k. get_or p.in_use k 0 ≡ 0) x z) in
    (
      subst (λ q. IsLent q i) (sym e) (λ x. lent (sym (get_or-set_ne p.in_use j i 1 0 other) ∙ x)),
      λ x. other (slot_at-injective p.place j i v.sized (sym ea ∙ x)),
      ap (λ q. q.place) e,
    )
Change-IsLent {p} i v lent no_release (clears rc j eo h l ea e) =
    let other : j ≢ i = λ x. no_release rc (eo ∙ ap (λ k. releases rc (slot_at p.place k)) x) in
    (
      subst (λ q. IsLent q i) (sym e) (λ x. lent (sym (get_or-set_ne p.in_use j i 0 0 other) ∙ x)),
      λ x. slot_at-ne-zero i v (sym x ∙ ea),
      ap (λ q. q.place) e,
    )

-- While a slot of a valid pool is lent and none of the calls that the threads make releases it, no
-- acquire among those calls hands it out again, and it is still lent afterwards. The thread calls may
-- fail in any way.
pub IsLent-exclusive :
    (ops : List Op) (p : Pool) (i : ℕ)
    → IsValid p
    → IsLent p i
    → Keeps (slot_at p.place i) ops
    → NotAmong (slot_at p.place i) (run p ops).0 × IsLent (run p ops).1 i
unfolding run
IsLent-exclusive [] p i v lent k = (tt, lent)
IsLent-exclusive (op ∷ ops) p i v lent k =
    let c = step-Change op v in
    let now = Change-IsLent i v lent (Keeps-head (slot_at p.place i) op ops k) c in
    let there : slot_at (step p op).1.place i ≡ slot_at p.place i = ap (λ m. slot_at m i) now.2 in
    let rest =
      IsLent-exclusive ops (step p op).1 i (Change-IsValid v c) now.0
        (subst (λ a. Keeps a ops) (sym there) (Keeps-tail (slot_at p.place i) op ops k)) in
    ((now.1, subst (λ a. NotAmong a (run (step p op).1 ops).0) there rest.0), rest.1)
