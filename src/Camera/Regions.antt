-- ===== src/Camera/Regions.antt =====
-- The regions that a camera's buffers hold.
use mathlib.Core.List.{flat_map}
use vision_flow.Base.{
  ℕ, zero, suc, ◌<◌, ◌≡◌, refl, sym, ap, ◌∙◌, List, [], ◌∷◌, ◌++◌, append-nil, append_assoc, length,
  get_or, set, take, drop, arith,
}
use vision_flow.Camera.{Buffer, Pointer, null, map_failed, at}

module _ {A B : Type 0} (f : A → List B) where
  pub flat_map-append : (xs ys : List A) → flat_map f (xs ++ ys) ≡ flat_map f xs ++ flat_map f ys
  unfolding flat_map
  flat_map-append [] ys = refl
  flat_map-append (x ∷ xs) ys =
      rw (flat_map-append xs ys) (sym (append_assoc (f x) (flat_map f xs) (flat_map f ys)))

  pub flat_map-snoc : (xs : List A) (x : A) → flat_map f (xs ++ (x ∷ [])) ≡ flat_map f xs ++ f x
  unfolding flat_map
  flat_map-snoc xs x = flat_map-append xs (x ∷ []) ∙ ap (λ t. flat_map f xs ++ t) (append-nil (f x))

abbrev pub held_at : Pointer → ℕ → List (ℕ × ℕ)
held_at null n = []
held_at map_failed n = []
held_at (at a) n = (a, n) ∷ []

-- What one buffer holds, and what all of them do, in order.
abbrev pub region : Buffer → List (ℕ × ℕ)
region b = held_at b.start b.length

abbrev pub regions : List Buffer → List (ℕ × ℕ)
regions l = flat_map region l

pub regions-split : (i : ℕ) (l : List Buffer) → regions l ≡ regions (take i l) ++ regions (drop i l)
unfolding flat_map
regions-split zero l = refl
regions-split (suc i) [] = refl
regions-split (suc i) (b ∷ l) =
    rw (regions-split i l) (sym (append_assoc (region b) (regions (take i l)) (regions (drop i l))))

pub regions-take :
    (i : ℕ) (l : List Buffer) (d : Buffer)
    → i < length l
    → regions (take (suc i) l) ≡ regions (take i l) ++ region (get_or l i d)
unfolding flat_map
regions-take i [] d h = elim h [ ]
regions-take zero (b ∷ l) d h = append-nil (region b)
regions-take (suc i) (b ∷ l) d h =
    rw (regions-take i l d (omega arith))
      (sym (append_assoc (region b) (regions (take i l)) (region (get_or l i d))))

pub regions-drop :
    (i : ℕ) (l : List Buffer) (d : Buffer)
    → i < length l
    → regions (drop i l) ≡ region (get_or l i d) ++ regions (drop (suc i) l)
unfolding flat_map
regions-drop i [] d h = elim h [ ]
regions-drop zero (b ∷ l) d h = refl
regions-drop (suc i) (b ∷ l) d h = regions-drop i l d (omega arith)

pub take-set : (i : ℕ) (l : List Buffer) (b : Buffer) → take i (set l i b) ≡ take i l
take-set zero l b = refl
take-set (suc i) [] b = refl
take-set (suc i) (c ∷ l) b = ap (λ t. c ∷ t) (take-set i l b)

pub drop-set : (i : ℕ) (l : List Buffer) (b : Buffer) → drop (suc i) (set l i b) ≡ drop (suc i) l
drop-set zero [] b = refl
drop-set zero (c ∷ l) b = refl
drop-set (suc i) [] b = refl
drop-set (suc i) (c ∷ l) b = drop-set i l b

pub drop-set_below :
    (n i : ℕ) (l : List Buffer) (b : Buffer) → i < n → drop n (set l i b) ≡ drop n l
drop-set_below zero i l b h = elim h [ ]
drop-set_below (suc n) i [] b h = refl
drop-set_below (suc n) zero (c ∷ l) b h = refl
drop-set_below (suc n) (suc i) (c ∷ l) b h = drop-set_below n i l b (omega arith)
