-- ===== src/Framebuffer/Files/Bytes.antt =====
-- Reading back what was stored in memory.
use vision_flow.Base.{
  ℕ, zero, suc, ◌+◌, ◌≤◌, ◌<◌, ◌≡◌, ◌⊎◌, inl, inr, refl, ap, ◌∙◌, some, List, [], ◌∷◌, arith,
  length, get_or, set, length-set, get_or-set_self, get_or-set_ne, leb, if_elim,
}
use vision_flow.Framebuffer.Files.{bytes_from, stored, load, store}

pub length-bytes_from : (m : List ℕ) (a n : ℕ) → length (bytes_from m a n) ≡ n
length-bytes_from m a zero = refl
length-bytes_from m a (suc n) = ap suc (length-bytes_from m (suc a) n)

pub length-stored : (xs : List ℕ) (a : ℕ) (m : List ℕ) → length (stored xs a m) ≡ length m
length-stored [] a m = refl
length-stored (x ∷ xs) a m = length-stored xs (suc a) (set m a x) ∙ length-set m a x

-- Outside the bytes that were stored, memory is as before.
pub stored_outside :
    (xs : List ℕ) (a : ℕ) (m : List ℕ) (i : ℕ)
    → (i < a) ⊎ (a + length xs ≤ i)
    → get_or (stored xs a m) i 0 ≡ get_or m i 0
stored_outside [] a m i o = refl
stored_outside (x ∷ xs) a m i o =
    stored_outside xs (suc a) (set m a x) i
      (elim o [ inl h ↦ inl (omega arith) | inr h ↦ inr (omega arith) ])
    ∙ get_or-set_ne m a i x 0 (elim o [ inl h ↦ omega arith | inr h ↦ omega arith ])

-- Memories that agree at these addresses hold the same bytes there.
pub bytes_from-same :
    (m m' : List ℕ) (a n : ℕ)
    → ((i : ℕ) → a ≤ i → i < a + n → get_or m' i 0 ≡ get_or m i 0)
    → bytes_from m' a n ≡ bytes_from m a n
bytes_from-same m m' a zero h = refl
bytes_from-same m m' a (suc n) h =
    ap (λ x. x ∷ bytes_from m' (suc a) n) (h a (omega arith) (omega arith))
    ∙ ap (λ xs. get_or m a 0 ∷ xs)
        (bytes_from-same m m' (suc a) n (λ i lo hi. h i (omega arith) (omega arith)))

pub bytes_from-stored :
    (xs : List ℕ) (a : ℕ) (m : List ℕ)
    → a + length xs ≤ length m
    → bytes_from (stored xs a m) a (length xs) ≡ xs
bytes_from-stored [] a m h = refl
bytes_from-stored (x ∷ xs) a m h =
    ap (λ y. y ∷ bytes_from (stored xs (suc a) (set m a x)) (suc a) (length xs))
      (stored_outside xs (suc a) (set m a x) a (inl (omega arith))
        ∙ get_or-set_self m a x 0 (omega arith))
    ∙ ap (λ ys. x ∷ ys) (bytes_from-stored xs (suc a) (set m a x) (omega (arith, length-set m a x)))

pub load_inside : (m : List ℕ) (a n : ℕ) → a + n ≤ length m → load m a n ≡ some (bytes_from m a n)
unfolding load
load_inside m a n h =
    if_elim (λ t. t ≡ some (bytes_from m a n)) (leb (a + n) (length m)) (λ _. refl)
      (λ e. ground arith)

pub store_inside :
    (xs : List ℕ) (a : ℕ) (m : List ℕ)
    → a + length xs ≤ length m
    → store xs a m ≡ some (stored xs a m)
unfolding store
store_inside xs a m h =
    if_elim (λ t. t ≡ some (stored xs a m)) (leb (a + length xs) (length m)) (λ _. refl)
      (λ e. ground arith)
