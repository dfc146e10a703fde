-- ===== src/BuffPool/Counting.antt =====
-- Facts about the slot loops: what is found, and how marking a slot changes the number of free ones.
use vision_flow.Base.{
  ℕ, zero, suc, ◌+◌, ◌≤◌, ◌<◌, ◌≡◌, ◌≢◌, refl, none, some, List, [], ◌∷◌, arith, ◌==◌,
  if◌then◌else◌, get_or, set, length,
}
use vision_flow.BuffPool.Slots.{Memory, slot_at, first_free, find_slot}

-- How many of the first `n` entries are 0.
abbrev pub free_count : ℕ → List ℕ → ℕ
free_count zero used = 0
free_count (suc n) [] = 0
free_count (suc n) (u ∷ used) = (if u == 0 then 1 else 0) + free_count n used

pub free_count-le : (n : ℕ) (us : List ℕ) → free_count n us ≤ n
free_count-le zero us = omega arith
free_count-le (suc n) [] = omega arith
free_count-le (suc n) (u ∷ us) = ground (arith, free_count-le n us)

pub first_free-some :
    (n : ℕ) (us : List ℕ) (i : ℕ)
    → first_free n us ≡ some i
    → (i < n) × (i < length us) × (get_or us i 0 ≡ 0)
unfolding first_free
first_free-some zero us i e = cc
first_free-some (suc n) [] i e = cc
first_free-some (suc n) (u ∷ us) zero e = ground arith
first_free-some (suc n) (u ∷ us) (suc i) e = ground (arith, first_free-some n us i)

pub first_free-none :
    (n : ℕ) (us : List ℕ) → n ≤ length us → first_free n us ≡ none → free_count n us ≡ 0
unfolding first_free
first_free-none zero us h e = refl
first_free-none (suc n) [] h e = absurd (omega arith)
first_free-none (suc n) (u ∷ us) h e = ground (arith, first_free-none n us)

pub free_count-mark :
    (n : ℕ) (us : List ℕ) (i v : ℕ)
    → i < n
    → i < length us
    → get_or us i 0 ≡ 0
    → v ≢ 0
    → free_count n us ≡ suc (free_count n (set us i v))
free_count-mark zero us i v h k z ne = absurd (omega arith)
free_count-mark (suc n) [] i v h k z ne = absurd (omega arith)
free_count-mark (suc n) (u ∷ us) zero v h k z ne = ground arith
free_count-mark (suc n) (u ∷ us) (suc i) v h k z ne =
    omega (arith, free_count-mark n us i v (omega arith) (omega arith) z ne)

pub free_count-clear :
    (n : ℕ) (us : List ℕ) (i : ℕ)
    → i < n
    → i < length us
    → get_or us i 0 ≢ 0
    → free_count n (set us i 0) ≡ suc (free_count n us)
free_count-clear zero us i h k ne = absurd (omega arith)
free_count-clear (suc n) [] i h k ne = absurd (omega arith)
free_count-clear (suc n) (u ∷ us) zero h k ne = ground arith
free_count-clear (suc n) (u ∷ us) (suc i) h k ne =
    omega (arith, free_count-clear n us i (omega arith) (omega arith) ne)

-- Two slots lie at two addresses.
pub slot_at-injective : (m : Memory) (i j : ℕ) → 0 < m.sizeof → slot_at m i ≡ slot_at m j → i ≡ j
unfolding slot_at
slot_at-injective m i j h e = grind arith

pub find_slot-some :
    (m : Memory) (n i fb j : ℕ)
    → find_slot m n i fb ≡ some j
    → (i ≤ j) × (j < i + n) × (fb ≡ slot_at m j)
unfolding find_slot
find_slot-some m zero i fb j e = cc
find_slot-some m (suc n) i fb j e = ground (arith, find_slot-some m n (i + 1) fb j)

pub find_slot-slot_at :
    (m : Memory) (n i j : ℕ)
    → 0 < m.sizeof
    → i ≤ j
    → j < i + n
    → find_slot m n i (slot_at m j) ≡ some j
unfolding find_slot
find_slot-slot_at m zero i j pos h k = absurd (omega arith)
find_slot-slot_at m (suc n) i j pos h k =
    ground (arith, find_slot-slot_at m n (i + 1) j, slot_at-injective m j i)
