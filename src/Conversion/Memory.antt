-- ===== src/Conversion/Memory.antt =====
-- Reads and writes of a frame's memory, and the loops over its pixels. `none` is an access outside
-- the memory.
pub mod Writes
use vision_flow.Base.{
  ℕ, zero, suc, Option, none, some, List, [], ◌∷◌, ltb, if◌then◌else◌, get_or, set, length,
}

infixl 5 ◌>>=◌
abbrev pub ◌>>=◌ {ℓ κ} : {A : Type ℓ} {B : Type κ} → Option A → (A → Option B) → Option B
none >>= f = none
some a >>= f = f a

unfoldable pub peek : List ℕ → ℕ → Option ℕ
peek m a = if ltb a (length m) then some (get_or m a 0) else none

-- One assignment to a byte.
pub record Write : Type 0 where
  pub at : ℕ
  pub value : ℕ

abbrev pub write : ℕ → ℕ → Write
write a v = record { at = a; value = v }

unfoldable pub poke : Write → List ℕ → Option (List ℕ)
poke w m = if ltb w.at (length m) then some (set m w.at w.value) else none

-- The assignments of a piece of code, in order.
unfoldable pub write_all : List Write → List ℕ → Option (List ℕ)
write_all [] m = some m
write_all (w ∷ ws) m = poke w m >>= write_all ws

-- `for (k = i; k < i + n; k++)`.
unfoldable pub each : ℕ → ℕ → (ℕ → List ℕ → Option (List ℕ)) → List ℕ → Option (List ℕ)
each zero i body m = some m
each (suc n) i body m = body i m >>= each n (suc i) body

-- What a pixel reads decides what it writes: `none` is a read outside the source.
abbrev pub apply : Option (List Write) → List ℕ → Option (List ℕ)
apply ws m = ws >>= λ l. write_all l m

-- The loops over rows and columns, `pixel y x`.
unfoldable pub paint : (ℕ → ℕ → Option (List Write)) → ℕ → ℕ → List ℕ → Option (List ℕ)
unfolding each
paint pixel rows columns m = each rows 0 (λ y. each columns 0 (λ x. apply (pixel y x))) m
