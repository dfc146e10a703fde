-- ===== src/Conversion/Memory/Writes.antt =====
-- What a sequence of writes leaves in memory.
use vision_flow.Base.{
  ℕ, zero, suc, ◌+◌, ◌≤◌, ◌<◌, ◌≡◌, ◌≢◌, ◌⊎◌, inl, inr, refl, ap, sym, ◌∙◌, subst, Option, none,
  some, List, [], ◌∷◌, ◌++◌, arith, length, get_or, set, length-set, get_or-set_self, get_or-set_ne,
  ltb, if_elim, Bool-cases, ◌==◌, ==_iff,
}
use vision_flow.Conversion.Memory.{◌>>=◌, Write, poke, write_all, each, apply, paint, peek}

-- Every write is inside a memory of this length.
abbrev pub Inside : ℕ → List Write → Type 0
Inside len [] = Unit {0}
Inside len (w ∷ ws) = (w.at < len) × Inside len ws

-- Every write to the address carries this value.
abbrev pub Agrees : ℕ → ℕ → List Write → Type 0
Agrees a v [] = Unit {0}
Agrees a v (w ∷ ws) = (w.at ≡ a → w.value ≡ v) × Agrees a v ws

-- One of the writes is this one.
abbrev pub Writes : ℕ → ℕ → List Write → Type 0
Writes a v [] = ⊥
Writes a v (w ∷ ws) = ((w.at ≡ a) × (w.value ≡ v)) ⊎ Writes a v ws

pub poke-inside : (w : Write) (m : List ℕ) → w.at < length m → poke w m ≡ some (set m w.at w.value)
unfolding poke
poke-inside w m h =
    if_elim (λ x. x ≡ some (set m w.at w.value)) (ltb w.at (length m)) (λ _. refl)
      (λ e. ground arith)

pub peek-inside : (m : List ℕ) (a : ℕ) → a < length m → peek m a ≡ some (get_or m a 0)
unfolding peek
peek-inside m a h =
    if_elim (λ x. x ≡ some (get_or m a 0)) (ltb a (length m)) (λ _. refl) (λ e. ground arith)

-- Writes that are all inside succeed, and leave each address that they agree on with the value.
pub record Wrote (ws : List Write) (m m' : List ℕ) : Type 0 where
  pub kept : length m' ≡ length m
  pub holds :
      (a v : ℕ)
      → a < length m
      → Agrees a v ws
      → (get_or m a 0 ≡ v) ⊎ Writes a v ws
      → get_or m' a 0 ≡ v

set_agrees :
    (m : List ℕ) (w : Write) (a v : ℕ)
    → a < length m
    → (w.at ≡ a → w.value ≡ v)
    → (get_or m a 0 ≡ v) ⊎ ((w.at ≡ a) × (w.value ≡ v))
    → get_or (set m w.at w.value) a 0 ≡ v
set_agrees m w a v h g o = elim (Bool-cases (w.at == a)) [
  | inl e ↦
      let same = (==_iff w.at a).0 e in
      ap (λ b. get_or (set m w.at w.value) b 0) (sym same)
      ∙ get_or-set_self m w.at w.value 0 (subst (λ b. b < length m) (sym same) h)
      ∙ g same
  | inr e ↦
      get_or-set_ne m w.at a w.value 0 (λ same. ground arith) ∙ before o (λ same. ground arith)
]
  where
    before : (get_or m a 0 ≡ v) ⊎ ((w.at ≡ a) × (w.value ≡ v)) → w.at ≢ a → get_or m a 0 ≡ v
    before (inl x) ne = x
    before (inr x) ne = absurd (ne x.0)

pub write_all-Wrote :
    (ws : List Write) (m : List ℕ)
    → Inside (length m) ws
    → (m' : List ℕ) × (write_all ws m ≡ some m') × Wrote ws m m'
unfolding write_all
write_all-Wrote [] m h =
    (m, refl, record { kept = refl; holds = λ a v l g o. elim o [ inl x ↦ x | inr x ↦ absurd x ] })
write_all-Wrote (w ∷ ws) m h =
    let m1 = set m w.at w.value in
    let same = length-set m w.at w.value in
    let rest = write_all-Wrote ws m1 (subst (λ n. Inside n ws) (sym same) h.1) in
    (
      rest.0,
      ap (λ r. r >>= write_all ws) (poke-inside w m h.0) ∙ rest.1,
      record {
        kept = rest.2.kept ∙ same;
        holds = λ a v l g o.
            rest.2.holds a v (subst (λ n. a < n) (sym same) l) g.1 (later m w ws a v l g.0 o);
      },
    )
  where
    later :
        (m : List ℕ) (w : Write) (ws : List Write) (a v : ℕ)
        → a < length m
        → (w.at ≡ a → w.value ≡ v)
        → (get_or m a 0 ≡ v) ⊎ Writes a v (w ∷ ws)
        → (get_or (set m w.at w.value) a 0 ≡ v) ⊎ Writes a v ws
    later m w ws a v l g (inl x) = inl (set_agrees m w a v l g (inl x))
    later m w ws a v l g (inr (inl x)) = inl (set_agrees m w a v l g (inr x))
    later m w ws a v l g (inr (inr x)) = inr x

abbrev Memory : Type 0
Memory = List ℕ

pub >>=-ext :
    (r : Option Memory) (f g : Memory → Option Memory)
    → ((m : Memory) → f m ≡ g m)
    → (r >>= f) ≡ (r >>= g)
>>=-ext none f g h = refl
>>=-ext (some m) f g h = h m

>>=_assoc :
    (r : Option Memory) (f g : Memory → Option Memory) → ((r >>= f) >>= g) ≡ (r >>= λ m. f m >>= g)
>>=_assoc none f g = refl
>>=_assoc (some m) f g = refl

write_all-append :
    (xs ys : List Write) (m : List ℕ) → write_all (xs ++ ys) m ≡ (write_all xs m >>= write_all ys)
unfolding write_all
write_all-append [] ys m = refl
write_all-append (x ∷ xs) ys m =
    >>=-ext (poke x m) _ _ (write_all-append xs ys) ∙ sym (>>=_assoc (poke x m) _ _)

-- A write outside the memory ends the sequence, wherever it stands.
pub write_all_outside :
    (ws : List Write) (m : List ℕ) (a v : ℕ) → Writes a v ws → length m ≤ a → write_all ws m ≡ none
unfolding write_all poke
write_all_outside [] m a v w h = absurd w
write_all_outside (x ∷ ws) m a v (inl e) h =
    ap (λ r. r >>= write_all ws)
      (if_elim (λ r. r ≡ none) (ltb x.at (length m)) (λ lt. ground arith) (λ _. refl))
write_all_outside (x ∷ ws) m a v (inr w) h =
    let later =
      write_all_outside ws (set m x.at x.value) a v w (omega (arith, length-set m x.at x.value)) in
    if_elim (λ r. (r >>= write_all ws) ≡ none) (ltb x.at (length m)) (λ _. later) (λ _. refl)

-- The writes of all rounds of a loop.
unfoldable pub gather : ℕ → ℕ → (ℕ → List Write) → List Write
gather zero i f = []
gather (suc n) i f = f i ++ gather n (suc i) f

pub each-gather :
    (n i : ℕ) (body : ℕ → List ℕ → Option (List ℕ)) (f : ℕ → List Write) (m : List ℕ)
    → ((k : ℕ) (m : List ℕ) → k < i + n → body k m ≡ write_all (f k) m)
    → each n i body m ≡ write_all (gather n i f) m
unfolding each gather write_all
each-gather zero i body f m h = refl
each-gather (suc n) i body f m h =
    ap (λ r. r >>= each n (suc i) body) (h i m (omega arith))
    ∙ >>=-ext (write_all (f i) m) _ _
        (λ m'. each-gather n (suc i) body f m' (λ k m'' l. h k m'' (omega arith)))
    ∙ sym (write_all-append (f i) (gather n (suc i) f) m)

Inside-append :
    (len : ℕ) (xs ys : List Write) → Inside len xs → Inside len ys → Inside len (xs ++ ys)
Inside-append len [] ys h k = k
Inside-append len (x ∷ xs) ys h k = (h.0, Inside-append len xs ys h.1 k)

pub Inside-gather :
    (n i : ℕ) (f : ℕ → List Write) (len : ℕ)
    → ((k : ℕ) → k < i + n → Inside len (f k))
    → Inside len (gather n i f)
unfolding gather
Inside-gather zero i f len h = tt
Inside-gather (suc n) i f len h =
    Inside-append len (f i) _ (h i (omega arith))
      (Inside-gather n (suc i) f len (λ k l. h k (omega arith)))

Agrees-append :
    (a v : ℕ) (xs ys : List Write) → Agrees a v xs → Agrees a v ys → Agrees a v (xs ++ ys)
Agrees-append a v [] ys h k = k
Agrees-append a v (x ∷ xs) ys h k = (h.0, Agrees-append a v xs ys h.1 k)

pub Agrees-gather :
    (n i : ℕ) (f : ℕ → List Write) (a v : ℕ)
    → ((k : ℕ) → k < i + n → Agrees a v (f k))
    → Agrees a v (gather n i f)
unfolding gather
Agrees-gather zero i f a v h = tt
Agrees-gather (suc n) i f a v h =
    Agrees-append a v (f i) _ (h i (omega arith))
      (Agrees-gather n (suc i) f a v (λ k l. h k (omega arith)))

Writes-append :
    (a v : ℕ) (xs ys : List Write) → Writes a v xs ⊎ Writes a v ys → Writes a v (xs ++ ys)
Writes-append a v [] ys (inl w) = absurd w
Writes-append a v [] ys (inr w) = w
Writes-append a v (x ∷ xs) ys (inl (inl e)) = inl e
Writes-append a v (x ∷ xs) ys (inl (inr w)) = inr (Writes-append a v xs ys (inl w))
Writes-append a v (x ∷ xs) ys (inr w) = inr (Writes-append a v xs ys (inr w))

pub Writes-gather :
    (n i : ℕ) (f : ℕ → List Write) (a v k : ℕ)
    → i ≤ k
    → k < i + n
    → Writes a v (f k)
    → Writes a v (gather n i f)
unfolding gather
Writes-gather zero i f a v k lo hi w = absurd (omega arith)
Writes-gather (suc n) i f a v k lo hi w = Writes-append a v (f i) _ (elim (Bool-cases (k == i)) [
  | inl e ↦ inl (subst (λ j. Writes a v (f j)) ((==_iff k i).0 e) w)
  | inr e ↦ inr (Writes-gather n (suc i) f a v k (ground arith) (omega arith) w)
])

-- Over the pixels of a picture whose reads are inside the source.
module _ (pixel : ℕ → ℕ → Option (List Write)) (spec : ℕ → ℕ → List Write) (rows columns : ℕ)
    (reads : (y x : ℕ) → y < rows → x < columns → pixel y x ≡ some (spec y x)) where
  abbrev pub picture : List Write
  picture = gather rows 0 (λ y. gather columns 0 (spec y))

  pub paint-picture : (m : List ℕ) → paint pixel rows columns m ≡ write_all picture m
  unfolding paint
  paint-picture m = each-gather rows 0 _ _ m (λ y m' hy.
      each-gather columns 0 _ _ m'
        (λ x m'' hx. ap (λ ws. apply ws m'') (reads y x (omega arith) (omega arith))))

  -- All the writes are inside: the loops end, and each byte that all writes agree on has that value.
  pub paint-Wrote :
      (m : List ℕ)
      → ((y x : ℕ) → y < rows → x < columns → Inside (length m) (spec y x))
      → (m' : List ℕ) × (paint pixel rows columns m ≡ some m') × Wrote picture m m'
  paint-Wrote m h =
      let w = write_all-Wrote picture m (
        Inside-gather rows 0 _ (length m) (λ y hy.
          Inside-gather columns 0 (spec y) (length m)
            (λ x hx. h y x (omega arith) (omega arith)))) in
      (w.0, paint-picture m ∙ w.1, w.2)

  pub picture-Writes :
      (y x a v : ℕ) → y < rows → x < columns → Writes a v (spec y x) → Writes a v picture
  picture-Writes y x a v hy hx w =
      Writes-gather rows 0 _ a v y (omega arith) (omega arith)
        (Writes-gather columns 0 (spec y) a v x (omega arith) (omega arith) w)

  pub paint_outside :
      (m : List ℕ) (y x a v : ℕ)
      → y < rows
      → x < columns
      → Writes a v (spec y x)
      → length m ≤ a
      → paint pixel rows columns m ≡ none
  paint_outside m y x a v hy hx w h =
      paint-picture m ∙ write_all_outside picture m a v (picture-Writes y x a v hy hx w) h

  -- The byte that pixel (x, y) writes, where no other pixel writes it with another value.
  pub painted :
      (m m' : List ℕ) (y x a v : ℕ)
      → Wrote picture m m'
      → y < rows
      → x < columns
      → Writes a v (spec y x)
      → a < length m
      → ((j i : ℕ) → j < rows → i < columns → Agrees a v (spec j i))
      → get_or m' a 0 ≡ v
  painted m m' y x a v wrote hy hx w l g =
      wrote.holds a v l
        (Agrees-gather rows 0 _ a v (λ j hj.
          Agrees-gather columns 0 (spec j) a v (λ i hi. g j i (omega arith) (omega arith))))
        (inr (picture-Writes y x a v hy hx w))
