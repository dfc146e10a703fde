-- ===== src/Parser/Values.antt =====
-- What the parser reads behind a key.
use vision_flow.Base.{
  if_elim, ℕ, ◌<◌, ◌≡◌, ◌≢◌, refl, true, false, Option, none, some, [], ◌∷◌, ◌++◌, ◌==◌, ltb,
  length, arith,
}
use vision_flow.Parser.{
  extract_string, after_colon, quoted_value, closed_value, skip_blanks, is_blank,
}
use vision_flow.Parser.Strings.{Text, strchr, ◌>>=◌}

-- A text without a character.
pub data Lacks (c : ℕ) : Text → Type 0 where
  nothing : Lacks c []
  other : (x : ℕ) (s : Text) → x ≢ c → Lacks c s → Lacks c (x ∷ s)

-- A text of blanks.
pub data Blanks : Text → Type 0 where
  no_blank : Blanks []
  blank : (x : ℕ) (s : Text) → is_blank x ≡ true → Blanks s → Blanks (x ∷ s)

-- A result, if there is one, has a property.
abbrev pub Ensures : {A : Type 0} → (A → Type 0) → Option A → Type 0
Ensures P none = Unit
Ensures P (some a) = P a

pub bind-Ensures :
    {A B : Type 0} (P : A → Type 0) (Q : B → Type 0) (m : Option A) (f : A → Option B)
    → Ensures P m
    → ((a : A) → P a → Ensures Q (f a))
    → Ensures Q (m >>= f)
bind-Ensures P Q none f h k = tt
bind-Ensures P Q (some a) f h k = k a h

pub bind_any-Ensures :
    {A B : Type 0} (Q : B → Type 0) (m : Option A) (f : A → Option B)
    → ((a : A) → Ensures Q (f a))
    → Ensures Q (m >>= f)
bind_any-Ensures Q none f k = tt
bind_any-Ensures Q (some a) f k = k a

strchr-Lacks :
    {c : ℕ} {s : Text} (rest : Text) → Lacks c s → strchr (s ++ (c ∷ rest)) c ≡ some (s, rest)
unfolding strchr
strchr-Lacks {c = c} rest nothing = ground arith
strchr-Lacks {c = c} rest (other x s ne l) = ground (arith, strchr-Lacks rest l)

skip_blanks-Blanks :
    {s : Text} (rest : Text) → Blanks s → skip_blanks (s ++ (34 ∷ rest)) ≡ 34 ∷ rest
skip_blanks-Blanks rest no_blank = refl
skip_blanks-Blanks rest (blank x s e l) = rw e (skip_blanks-Blanks rest l)

-- A key without a colon, a colon, blanks, and a value without a quote between two quotes: the value is read
-- into a buffer that is longer, whatever follows.
pub extract_string-printed :
    (key blanks value rest : Text) (max_len : ℕ)
    → Lacks b':' key
    → Blanks blanks
    → Lacks 34 value
    → length value < max_len
    → extract_string (key ++ (b':' ∷ (blanks ++ (34 ∷ (value ++ (34 ∷ rest)))))) max_len
      ≡ some value
unfolding extract_string after_colon closed_value
extract_string-printed key blanks value rest max_len k b v lt =
    let pos : (max_len == 0) ≡ false = ground arith in
    let fits : ltb (length value) max_len ≡ true = ground arith in
    rw pos (
      rw (strchr-Lacks (blanks ++ (34 ∷ (value ++ (34 ∷ rest)))) k) (
        rw (skip_blanks-Blanks (value ++ (34 ∷ rest)) b) (rw (strchr-Lacks rest v) (rw fits refl))))

abbrev pub Fits : ℕ → Text → Type 0
Fits max_len v = length v < max_len

closed_value-Fits :
    (max_len : ℕ) (o : Option (Text × Text)) → Ensures (Fits max_len) (closed_value max_len o)
unfolding closed_value
closed_value-Fits max_len none = tt
closed_value-Fits max_len (some (value, rest)) =
    if_elim (Ensures (Fits max_len)) (ltb (length value) max_len) (λ e. ground arith) (λ e. tt)

quoted_value-Fits : (max_len : ℕ) (s : Text) → Ensures (Fits max_len) (quoted_value max_len s)
quoted_value-Fits max_len [] = tt
quoted_value-Fits max_len (c ∷ s) =
    if_elim (Ensures (Fits max_len)) (c == 34) (λ e. closed_value-Fits max_len (strchr s 34))
      (λ e. tt)

after_colon-Fits :
    (max_len : ℕ) (o : Option (Text × Text)) → Ensures (Fits max_len) (after_colon max_len o)
unfolding after_colon
after_colon-Fits max_len none = tt
after_colon-Fits max_len (some (before, start)) = quoted_value-Fits max_len (skip_blanks start)

-- What is read fits into the buffer with its NUL.
pub extract_string-Fits :
    (src : Text) (max_len : ℕ) → Ensures (Fits max_len) (extract_string src max_len)
unfolding extract_string
extract_string-Fits src max_len =
    if_elim (Ensures (Fits max_len)) (max_len == 0) (λ e. tt)
      (λ e. after_colon-Fits max_len (strchr src b':'))
