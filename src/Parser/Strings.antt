-- ===== src/Parser/Strings.antt =====
-- The functions of the C library that vf-parser.c calls on texts. A `char *` into a text is what is left
-- of the text from there on, without the NUL at its end.
use Prim.Native.String.{String}
use Prim.Native.Char.{code}
use vision_flow.Base.{
  ℕ, zero, suc, ◌+◌, ◌*◌, ◌-◌, Bool, true, false, ◌&&◌, ◌||◌, Option, none, some, List, [], ◌∷◌,
  ◌==◌, if◌then◌else◌, leb,
}
use vision_flow.Base.Int.{ℤ, pos, negsuc}

abbrev pub Text : Type 0
Text = List ℕ

-- The bytes of a literal.
abbrev pub codes : String → Text
codes String.[] = []
codes (String.◌∷◌ c s) = code c ∷ codes s

-- A text ends at its first NUL.
unfoldable pub c_string : Text → Text
c_string [] = []
c_string (c ∷ s) = if c == 0 then [] else c ∷ c_string s

abbrev pub is_prefix : Text → Text → Bool
is_prefix [] s = true
is_prefix (k ∷ ks) [] = false
is_prefix (k ∷ ks) (c ∷ s) = (k == c) && is_prefix ks s

-- `strstr`.
unfoldable pub strstr : Text → Text → Option Text
strstr [] key = if is_prefix key [] then some [] else none
strstr (c ∷ s) key = let rest = strstr s key in if is_prefix key (c ∷ s) then some (c ∷ s) else rest

-- `strchr`: what lies before the first such character, and what follows it.
unfoldable pub strchr : Text → ℕ → Option (Text × Text)
strchr [] c = none
strchr (x ∷ s) c =
    if x == c
    then some ([], s)
    else elim (strchr s c) [ none ↦ none | some (before, after) ↦ some (x ∷ before, after) ]

-- `strcmp(a, b) == 0`.
abbrev pub same_text : Text → Text → Bool
same_text [] [] = true
same_text [] (b ∷ bs) = false
same_text (a ∷ as') [] = false
same_text (a ∷ as') (b ∷ bs) = (a == b) && same_text as' bs

abbrev pub is_digit : ℕ → Bool
is_digit c = leb 48 c && leb c 57

unfoldable pub digits : ℕ → Text → ℕ
digits n [] = n
digits n (c ∷ s) = if is_digit c then digits (n * 10 + (c - 48)) s else n

abbrev pub negate : ℕ → ℤ
negate zero = pos 0
negate (suc n) = negsuc n

abbrev pub signed : Text → ℤ
signed [] = pos 0
signed (c ∷ s) =
    if c == b'-'
    then negate (digits 0 s)
    else if c == b'+'
    then pos (digits 0 s)
    else pos (digits 0 (c ∷ s))

-- `isspace` of the C locale.
abbrev pub is_space : ℕ → Bool
is_space c = (c == 32) || (leb 9 c && leb c 13)

-- `atoi`, at numbers within the range of an int; past it C leaves the value undefined.
unfoldable pub atoi : Text → ℤ
atoi [] = pos 0
atoi (c ∷ s) = if is_space c then atoi s else signed (c ∷ s)

infixl 5 ◌>>=◌
abbrev pub ◌>>=◌ : {A B : Type 0} → Option A → (A → Option B) → Option B
none >>= f = none
some a >>= f = f a

-- The positions below n at which a key stands: a loop of strstr that goes on one character after each
-- occurrence, while it finds one below n.
unfoldable pub occurrences : Text → ℕ → Text → ℕ
occurrences key zero s = 0
occurrences key (suc n) [] = 0
occurrences key (suc n) (c ∷ s) =
    let rest = occurrences key n s in if is_prefix key (c ∷ s) then suc rest else rest
