-- ===== src/Framebuffer/Files/Tests.antt =====
-- Framebuffers on a stream that is a list of bytes.
use vision_flow.Base.{
  ℕ, ◌≡◌, refl, ap, ◌∙◌, some, List, [], ◌∷◌, ◌++◌, ◌*◌, arith, length, replicate, take, drop, inl,
  inr,
}
use vision_flow.Error.{file_err}
use vision_flow.Framebuffer.{Framebuffer, Plane, zeroed, no_plane}
use vision_flow.Framebuffer.Files.{
  Stdio, Done, load, store, each_line, each_plane, write_to_fptr, read_from_fptr,
}
use vision_flow.Framebuffer.Files.Streams.{HasRoom, Delivers, AllFit}
use vision_flow.Framebuffer.Files.RoundTrip.{Copied, write-Copied}

-- A stream is the bytes that were written to it or that are left to read.
abbrev in_memory : Stdio (List ℕ)
in_memory = record { fwrite = λ xs s. (1, s ++ xs); fread = λ n s. (1, take n s, drop n s) }

take-append : (xs ys : List ℕ) → take (length xs) (xs ++ ys) ≡ xs
take-append [] ys = refl
take-append (x ∷ xs) ys = ap (λ t. x ∷ t) (take-append xs ys)

drop-append : (xs ys : List ℕ) → drop (length xs) (xs ++ ys) ≡ ys
drop-append [] ys = refl
drop-append (x ∷ xs) ys = drop-append xs ys

in_memory-HasRoom : HasRoom in_memory (λ s. s)
in_memory-HasRoom = record { counts = λ xs s ne. refl; appends = λ xs s. refl }

in_memory-Delivers : Delivers in_memory (λ s. s)
in_memory-Delivers = record {
  after = λ xs s. drop (length xs) s;
  gives = λ xs rest s ne e. (
    λ i. (1, (ap (take (length xs)) e ∙ take-append xs rest) i, drop (length xs) s),
    ap (drop (length xs)) e ∙ drop-append xs rest,
  );
}

abbrev plane : ℕ → ℕ → Plane
plane size height = record {
  width = size;
  height = height;
  line_size = size;
  stride = 16;
  size = 16 * height;
}

abbrev frame : List ℕ → Framebuffer
frame bs = record zeroed {
  bytes = some bs;
  planes = plane 6 2 ∷ plane 3 1 ∷ plane 3 1 ∷ no_plane ∷ [];
}

abbrev painted : List ℕ
painted = replicate 30 8 ++ replicate 34 9

abbrev blank : List ℕ
blank = replicate 64 0

fits : AllFit (frame painted).planes 0 (length painted)
fits = (inr (omega arith, inr (omega arith, inr (omega arith, inl refl))))

write-Copied_example :
    Copied in_memory (λ s. s) (λ s. s) (λ s. s) (frame painted) (frame blank) painted []
write-Copied_example =
    write-Copied in_memory (λ s. s) (λ s. s) (λ s. s) (frame painted) (frame blank) painted blank []
      in_memory-HasRoom in_memory-Delivers (λ s. refl) refl refl refl refl refl fits (omega arith)

-- A device that takes nothing and gives nothing.
abbrev dead : Stdio (List ℕ)
dead = record { fwrite = λ xs s. (0, s); fread = λ n s. (0, [], s) }

abbrev nothing_moved : Done (List ℕ)
nothing_moved = record { err = file_err; count = some 0; stream = []; fb = frame blank }

nothing_written : write_to_fptr dead (frame blank) [] ≡ some nothing_moved
unfolding write_to_fptr each_plane each_line load
nothing_written = refl

nothing_read : read_from_fptr dead (frame blank) [] ≡ some nothing_moved
unfolding read_from_fptr each_plane each_line store
nothing_read = refl
