-- ===== src/Framebuffer/Files.antt =====
-- The functions of vf-framebuffer.c that write a framebuffer to a stream and read it back: the visible
-- part of each line, line by line and plane by plane. The stream is that of the C library: what its
-- functions answer is a parameter. `none` is an access outside the framebuffer's memory.
pub mod Bytes
pub mod Streams
pub mod Writing
pub mod Reading
pub mod RoundTrip
mod Tests
use vision_flow.Base.{
  ℕ, zero, suc, ◌+◌, ◌%◌, ◌^◌, Bool, true, false, Option, none, some, List, [], ◌∷◌, ◌==◌, leb,
  if◌then◌else◌, length, get_or, set,
}
use vision_flow.Error.{VfErr, success, invalid_parameter, file_err, is_success}
use vision_flow.Framebuffer.{Framebuffer, Plane}

-- `fwrite(ptr, size, 1, fptr)` and `fread(ptr, size, 1, fptr)` on a stream: the number of elements, 1 or
-- 0, and for a read the bytes that it stored.
pub record Stdio (S : Type 0) : Type 0 where
  pub fwrite : List ℕ → S → ℕ × S
  pub fread : ℕ → S → ℕ × List ℕ × S

-- n bytes of memory from an address on.
abbrev pub bytes_from : List ℕ → ℕ → ℕ → List ℕ
bytes_from m a zero = []
bytes_from m a (suc n) = get_or m a 0 ∷ bytes_from m (suc a) n

-- The memory with bytes stored from an address on.
abbrev pub stored : List ℕ → ℕ → List ℕ → List ℕ
stored [] a m = m
stored (x ∷ xs) a m = stored xs (suc a) (set m a x)

unfoldable pub load : List ℕ → ℕ → ℕ → Option (List ℕ)
load m a n = if leb (a + n) (length m) then some (bytes_from m a n) else none

unfoldable pub store : List ℕ → ℕ → List ℕ → Option (List ℕ)
store xs a m = if leb (a + length xs) (length m) then some (stored xs a m) else none

-- How a function that works on a stream ends: its code, the bytes counted, the stream and the memory.
pub record Moved (S : Type 0) : Type 0 where
  pub err : VfErr
  pub total : ℕ
  pub stream : S
  pub memory : List ℕ

abbrev pub moved : {S : Type 0} → VfErr → ℕ → S → List ℕ → Moved S
moved e t s m = record { err = e; total = t; stream = s; memory = m }

infixl 5 ◌>>=◌
abbrev pub ◌>>=◌ {ℓ κ} : {A : Type ℓ} {B : Type κ} → Option A → (A → Option B) → Option B
none >>= f = none
some a >>= f = f a

module _ {S : Type 0} (io : Stdio S) where
  -- A line of vf_framebuffer_write_to_fptr: the count of elements decides.
  abbrev pub write_line : ℕ → ℕ → S → List ℕ → Option (Moved S)
  write_line at size s m = do
    xs ← load m at size
    let (count, s') = io.fwrite xs s
    some (if count == 1 then moved success size s' m else moved file_err 0 s' m)

  -- A line of vf_framebuffer_read_from_fptr.
  abbrev pub read_line : ℕ → ℕ → S → List ℕ → Option (Moved S)
  read_line at size s m = do
    let (count, xs, s') = io.fread size s
    m' ← store xs at m
    some (if count == 1 then moved success size s' m' else moved file_err 0 s' m')

-- A step that goes on from a state, after the total so far: an error ends the loop.
abbrev pub add_up :
    {S : Type 0} → ℕ → Moved S → (ℕ → S → List ℕ → Option (Moved S)) → Option (Moved S)
add_up t r rest =
    let total = (t + r.total) % 2 ^ 64 in
    if is_success r.err then rest total r.stream r.memory else some (record r { total = total })

-- The two loops that the functions share, over what they do with a line.
module _ {S : Type 0} (line : ℕ → ℕ → S → List ℕ → Option (Moved S)) where
  -- The lines of a plane from an address on.
  unfoldable pub each_line : Plane → ℕ → ℕ → ℕ → S → List ℕ → Option (Moved S)
  each_line p zero at t s m = some (moved success t s m)
  each_line p (suc n) at t s m =
      line at p.line_size s m >>= λ r. add_up t r (each_line p n (at + p.stride))

  -- The planes: the first that is empty ends the loop.
  unfoldable pub each_plane : List Plane → ℕ → ℕ → S → List ℕ → Option (Moved S)
  each_plane [] at t s m = some (moved success t s m)
  each_plane (p ∷ ps) at t s m =
      let rest = each_line p p.height at t s m >>= λ r.
      if is_success r.err then each_plane ps (at + p.size) r.total r.stream r.memory else some r in
      if p.size == 0 then some (moved success t s m) else rest

-- What the caller of a function on a framebuffer sees: the code, `*written_bytes` or `*read_bytes` if it
-- was written, the stream, and the framebuffer.
pub record Done (S : Type 0) : Type 0 where
  pub err : VfErr
  pub count : Option ℕ
  pub stream : S
  pub fb : Framebuffer

-- A function that works on a file by name: its code, the framebuffer, and the stream if it is still open
-- when the function returns.
pub record Ended (S : Type 0) : Type 0 where
  pub code : VfErr
  pub buffer : Framebuffer
  pub left_open : Option S

module _ {S : Type 0} where
  abbrev pub with_memory : Framebuffer → Moved S → Done S
  with_memory fb r = record {
    err = r.err;
    count = some r.total;
    stream = r.stream;
    fb = record fb { bytes = some r.memory };
  }

  abbrev pub on_bytes :
      (ℕ → ℕ → S → List ℕ → Option (Moved S)) → Framebuffer → S → Option (List ℕ) → Option (Done S)
  on_bytes line fb s none =
      some (record { err = invalid_parameter; count = none; stream = s; fb = fb })
  on_bytes line fb s (some m) = each_plane line fb.planes 0 0 s m >>= λ r. some (with_memory fb r)

  -- Between fopen and the return: an error returns before fclose.
  abbrev pub close_after : Done S → Ended S
  close_after d =
      if is_success d.err
      then record { code = d.err; buffer = d.fb; left_open = none }
      else record { code = d.err; buffer = d.fb; left_open = some d.stream }

  abbrev pub not_opened : VfErr → Framebuffer → Ended S
  not_opened e fb = record { code = e; buffer = fb; left_open = none }

module _ {S : Type 0} (io : Stdio S) where
  -- `vf_framebuffer_write_to_fptr` at pointers that are not NULL.
  unfoldable pub write_to_fptr : Framebuffer → S → Option (Done S)
  write_to_fptr fb s = on_bytes (write_line io) fb s fb.bytes

  -- `vf_framebuffer_read_from_fptr` at pointers that are not NULL.
  unfoldable pub read_from_fptr : Framebuffer → S → Option (Done S)
  read_from_fptr fb s = on_bytes (read_line io) fb s fb.bytes

  -- `vf_framebuffer_write_to_file` at pointers that are not NULL. `name` is the length that snprintf
  -- answers, none if it fails; `opened` is what fopen answers.
  unfoldable pub write_to_file : Option ℕ → Option S → Framebuffer → Option (Ended S)
  write_to_file none opened fb = some (not_opened invalid_parameter fb)
  write_to_file (some len) none fb =
      some (not_opened (if leb 256 len then invalid_parameter else file_err) fb)
  write_to_file (some len) (some s) fb =
      if leb 256 len
      then some (not_opened invalid_parameter fb)
      else (write_to_fptr fb s >>= λ d. some (close_after d))

  -- `vf_framebuffer_read_from_file` at pointers that are not NULL.
  unfoldable pub read_from_file : Option S → Framebuffer → Option (Ended S)
  read_from_file none fb = some (not_opened file_err fb)
  read_from_file (some s) fb = read_from_fptr fb s >>= λ d. some (close_after d)
