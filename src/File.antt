-- ===== src/File.antt =====
-- libraries/vf_file/src/vf-file.c: a file handle over the streams of the C library. What the functions
-- of that library answer is an argument of each operation; a stream is an address, 0 being NULL.
-- Pointers to a handle, a buffer, a path or a result are not NULL.
pub mod Handle
mod Tests
use vision_flow.Base.{
  ℕ, ◌-◌, Bool, true, false, not, ◌&&◌, Option, none, some, List, [], ◌∷◌, ◌==◌, if◌then◌else◌,
  take,
}
use vision_flow.Error.{VfErr, success, invalid_parameter, file_err}

-- VF_FILE_PATH_MAX_LEN.
abbrev pub path_max : ℕ
path_max = 256

-- `vf_file_t`.
pub record File : Type 0 where
  pub fp : ℕ
  pub path : List ℕ
  pub is_open : ℕ

-- `vf_file_open`, by what fopen answers. The path is cut to the room that there is.
unfoldable pub file_open : ℕ → List ℕ → File → VfErr × File
file_open opened path file =
    if file.is_open == 1
    then (file_err, file)
    else if opened == 0
    then (file_err, record file { fp = 0 })
    else (success, record { fp = opened; path = take (path_max - 1) path; is_open = 1 })

-- `vf_file_close`, by what fclose answers.
unfoldable pub file_close : ℕ → File → VfErr × File
file_close closed file =
    if file.is_open == 0
    then (success, file)
    else if closed == 0
    then (success, record { fp = 0; path = []; is_open = 0 })
    else (file_err, file)

-- What a transfer answers: the code, and the count if it was written.
abbrev pub Transfer : Type 0
Transfer = VfErr × Option ℕ

-- `vf_file_read` of a number of bytes, by what fread and ferror answer.
unfoldable pub file_read : ℕ → Bool → ℕ → File → Transfer
file_read got failed size file =
    if size == 0
    then (invalid_parameter, none)
    else if file.is_open == 0
    then (file_err, none)
    else if not (got == size) && failed
    then (file_err, some got)
    else (success, some got)

-- `vf_file_write` of a number of bytes, by what fwrite answers.
unfoldable pub file_write : ℕ → ℕ → File → Transfer
file_write put size file =
    if size == 0
    then (invalid_parameter, none)
    else if file.is_open == 0
    then (file_err, none)
    else if put == size
    then (success, some put)
    else (file_err, some put)

-- A call of fseek: to the end, or to an offset from the start.
pub data Seek : Type 0 where
  to_end : Seek
  back_to : ℕ → Seek

-- The calls of fseek that `vf_file_size` makes, its code, and the size if it was written.
pub record Sized : Type 0 where
  pub err : VfErr
  pub size : Option ℕ
  pub seeks : List Seek

abbrev pub sized : VfErr → Option ℕ → List Seek → Sized
sized e s cs = record { err = e; size = s; seeks = cs }

-- `vf_file_size` from the first seek on, by what the second ftell and the last fseek answer.
unfoldable pub size_after : ℕ → Option ℕ → ℕ → Sized
size_after current none restored = sized file_err none (to_end ∷ [])
size_after current (some end) restored =
    if restored == 0
    then sized success (some end) (to_end ∷ back_to current ∷ [])
    else sized file_err none (to_end ∷ back_to current ∷ [])

-- `vf_file_size`, by what its calls answer: ftell (none is negative), fseek, ftell and fseek.
unfoldable pub file_size : Option ℕ → ℕ → Option ℕ → ℕ → File → Sized
file_size none ended last restored file = sized file_err none []
file_size (some current) ended last restored file =
    if file.is_open == 0
    then sized file_err none []
    else if ended == 0
    then size_after current last restored
    else sized file_err none (to_end ∷ [])

-- `vf_file_exists`, by what fopen answers: the code, `*out_exists` if it was written, and whether the
-- stream is left open.
unfoldable pub file_exists : ℕ → VfErr × Option ℕ × Bool
file_exists opened = if opened == 0 then (success, some 0, false) else (file_err, none, true)

-- `vf_file_seek`, by what fseek answers.
unfoldable pub file_seek : ℕ → File → VfErr
file_seek moved file =
    if file.is_open == 0 then file_err else if moved == 0 then success else file_err

-- `vf_file_tell`, by what ftell answers: the code, and the position if it was written.
unfoldable pub file_tell : Option ℕ → File → VfErr × Option ℕ
file_tell none file = (file_err, none)
file_tell (some at) file = if file.is_open == 0 then (file_err, none) else (success, some at)
