-- ===== src/File/Handle.antt =====
-- What the operations keep of a handle, and what they promise.
use vision_flow.Base.{
  ℕ, ◌≤◌, ◌≡◌, ◌≢◌, ◌⊎◌, inl, inr, refl, true, false, none, some, List, [], arith, length, ◌==◌,
  if_elim, length-take,
}
use vision_flow.Error.{VfErr, success, file_err}
use vision_flow.File.{File, file_open, file_close, file_write, file_exists}

-- A handle is closed, or open with a stream; its path leaves room for the final NUL.
pub record IsSound (file : File) : Type 0 where
  pub state : (file.is_open ≡ 0) ⊎ ((file.is_open ≡ 1) × (file.fp ≢ 0))
  pub path_fits : length file.path ≤ 255

still_shut : {n fp : ℕ} → (n ≡ 0) ⊎ ((n ≡ 1) × (fp ≢ 0)) → n ≢ 1 → n ≡ 0
still_shut (inl z) ne = z
still_shut (inr o) ne = absurd (ne o.0)

-- Open and close keep a handle sound, whatever the C library answers.
pub handle-IsSound :
    (opened closed : ℕ) (path : List ℕ) (file : File)
    → IsSound file
    → IsSound (file_open opened path file).1 × IsSound (file_close closed file).1
unfolding file_open file_close
handle-IsSound opened closed path file s = (
  if_elim (λ (r : VfErr × File). IsSound r.1) (file.is_open == 1) (λ _. s)
      (λ shut.
        if_elim (λ (r : VfErr × File). IsSound r.1) (opened == 0)
          (λ _. record { state = inl (still_shut s.state (ground arith)); path_fits = s.path_fits })
          (λ ne. record {
            state = inr (refl, ground arith);
            path_fits = omega (arith, length-take 255 path);
          })),
  if_elim (λ (r : VfErr × File). IsSound r.1) (file.is_open == 0) (λ _. s)
      (λ _.
        if_elim (λ (r : VfErr × File). IsSound r.1) (closed == 0)
          (λ _. record { state = inl refl; path_fits = omega arith }) (λ _. s)),
)

-- A closed handle that is opened and closed, where both calls work, is closed again; in between it holds
-- the stream, a second open is refused and changes nothing, and a write of some bytes that the stream
-- takes succeeds. After the close a write is refused.
pub close-open :
    (opened closed again : ℕ) (path : List ℕ) (file : File) (size put : ℕ)
    → file.is_open ≡ 0
    → opened ≢ 0
    → closed ≡ 0
    → size ≢ 0
    → let between = (file_open opened path file).1 in
      ((file_open opened path file).0 ≡ success)
      × (between.fp ≡ opened)
      × (file_open again path between ≡ (file_err, between))
      × (file_write size size between ≡ (success, some size))
      × (file_close closed between ≡ (success, record { fp = 0; path = []; is_open = 0 }))
      × (file_write put size (file_close closed between).1 ≡ (file_err, none))
unfolding file_open file_close file_write
close-open opened closed again path file size put shut given works some_bytes =
    (ground arith, ground arith, ground arith, ground arith, ground arith, ground arith)

-- For a file that can be opened vf_file_exists returns VF_FILE_ERR, gives no answer and leaves the stream
-- open. For a file that cannot be opened it returns VF_SUCCESS and the answer that there is none.
pub exists_denies :
    (opened : ℕ)
    → opened ≢ 0
    → (file_exists opened ≡ (file_err, none, true)) × (file_exists 0 ≡ (success, some 0, false))
unfolding file_exists
exists_denies opened given = ground arith
