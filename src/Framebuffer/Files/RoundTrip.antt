-- ===== src/Framebuffer/Files/RoundTrip.antt =====
-- A framebuffer that is written to a stream and read back.
use vision_flow.Base.{
  ℕ, ◌+◌, ◌^◌, ◌<◌, ◌≡◌, refl, ap, sym, ◌∙◌, subst, some, List, [], ◌++◌, arith, length, append-nil,
  false, leb,
}
use vision_flow.Error.{success, is_success}
use vision_flow.Framebuffer.{Framebuffer}
use vision_flow.Framebuffer.Files.{
  Stdio, Done, moved, ◌>>=◌, on_bytes, with_memory, write_line, read_line, each_plane,
  write_to_fptr, read_from_fptr, write_to_file, read_from_file,
}
use vision_flow.Framebuffer.Files.Streams.{HasRoom, Delivers, image, AllFit}
use vision_flow.Framebuffer.Files.Writing.{write_planes}
use vision_flow.Framebuffer.Files.Reading.{read_planes}

module _ {S : Type 0} (io : Stdio S) (written unread : S → List ℕ) (reopen : S → S) where
  -- What a write to a stream with room leaves, and what a read of it leaves of a second framebuffer.
  pub record Copied (fb to : Framebuffer) (m : List ℕ) (s : S) : Type 0 where
    pub closed : S
    pub wrote :
        write_to_fptr io fb s
        ≡ some (record {
          err = success;
          count = some (length (image m fb.planes 0));
          stream = closed;
          fb = record fb { bytes = some m };
        })
    pub file : written closed ≡ image m fb.planes 0
    pub over : S
    pub copy : List ℕ
    pub was_read :
        read_from_fptr io to (reopen closed)
        ≡ some (record {
          err = success;
          count = some (length (image m fb.planes 0));
          stream = over;
          fb = record to { bytes = some copy };
        })
    pub finished : unread over ≡ []
    pub same_size : length copy ≡ length m
    pub same_image : image copy fb.planes 0 ≡ image m fb.planes 0

  -- A framebuffer whose planes lie in its memory is written to an empty stream with room, and read back
  -- from it into a framebuffer with planes and memory of the same sizes. Both succeed without an access
  -- outside the memories and count the same bytes, the file is the visible part of the lines and is read
  -- to its end, and every visible byte of the second framebuffer is that of the first.
  pub write-Copied :
      (fb to : Framebuffer) (m m2 : List ℕ) (s : S)
      → HasRoom io written
      → Delivers io unread
      → ((s : S) → unread (reopen s) ≡ written s)
      → written s ≡ []
      → fb.bytes ≡ some m
      → to.bytes ≡ some m2
      → to.planes ≡ fb.planes
      → length m2 ≡ length m
      → AllFit fb.planes 0 (length m)
      → length m < 2 ^ 64
      → Copied fb to m s
  unfolding write_to_fptr read_from_fptr
  write-Copied fb to m m2 s room source reopens blank has has2 same long fit small =
      let total = length (image m fb.planes 0) in
      let zero_first : 0 + total ≡ total = omega arith in
      let (s', r, w) = write_planes io written room fb.planes 0 0 s m fit (omega arith) small in
      let file : written s' ≡ image m fb.planes 0 =
        w ∙ ap (λ xs. xs ++ image m fb.planes 0) blank in
      let (s2, m', r2, u, kept, shown) =
        read_planes io unread source m fb.planes 0 0 [] (reopen s') m2
          (subst (AllFit fb.planes 0) (sym long) fit) (omega arith) (omega (arith, long))
          (reopens s' ∙ file ∙ sym (append-nil (image m fb.planes 0))) in
      record {
        closed = s';
        wrote =
            ap (on_bytes (write_line io) fb s) has
            ∙ ap (λ o. o >>= λ x. some (with_memory fb x)) r
            ∙ ap (λ k. some (with_memory fb (moved success k s' m))) zero_first;
        file = file;
        over = s2;
        copy = m';
        was_read =
            ap (on_bytes (read_line io) to (reopen s')) has2
            ∙ ap
                (λ ps.
                  each_plane (read_line io) ps 0 0 (reopen s') m2 >>= λ x. some (with_memory to x))
                same
            ∙ ap (λ o. o >>= λ x. some (with_memory to x)) r2
            ∙ ap (λ k. some (with_memory to (moved success k s2 m'))) zero_first;
        finished = u;
        same_size = kept.long ∙ long;
        same_image = shown;
      }

-- When a write to a file that was opened fails after the name was formatted, the function returns the
-- error of the write, and the file is still open. The same for a read.
pub file_left_open :
    {S : Type 0} (io : Stdio S) (len : ℕ) (s : S) (fb : Framebuffer) (d d' : Done S)
    → len < 256
    → write_to_fptr io fb s ≡ some d
    → is_success d.err ≡ false
    → read_from_fptr io fb s ≡ some d'
    → is_success d'.err ≡ false
    → (write_to_file io (some len) (some s) fb
        ≡ some (record { code = d.err; buffer = d.fb; left_open = some d.stream }))
      × (read_from_file io (some s) fb
          ≡ some (record { code = d'.err; buffer = d'.fb; left_open = some d'.stream }))
unfolding write_to_file read_from_file
file_left_open io len s fb d d' short w bad r bad' =
    let fits : leb 256 len ≡ false = ground arith in (rw (fits, w, bad) refl, rw (r, bad') refl)
