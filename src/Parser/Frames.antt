-- ===== src/Parser/Frames.antt =====
-- What the frames of a set are known to be.
use vision_flow.Base.{
  take-all, ◌-◌, ℕ, zero, suc, ◌<◌, ◌≡◌, refl, ap, Option, none, some, List, [], ◌∷◌, ◌++◌, length,
  length-append, arith,
}
use vision_flow.Base.Int.{ℤ, pos, negsuc}
use vision_flow.Parser.{max_full_path_len, FrameInfo, extract_string, extract_int}
use vision_flow.Parser.Strings.{Text, codes, strstr}
use vision_flow.Parser.Load.{
  with_cursor, text_at, positive, size_at, joined, load_frame, load_frames,
}
use vision_flow.Parser.Values.{Ensures, bind-Ensures, bind_any-Ensures, Fits, extract_string-Fits}

-- A frame of a set with a base path: its name fits its buffer, its path is whole, its size is not 0.
pub record IsFrame (base_path : Text) (f : FrameInfo) : Type 0 where
  pub name_fits : length f.file_name < 128
  pub whole_path : f.full_path ≡ base_path ++ (b'/' ∷ f.file_name)
  pub wide : 0 < f.width
  pub high : 0 < f.height

pub data AreFrames (base_path : Text) : List FrameInfo → Type 0 where
  no_frames : AreFrames base_path []
  frame :
      (f : FrameInfo) (l : List FrameInfo)
      → IsFrame base_path f
      → AreFrames base_path l
      → AreFrames base_path (f ∷ l)

with_cursor-Ensures :
    {A : Type 0} (P : A → Type 0) (c : Text) (o : Option A)
    → Ensures P o
    → Ensures {A = A × Text} (λ r. P r.0) (with_cursor c o)
with_cursor-Ensures P c none h = tt
with_cursor-Ensures P c (some a) h = h

pub text_at-Fits :
    (key : Text) (max_len : ℕ) (cursor : Text)
    → Ensures {A = Text × Text} (λ r. Fits max_len r.0) (text_at key max_len cursor)
unfolding text_at
text_at-Fits key max_len cursor =
    bind_any-Ensures (λ r. Fits max_len r.0) (strstr cursor key) _
      (λ c.
        with_cursor-Ensures (Fits max_len) c (extract_string c max_len)
          (extract_string-Fits c max_len))

positive-Ensures : (z : ℤ) → Ensures (λ n. 0 < n) (positive z)
positive-Ensures (pos zero) = tt
positive-Ensures (pos (suc k)) = omega arith
positive-Ensures (negsuc k) = tt

size_at-Ensures : (key cursor : Text) → Ensures {A = ℕ × Text} (λ r. 0 < r.0) (size_at key cursor)
unfolding size_at
size_at-Ensures key cursor =
    bind_any-Ensures (λ r. 0 < r.0) (strstr cursor key) _
      (λ c.
        bind_any-Ensures (λ r. 0 < r.0) (extract_int c) _
          (λ v. with_cursor-Ensures (λ n. 0 < n) c (positive v) (positive-Ensures v)))

joined-whole :
    (base file : Text)
    → length base < 256
    → length file < 128
    → joined base file ≡ base ++ (b'/' ∷ file)
joined-whole base file b f =
    take-all (max_full_path_len - 1) (base ++ (b'/' ∷ file))
      (omega (arith, length-append base (b'/' ∷ file)))

load_frame-IsFrame :
    (base cursor : Text)
    → length base < 256
    → Ensures {A = FrameInfo × Text} (λ r. IsFrame base r.0) (load_frame base cursor)
unfolding load_frame
load_frame-IsFrame base cursor b =
    let Q : FrameInfo × Text → Type 0 = λ r. IsFrame base r.0 in
    bind-Ensures (λ r. Fits 128 r.0) Q (text_at (codes "\"file\"") 128 cursor) _
      (text_at-Fits (codes "\"file\"") 128 cursor)
      (λ file fits.
        bind-Ensures (λ r. 0 < r.0) Q (size_at (codes "\"width\"") file.1) _
          (size_at-Ensures (codes "\"width\"") file.1)
          (λ width wide.
            bind-Ensures (λ r. 0 < r.0) Q (size_at (codes "\"height\"") width.1) _
              (size_at-Ensures (codes "\"height\"") width.1)
              (λ height high. record {
                name_fits = fits;
                whole_path = joined-whole base file.0 b fits;
                wide = wide;
                high = high;
              })))

pub load_frames-AreFrames :
    (n : ℕ) (base cursor : Text)
    → length base < 256
    → Ensures {A = List FrameInfo × Text}
        (λ r. (length r.0 ≡ n) × AreFrames base r.0)
        (load_frames n base cursor)
unfolding load_frames
load_frames-AreFrames zero base cursor b = (refl, no_frames)
load_frames-AreFrames (suc n) base cursor b =
    let Q : List FrameInfo × Text → Type 0 = λ r. (length r.0 ≡ suc n) × AreFrames base r.0 in
    bind-Ensures (λ r. IsFrame base r.0) Q (load_frame base cursor) _
      (load_frame-IsFrame base cursor b)
      (λ f is_frame.
        bind-Ensures (λ r. (length r.0 ≡ n) × AreFrames base r.0) Q (load_frames n base f.1) _
          (load_frames-AreFrames n base f.1 b)
          (λ l rest. (ap suc rest.0, frame f.0 l.0 is_frame rest.1)))
