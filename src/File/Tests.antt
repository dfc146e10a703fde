-- ===== src/File/Tests.antt =====
-- The file operations at concrete answers of the C library.
use vision_flow.Base.{refl, [], ◌∷◌, arith, inl}
use vision_flow.File.{File}
use vision_flow.File.Handle.{IsSound}

abbrev shut : File
shut = record { fp = 0; path = []; is_open = 0 }

abbrev held : File
held = record { fp = 700; path = 97 ∷ []; is_open = 1 }

shut-IsSound : IsSound shut
shut-IsSound = record { state = inl refl; path_fits = omega arith }
