-- ===== src/Units/Samples.antt =====
-- Small pools, queues and frames for the tests of the units.
use vision_flow.Base.{ℕ, false, some, [], ◌∷◌, arith, replicate}
use vision_flow.Error.{PixelFmt}
use vision_flow.Framebuffer
use vision_flow.Framebuffer.{Framebuffer, no_plane}
use vision_flow.BuffPool.{Pool}
use vision_flow.BuffPool.Invariant as PoolInvariant
use vision_flow.BuffQueue.{Queue}
use vision_flow.BuffQueue.Invariant as QueueInvariant

-- Two slots at an address: none lent, and the first lent.
abbrev pub free_pool : ℕ → Pool
free_pool base = record {
  place = record { base = base; sizeof = 10 };
  slots = replicate 16 Framebuffer.zeroed;
  in_use = replicate 16 0;
  capacity = 2;
  available = 2;
  initialized = 1;
  shutdown = false;
}

abbrev pub lent_pool : ℕ → Pool
lent_pool base = record (free_pool base) { in_use = 1 ∷ replicate 15 0; available = 1 }

-- One frame in a queue of two, none, and a queue of one that is full.
abbrev pub loaded : ℕ → Queue
loaded fb = record {
  slots = fb ∷ replicate 15 0;
  head = 0;
  tail = 1;
  count = 1;
  capacity = 2;
  initialized = 1;
  shutdown = false;
}

abbrev pub empty : Queue
empty = record (loaded 0) { tail = 0; count = 0 }

abbrev pub full : ℕ → Queue
full fb = record (loaded fb) { tail = 0; capacity = 1 }

-- A frame of one pixel, with 16 bytes.
abbrev pub pixel : PixelFmt → Framebuffer
pixel format = record Framebuffer.zeroed {
  bytes = some (replicate 16 77);
  total_size = 16;
  params = record { width = 1; height = 1; format = format };
  planes =
      record { width = 1; height = 1; line_size = 3; stride = 16; size = 16 }
      ∷ no_plane
      ∷ no_plane
      ∷ no_plane
      ∷ [];
}

pub free_pool-IsValid : PoolInvariant.IsValid (free_pool 1000)
free_pool-IsValid = omega arith

pub lent_pool-IsValid : PoolInvariant.IsValid (lent_pool 5000)
lent_pool-IsValid = omega arith

pub loaded-IsValid : QueueInvariant.IsValid (loaded 5000)
loaded-IsValid = omega arith

pub empty-IsValid : QueueInvariant.IsValid empty
empty-IsValid = omega arith

pub full-IsValid : QueueInvariant.IsValid (full 7)
full-IsValid = omega arith
