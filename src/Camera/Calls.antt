-- ===== src/Camera/Calls.antt =====
-- The calls of vf-camera.c on the kernel. The kernel and its drivers are not part of the repository:
-- they answer by any function of the calls made so far.
use Prim.Native.String.{String}
use mathlib.Core.List.{flat_map}
use vision_flow.Base.{ℕ, Bool, Option, none, some, List, [], ◌∷◌}

-- The requests of `ioctl`, with the parts of the argument that the code fills in.
pub data Request : Type 0 where
  querycap streamon streamoff dqbuf : Request
  s_fmt : ℕ → ℕ → String → Request
  reqbufs querybuf qbuf : ℕ → Request

-- A system call, with the result that its release depends on. `outside` is an access through a pointer
-- that is NULL or through an index past the end of an array.
pub data Call : Type 0 where
  opened : Option ℕ → Call
  ioctl : Request → Option ℕ → Call
  mapped : Option ℕ → ℕ → Call
  unmapped : ℕ → ℕ → Call
  closed : ℕ → Call
  selected : Option ℕ → Call
  outside : Call

abbrev pub Trace : Type 0
Trace = List Call

-- The answers to the attempts at one `ioctl`, a last one after some that a signal interrupted: a value
-- is finite, as signals are.
pub data Tries (A : Type 0) : Type 0 where
  accepted : A → Tries A
  failed : Tries A
  interrupted : Tries A → Tries A

-- What `select` returns: -1, 0, or more.
pub data Selected : Type 0 where
  select_failed timed_out readable : Selected

-- `cap.capabilities`, by the two bits that are tested.
pub record Capabilities : Type 0 where
  pub video_capture : Bool
  pub streaming : Bool

-- What the kernel answers after a trace. A request that fails leaves its argument as it was.
pub record Kernel : Type 0 where
  pub open_device : Trace → String → Option ℕ
  pub querycap_reply : Trace → Tries Capabilities
  pub s_fmt_reply : Trace → Tries (ℕ × ℕ × String)
  pub reqbufs_reply : Trace → ℕ → Tries ℕ
  pub querybuf_reply : Trace → ℕ → Tries (ℕ × ℕ)
  pub qbuf_reply : Trace → ℕ → Tries Unit
  pub dqbuf_reply : Trace → Tries (ℕ × ℕ)
  pub streamon_reply : Trace → Tries Unit
  pub streamoff_reply : Trace → Tries Unit
  pub mmap : Trace → ℕ → ℕ → Option ℕ
  pub select : Trace → Selected
  pub memory : Trace → ℕ → List ℕ
  pub clock : Trace → ℕ × ℕ

-- The last answer.
abbrev pub last_of : {A : Type 0} → Tries A → Option A
last_of (accepted a) = some a
last_of failed = none
last_of (interrupted t) = last_of t

-- What one call maps, unmaps, opens or closes.
abbrev pub region_mapped : Call → List (ℕ × ℕ)
region_mapped (mapped (some a) n) = (a, n) ∷ []
region_mapped c = []

abbrev pub region_unmapped : Call → List (ℕ × ℕ)
region_unmapped (unmapped a n) = (a, n) ∷ []
region_unmapped c = []

abbrev pub fd_opened : Call → List ℕ
fd_opened (opened (some fd)) = fd ∷ []
fd_opened c = []

abbrev pub fd_closed : Call → List ℕ
fd_closed (closed fd) = fd ∷ []
fd_closed c = []

-- The regions that were mapped and unmapped, and the descriptors that were opened and closed, in order.
abbrev pub maps : Trace → List (ℕ × ℕ)
maps t = flat_map region_mapped t

abbrev pub unmaps : Trace → List (ℕ × ℕ)
unmaps t = flat_map region_unmapped t

abbrev pub opens : Trace → List ℕ
opens t = flat_map fd_opened t

abbrev pub closes : Trace → List ℕ
closes t = flat_map fd_closed t
