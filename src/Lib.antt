-- ===== src/Lib.antt =====
-- VisionFlow: a camera pipeline service in C. Frames are lent from pre-allocated pools, passed between
-- units through blocking queues, converted and written out.
--
-- - Error: libraries/vf_common, the error codes and the pixel formats.
-- - Sync: the POSIX thread calls as arguments (what each returns) and as a trace (which were made, in
--   order). Sync.Wait is the wait loop that the blocking calls of the queue and of the pool share.
-- - BuffQueue: service/src/buffer-mgr/vf-buff-queue.c. The functions with the suffix _at are those of
--   vf-buff-queue.h at pointers that are not NULL; Api adds the NULL checks; Threads has sequences of
--   calls and the blocking pop; Fifo is its specification, a bounded list.
-- - BuffPool: service/src/buffer-mgr/vf-buff-pool.c, at pointers that are not NULL. A framebuffer pointer
--   is an address; the address of a slot is computed from the address and the size of the array's entries.
-- - Framebuffer: libraries/vf_framebuffer. Files has the functions that write to and read from the streams
--   of the C library, which are a parameter.
-- - File: libraries/vf_file, by what the C library answers.
-- - Notifier: service/src/notifier/vf-notifier.c, events to callbacks in the order of their subscription.
-- - ProcessingUnit: service/src/core/vf-processing-unit.c. The operations of a unit are callbacks on an
--   abstract world; the thread is a sequence of turns of its loop.
-- - Pipeline: service/src/core/vf-pipeline-mgr.c. Units are addresses into a heap of units; what the
--   pipeline uses of the queues is an interface on the world.
-- - Conversion: libraries/vf_conversion. Color is the arithmetic of BT.601 on integers, where no sum
--   comes near the bounds of int. Pixels has the eight routines, as reads and writes of the two
--   memories, byte by byte; an access outside a memory is a result of its own. Its Geometry says how the
--   pixels of a frame lie in the layouts that vf_framebuffer_alloc sets up.
-- - Units: service/src/units. ConversionUnit is conversion/vf-conversion-unit.c, StreamProvider is
--   stream-provider/vf-stream-provider-unit.c, FileUnit is file/vf-file-unit.c, CameraUnit is
--   camera/vf-camera-unit.c over an interface to the camera. The operations of a unit work on a world of
--   its queues, pools and framebuffers; a framebuffer is reached by its address. A cast of the internal
--   data to what it is not is a result of its own. Other threads act in the wakes of the blocking calls.
-- - Camera: libraries/vf_camera. Calls has the kernel, which answers by any function of the calls made so
--   far, Setup vf_camera_init, Life start, stop and deinit, Capture vf_camera_acquire_frame; InUnit puts the
--   library under the camera unit. An ioctl is given the answers to all its attempts, so that its loop ends.
-- - Parser: service/src/parser. Strings has the functions of the C library on texts, Load
--   vf_parser_load_frames_cfg.
-- - Control: libvf_control, the handler of a request, over an interface to the service. Server is the
--   control server, by what its socket calls return. OverService fills the interface with Service and has the
--   loop of the server's thread, which serves one client after the other.
-- - Service and Core: service/src/core/vf-service.c and vf-core.c, as the calls that they make on the pools
--   and the pipeline. Service.Calls has the calls; what one returns is any function of those before it. The
--   camera scenario runs with the requests that clients make of its service.
--
-- Locks. Every function of a queue or a pool but set-up, tear-down and reset works under its mutex, so an
-- interleaving of threads is a sequence of whole calls. A blocking call gives the mutex up while it
-- waits: the calls of other threads meanwhile are an argument, one list for each time it is woken. A call
-- that has used up its wakes still waits, which is a value of its own, so no fuel is needed.
--
-- Numbers are natural numbers with the wrap-around of uint32_t and size_t written out.
--
-- Not modelled: logging (but for the message of Pipeline.stop that reads past the units), the camera
-- driver, sockets, threads as such, and the memory that free gives back.
pub mod Base
pub mod Error
pub mod Sync
pub mod BuffQueue
pub mod Framebuffer
pub mod BuffPool
pub mod Notifier
pub mod ProcessingUnit
pub mod Pipeline
pub mod Conversion
pub mod Units
pub mod File
pub mod Camera
pub mod Parser
pub mod Control
pub mod Service
pub mod Core
