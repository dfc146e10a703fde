-- ===== src/Control/Server.antt =====
-- libvf_control/src/vf-control-server.c: a server on a Unix socket. Pointers are not NULL. What the socket calls
-- return is an argument; that of unlink, shutdown and close is not used, or only logged. The tests of what
-- pthread_create and pthread_join return compare two constants, so that neither can fail a call.
use vision_flow.Base.{
  ℕ, Bool, true, false, Option, none, some, List, [], ◌∷◌, ◌++◌, ◌==◌, if◌then◌else◌,
}
use vision_flow.Error.{VfErr, success, init_failed, sync_error}

-- `vf_control_server_t`: its descriptor, `none` if it is negative, and its flags. The service is that of the caller.
pub record ControlServer : Type 0 where
  pub server_fd : Option ℕ
  pub running : Bool
  pub initialized : ℕ

abbrev pub zeroed : ControlServer
zeroed = record { server_fd = some 0; running = false; initialized = 0 }

-- The calls of the server; a socket is named by its descriptor.
pub data ServerCall : Type 0 where
  socket_open socket_bind socket_listen socket_shutdown socket_close : ℕ → ServerCall
  socket_failed path_unlink thread_create thread_join : ServerCall

-- What socket returns, and whether bind and listen succeed.
pub record SocketReturns : Type 0 where
  pub socket : Option ℕ
  pub binds : Bool
  pub listens : Bool

abbrev pub no_socket : ControlServer
no_socket = record zeroed { server_fd = none }

abbrev pub bound : SocketReturns → ℕ → VfErr × ControlServer × List ServerCall
bound rc fd =
    if rc.binds
    then if rc.listens
      then (
        success,
        record { server_fd = some fd; running = false; initialized = 1 },
        socket_open fd ∷ path_unlink ∷ socket_bind fd ∷ socket_listen fd ∷ [],
      )
      else (
        sync_error,
        no_socket,
        socket_open fd ∷ path_unlink ∷ socket_bind fd ∷ socket_listen fd ∷ socket_close fd ∷ [],
      )
    else (
      sync_error,
      no_socket,
      socket_open fd ∷ path_unlink ∷ socket_bind fd ∷ socket_close fd ∷ [],
    )

abbrev pub init_on : SocketReturns → Option ℕ → VfErr × ControlServer × List ServerCall
init_on rc none = (sync_error, no_socket, socket_failed ∷ [])
init_on rc (some fd) = bound rc fd

-- `vf_control_server_init`.
unfoldable pub init : SocketReturns → VfErr × ControlServer × List ServerCall
init rc = init_on rc rc.socket

-- `vf_control_server_start`.
unfoldable pub start : ControlServer → VfErr × ControlServer × List ServerCall
start srv =
    if srv.initialized == 0
    then (init_failed, srv, [])
    else (success, record srv { running = true }, thread_create ∷ [])

-- A call on the server's socket, if it has one.
abbrev pub on_socket : (ℕ → ServerCall) → Option ℕ → List ServerCall
on_socket call none = []
on_socket call (some fd) = call fd ∷ []

-- `vf_control_server_stop`.
unfoldable pub stop : ControlServer → VfErr × ControlServer × List ServerCall
stop srv = if srv.initialized == 0 then (init_failed, srv, []) else (
  success,
  record srv { running = false },
  on_socket socket_shutdown srv.server_fd ++ (thread_join ∷ []),
)

-- `vf_control_server_deinit`.
unfoldable pub deinit : ControlServer → ControlServer × List ServerCall
deinit srv =
    if srv.initialized == 0
    then (srv, [])
    else (zeroed, on_socket socket_close srv.server_fd ++ (path_unlink ∷ []))
