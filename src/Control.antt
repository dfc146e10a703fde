-- ===== src/Control.antt =====
-- libvf_control/src/vf-control-handler.c: one request of a client, served on a service. The service is an
-- interface, the functions of vf-service.h and the four units. The digits that snprintf prints for a number
-- are an argument, and so is what read gives. Whether write succeeds is only logged.
pub mod Server
pub mod OverService
pub mod Replies
mod Tests
use vision_flow.Base.{
  ℕ, zero, suc, ◌+◌, ◌-◌, ◌/◌, Bool, true, false, Option, none, some, List, [], ◌∷◌, ◌++◌, ◌==◌,
  if◌then◌else◌, ltb, take, length,
}
use vision_flow.Error.{VfErr, success, invalid_parameter, file_err, is_success}
use vision_flow.ProcessingUnit.{Stats, name_or_unknown}
use vision_flow.Parser.Strings.{Text, codes, c_string, strstr}

-- What the handler reads of a unit: its name, `none` for NULL, and its statistics.
pub record UnitView : Type 0 where
  pub name : Option Text
  pub stats : Stats

-- What the handler uses of a service.
pub record Service (S : Type 0) : Type 0 where
  pub initialized : S → Bool
  pub start : S → VfErr × S
  pub stop : S → VfErr × S
  pub camera_unit : S → UnitView
  pub sp_unit : S → UnitView
  pub conv_unit : S → UnitView
  pub file_out_unit : S → UnitView

-- VF_CONTROL_BUFFER_SIZE, VF_CONTROL_RESPONSE_MAX_LEN, VF_CONTROL_UNIT_BUF_SIZE and
-- VF_CONTROL_UNITS_JSON_SIZE.
abbrev pub buffer_size : ℕ
buffer_size = 1024

abbrev pub response_max_len : ℕ
response_max_len = 1024

abbrev pub unit_buf_size : ℕ
unit_buf_size = 128

abbrev pub units_json_size : ℕ
units_json_size = 768

-- `snprintf` into a buffer of n bytes, and `strncat` onto a buffer of n bytes.
abbrev pub printed : ℕ → Text → Text
printed n s = take (n - 1) s

abbrev pub appended : ℕ → Text → Text → Text
appended n dst src = dst ++ take (n - length dst - 1) src

-- `send_error`: the text of an error.
unfoldable pub send_error : Text → Text
send_error message =
    printed response_max_len
      (codes "{\"status\":\"error\",\"message\":\"" ++ (message ++ codes "\"}\n"))

-- The text of `handle_get_status`.
unfoldable pub get_status : Bool → Text
get_status initialized = printed response_max_len (
    codes "{\"status\":\"ok\",\"data\":{\"service\":\""
    ++ ((if initialized then codes "running" else codes "stopped") ++ codes "\"}}\n"))

-- A total over the frames, or 0 before the first frame.
abbrev pub average : ℕ → ℕ → ℕ
average frames total = if ltb 0 frames then total / frames else 0

-- What is read of a request, the service afterwards, and the response that was written.
pub record Handled (S : Type 0) : Type 0 where
  pub ret : VfErr
  pub service : S
  pub response : Option Text

module _ (decimal : ℕ → Text) where
  -- One unit of `handle_get_stats`, the i-th, as it is printed.
  unfoldable pub unit_text : ℕ → UnitView → Text
  unit_text i u =
      let n = u.stats.frames_processed in
      (if ltb 0 i then codes "," else [])
      ++ (codes "{\"name\":\""
          ++ (name_or_unknown u.name
              ++ (codes "\",\"frames\":"
                  ++ (decimal n
                      ++ (codes ",\"avg_get_ms\":"
                          ++ (decimal (average n u.stats.total_get_data_ms)
                              ++ (codes ",\"avg_process_ms\":"
                                  ++ (decimal (average n u.stats.total_process_data_ms)
                                      ++ (codes ",\"avg_send_ms\":"
                                          ++ (decimal (average n u.stats.total_send_data_ms)
                                              ++ codes "}"))))))))))

  abbrev pub unit_buf : ℕ → UnitView → Text
  unit_buf i u = printed unit_buf_size (unit_text i u)

  -- The loop over the units from the i-th on, which fills `units_json`.
  unfoldable pub add_units : ℕ → List UnitView → Text → Text
  add_units i [] json = json
  add_units i (u ∷ us) json = add_units (suc i) us (appended units_json_size json (unit_buf i u))

  -- The text of `handle_get_stats`.
  unfoldable pub get_stats : List UnitView → Text
  get_stats units =
      printed response_max_len (
        codes "{\"status\":\"ok\",\"data\":{\"units\":[" ++ (add_units 0 units [] ++ codes "]}}\n"))

  module _ {S : Type 0} (service : Service S) where
    abbrev pub units_of : S → List UnitView
    units_of s =
        service.camera_unit s
        ∷ service.sp_unit s
        ∷ service.conv_unit s
        ∷ service.file_out_unit s
        ∷ []

    abbrev pub answered : S → Text → Handled S
    answered s text = record { ret = success; service = s; response = some text }

    -- `handle_stop`, after vf_service_stop, and `handle_start`, after vf_service_start.
    abbrev pub handle_stop : VfErr × S → Handled S
    handle_stop (e, s) =
        if is_success e
        then answered s (codes "{\"status\":\"ok\",\"message\":\"service stopped\"}\n")
        else answered s (send_error (codes "failed to stop service"))

    abbrev pub handle_start : VfErr × S → Handled S
    handle_start (e, s) =
        if is_success e
        then answered s (codes "{\"status\":\"ok\",\"message\":\"service started\"}\n")
        else answered s (send_error (codes "failed to start service"))

    abbrev pub has : Text → Text → Bool
    has text key = elim (strstr text key) [ none ↦ false | some at ↦ true ]

    -- The commands in the order of the tests.
    unfoldable pub dispatch : Text → S → Handled S
    dispatch text s =
        if has text (codes "\"cmd\":\"get_status\"")
        then answered s (get_status (service.initialized s))
        else if has text (codes "\"cmd\":\"get_stats\"")
        then answered s (get_stats (units_of s))
        else if has text (codes "\"cmd\":\"stop\"")
        then handle_stop (service.stop s)
        else if has text (codes "\"cmd\":\"start\"")
        then handle_start (service.start s)
        else answered s (send_error (codes "unknown command"))

    abbrev pub read_into : Text → S → Handled S
    read_into [] s = record { ret = file_err; service = s; response = none }
    read_into (c ∷ bytes) s = dispatch (c_string (take (buffer_size - 1) (c ∷ bytes))) s

    -- `vf_control_handle_request` of a service that is not NULL. A negative descriptor is `none`, and so is
    -- a read that fails.
    unfoldable pub handle_request : Option ℕ → Option Text → S → Handled S
    handle_request none bytes s = record { ret = invalid_parameter; service = s; response = none }
    handle_request (some fd) none s = record { ret = file_err; service = s; response = none }
    handle_request (some fd) (some bytes) s = read_into bytes s
