-- ===== src/RouterHost/Admin.antt =====
-- The administration socket: frames, the comparison of tokens, and one connection.
pub mod Token
pub mod Answers
pub mod Framing
use apm_projectrunner.Base.{
  ℕ, suc, ◌*◌, String, Bool, true, false, List, [], ◌∷◌, ◌++◌, Option, none, some, length, nat_eq,
  ◌==◌, if◌then◌else◌, codes, bytes,
}
use Prim.Native.Nat.{bit_or, bit_xor}
use apm_projectrunner.Base.Json.{Value, text, object, field, end, bool}
use apm_projectrunner.RouterConfig.Model.{RouterConfig}
use apm_projectrunner.RouterHost.Process.{Surroundings}
use apm_projectrunner.RouterHost.Observe.{
  Observability, emit, rejected, count_request, count_connection, count_error, access,
}
use apm_projectrunner.RouterHost.Control.{
  ControlState, Answer, AdminCommand, validate, apply_config, current_version, routes, health_check,
  drain, counters, events,
}
use apm_projectrunner.RouterHost.Report.{Reports, failure}
use apm_projectrunner.RouterHost.Execute.{Executed, observe, execute}

abbrev pub max_frame_bytes : ℕ
max_frame_bytes = 1024 * 1024

-- A frame, or the error of `read_frame`.
pub data Frame : Type 0 where
  frame : List ℕ → Frame
  unfinished : Frame
  too_large : Frame

-- The loop of `read_frame` over the bytes that the peer sends, with those of the frame so far; the end
-- of the input is the end of the stream.
unfoldable pub read_from : List ℕ → List ℕ → Frame
read_from so_far [] = unfinished
read_from so_far (byte ∷ input) =
    let more = read_from (so_far ++ byte ∷ []) input in
    if byte == b'\n'
    then frame so_far
    else if length so_far == max_frame_bytes
    then too_large
    else more

unfoldable pub read_frame : List ℕ → Frame
read_frame input = read_from [] input

-- `constant_time_eq`: the loop to the end of the longer of the two, a missing byte counting as 0.
unfoldable pub difference_of : ℕ → List ℕ → List ℕ → ℕ
difference_of difference [] [] = difference
difference_of difference (a ∷ left) [] = difference_of (bit_or difference (bit_xor a 0)) left []
difference_of difference [] (b ∷ right) = difference_of (bit_or difference (bit_xor 0 b)) [] right
difference_of difference (a ∷ left) (b ∷ right) =
    difference_of (bit_or difference (bit_xor a b)) left right

unfoldable pub constant_time_eq : List ℕ → List ℕ → Bool
constant_time_eq left right = difference_of (bit_xor (length left) (length right)) left right == 0

-- What `serde_json` makes of a frame.
pub data Request : Type 0 where
  request : String → AdminCommand → Request
  malformed : String → Request

abbrev pub command_name : AdminCommand → String
command_name (validate c) = "validate"
command_name (apply_config c) = "apply"
command_name current_version = "current-version"
command_name routes = "routes"
command_name health_check = "health"
command_name drain = "drain"
command_name counters = "counters"
command_name events = "events"

abbrev frame_text : Frame → String
frame_text (frame bs) = ""
frame_text unfinished = "request must end with a newline"
frame_text too_large = "administration frame is too large"

abbrev pub refused_request : ℕ → ControlState → String → String → String → Executed
refused_request now st code operation message = (
  observe st (rejected now code operation (count_error st.observations)),
  some (failure code message),
)

-- What `write_response` prints.
abbrev pub response : Answer → Value
response a =
    if a.ok
    then object (field "ok" (bool true) (field "result" a.body end))
    else object (field "ok" (bool false) (field "error" a.body end))

-- The event of an access, and the count of an error.
abbrev pub noted : ℕ → String → Executed → Executed
noted now operation (st, none) = (st, none)
noted now operation (st, some a) =
    let seen =
      emit now access (if a.ok then "ok" else "error") (field "operation" (text operation) end)
        st.observations in
    (observe st (if a.ok then seen else count_error seen), some a)

module _ (checksum : RouterConfig → String) (env : Surroundings)
    (from_slice : List ℕ → Request) where
  abbrev pub authenticated : Reports → ℕ → String → ControlState → Request → Executed
  authenticated reports now expected_token st (malformed why) =
      refused_request now st "invalid_request" "decode" why
  authenticated reports now expected_token st (request token command) =
      if constant_time_eq (bytes token) (bytes expected_token)
      then noted now (command_name command) (execute checksum env reports now st command)
      else refused_request now st "unauthorized" "authentication" "invalid administration token"

  abbrev pub received : Reports → ℕ → String → ControlState → Frame → Executed
  received reports now expected_token st (frame bs) =
      authenticated reports now expected_token (observe st (count_request st.observations))
        (from_slice bs)
  received reports now expected_token st problem = (
    observe st (count_error st.observations),
    some (failure "invalid_frame" (frame_text problem)),
  )

  -- `write_response`, which succeeds or not, and what follows it.
  abbrev pub finished : Bool → Executed → Executed
  finished written (st, none) = (st, none)
  finished true (st, some a) =
      if a.drain then (record st { shutdown = true }, some a) else (st, some a)
  finished false (st, some a) = (observe st (count_error st.observations), none)

  -- A connection, as `run_admin` accepts it: the bytes that the peer sends, and whether its socket
  -- takes the answer. The answer is `none` where the peer receives none.
  unfoldable pub serve_connection : Reports → ℕ → String → ControlState → List ℕ → Bool → Executed
  serve_connection reports now expected_token st input written = finished written (
      received reports now expected_token (observe st (count_connection st.observations))
        (read_frame input))
