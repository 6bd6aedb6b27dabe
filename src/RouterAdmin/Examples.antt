-- ===== src/RouterAdmin/Examples.antt =====
-- The labels of a container, and a refusal on its way from a router process to a client.
use apm_projectrunner.Base.{ℕ, String, ◌≡◌, ◌↔◌, refl, some, none, true, List}
use apm_projectrunner.Base.Json.{Value, text, object, field, end}
use apm_projectrunner.RouterHost.Control.{Answer}
use apm_projectrunner.RouterHost.Report.{failure}
use apm_projectrunner.RouterHost.Admin.{
  Request, malformed, read_frame, read_from, serve_connection, response,
}
use apm_projectrunner.RouterHost.Observe.{emit}
use apm_projectrunner.RouterHost.Examples.{no_checksum, surroundings, reports, running, letter}
use apm_projectrunner.RouterAdmin.Client.{Parsed, parsed, verify_container_labels, decode_response}
use apm_projectrunner.RouterAdmin.Exchange.{
  Labelled, verify_container_labels-none, Reads, decode_response-serve_connection,
}

abbrev labels : Value
labels = object (
    field "dev.apmpr.managed" (text "true")
      (field "dev.apmpr.deployment" (text "demo") (field "dev.apmpr.instance" (text "ui") end)))

verify_container_labels-none_example :
    (verify_container_labels labels "sidecar" "demo" "ui" "hash" ≡ none) ↔ (
      Labelled labels ("dev.apmpr.managed", "true")
      × Labelled labels ("dev.apmpr.deployment", "demo")
      × Labelled labels ("dev.apmpr.instance", "ui")
      × Labelled labels ("dev.apmpr.resource-hash", "hash"))
verify_container_labels-none_example =
    verify_container_labels-none labels "sidecar" "demo" "ui" "hash"

abbrev refusal : Answer
refusal = failure "invalid_frame" "request must end with a newline"

abbrev from_str : String → Parsed
from_str s = parsed (response refusal)

abbrev to_string : Value → String
to_string v = "{}"

abbrev decode : List ℕ → Request
decode bs = malformed "no request"

-- The peer sends a request without its newline.
answered :
    (serve_connection no_checksum surroundings decode reports 5 "t0ken" running letter true).1
    ≡ some refusal
unfolding serve_connection read_frame read_from emit
answered = refl

decode_response-serve_connection_example :
    Reads refusal (decode_response from_str (to_string (response refusal)))
decode_response-serve_connection_example =
    decode_response-serve_connection no_checksum surroundings decode reports 5 "t0ken" running
      letter true refusal from_str to_string answered refl
