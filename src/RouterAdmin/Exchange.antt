-- ===== src/RouterAdmin/Exchange.antt =====
-- What a client makes of the labels of a container and of what a router process answers.
use apm_projectrunner.Base.{
  ℕ, String, subst, sym, ap, ◌∙◌, Bool, true, false, ◌≡◌, refl, ◌↔◌, List, [], ◌∷◌, none, some,
  arith, All, option_beq_correct, option_eq, string_eq,
}
use apm_projectrunner.Base.Json.{Value, text, object, Fields, field}
use apm_projectrunner.RouterConfig.Model.{RouterConfig}
use apm_projectrunner.RouterHost.Process.{Surroundings}
use apm_projectrunner.RouterHost.Control.{ControlState, Answer}
use apm_projectrunner.RouterHost.Report.{Reports}
use apm_projectrunner.RouterHost.Admin.{Request, serve_connection, response}
use apm_projectrunner.RouterHost.Admin.Answers.{IsAnswer, IsGiven, serve_connection-Answered}
use apm_projectrunner.RouterAdmin.Client.{
  AdminResult, ok, err, rejected, member, as_str, ownership, first_mismatch,
  verify_container_labels, rejection, field_of, Parsed, parsed, decode_value, decode_response,
}

-- The label of the name is the text.
abbrev pub Labelled : Value → String × String → Type 0
Labelled labels (name, expected) = as_str (member name labels) ≡ some expected

first_mismatch-none :
    (labels : Value) (container : String) (wanted : List (String × String))
    → (first_mismatch labels container wanted ≡ none) ↔ All (Labelled labels) wanted
unfolding first_mismatch
first_mismatch-none labels container [] = ground arith
first_mismatch-none labels container ((name, expected) ∷ wanted) = ground (
  arith,
  first_mismatch-none labels container wanted,
  option_beq_correct (as_str (member name labels)) (some expected),
)

-- A container is accepted exactly when it has all four ownership labels with the expected texts: that
-- it is managed, its deployment, its instance and the hash of its resources.
pub verify_container_labels-none :
    (labels : Value) (container deployment instance_name resource_hash : String)
    → (verify_container_labels labels container deployment instance_name resource_hash ≡ none) ↔ (
        Labelled labels ("dev.apmpr.managed", "true")
        × Labelled labels ("dev.apmpr.deployment", deployment)
        × Labelled labels ("dev.apmpr.instance", instance_name)
        × Labelled labels ("dev.apmpr.resource-hash", resource_hash))
unfolding verify_container_labels
verify_container_labels-none labels container deployment instance_name resource_hash =
    let (to, from) =
      first_mismatch-none labels container (ownership deployment instance_name resource_hash) in
    (
      λ h. let (a, (b, (c, (d, u)))) = to h in (a, b, c, d),
      λ h. from (h.0, (h.1, (h.2, (h.3, tt)))),
    )

-- What the client is to make of an answer: the body of a success, and of a failure a rejection with
-- the code and the message that the router wrote, and the body as its details.
pub data Reads (a : Answer) : AdminResult Value → Type 0 where
  body : a.ok ≡ true → Reads a (ok a.body)
  refusal :
      {code message : String} {details : Fields}
      → a.ok ≡ false
      → a.body ≡ object (field "code" (text code) (field "message" (text message) details))
      → Reads a (err (rejected code message a.body))

rejection_lem :
    (v : Value) (code message : String) (details : Fields)
    → v ≡ object (field "code" (text code) (field "message" (text message) details))
    → rejection v ≡ rejected code message v
unfolding field_of
rejection_lem v code message details h = rw h refl

decode_value-Reads : (a : Answer) → IsAnswer a → Reads a (decode_value (response a))
unfolding decode_value field_of
decode_value-Reads a (IsAnswer.success good) =
    let e : decode_value (response a) ≡ ok a.body = rw good refl in
    subst (Reads a) (sym e) (Reads.body good)
decode_value-Reads a (IsAnswer.failure {code} {message} {details} bad shape) =
    let e : decode_value (response a) ≡ err (rejection a.body) = rw bad refl in
    subst (Reads a) (sym (e ∙ ap err (rejection_lem a.body code message details shape)))
      (Reads.refusal bad shape)

-- Whatever a router process answers to a connection, its client reads, for a parser and a printer of
-- JSON that agree on the response: the body of a success, and of a failure a rejection with the code
-- and the message that the process wrote into the body, and the body as its details.
pub decode_response-serve_connection :
    (checksum : RouterConfig → String) (env : Surroundings) (from_slice : List ℕ → Request)
    (reports : Reports) (now : ℕ) (expected_token : String) (st : ControlState) (input : List ℕ)
    (written : Bool) (a : Answer) (from_str : String → Parsed) (to_string : Value → String)
    → (serve_connection checksum env from_slice reports now expected_token st input written).1
      ≡ some a
    → from_str (to_string (response a)) ≡ parsed (response a)
    → Reads a (decode_response from_str (to_string (response a)))
unfolding decode_response
decode_response-serve_connection checksum env from_slice reports now expected_token st input written
      a from_str to_string answers h =
    let answered =
      serve_connection-Answered checksum env from_slice reports now expected_token st input
        written in
    rw (decode_response, h) (decode_value-Reads a (subst IsGiven answers answered))
