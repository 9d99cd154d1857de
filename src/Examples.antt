-- ===== src/Examples.antt =====
-- Concrete inputs for the theorems: a printer for ixml, an output module, requests, a session of the
-- AVTransport service and a RenderingControl service.
pub mod Session
pub mod Variables
pub mod Texts
pub mod Device
pub mod Silan
pub mod Published
pub mod Scpd
pub mod Services
use gmrender_resurrect_silan.Base.{
  ℕ, zero, suc, ◌+◌, ◌*◌, ◌≤◌, ◌<◌, ◌≡◌, refl, ap, sym, ◌⊎◌, ◌≢◌, Bool, true, false, not, ◌||◌,
  Option, none, some, List, [], ◌∷◌, ◌++◌, Text, codes, strlen, strstr, text_eq, or_empty, arith,
  ◌==◌,
}
use gmrender_resurrect_silan.Base.Int.{ℤ, pos, negsuc, minus_one}
use gmrender_resurrect_silan.Base.Outcome.{Outcome, done, ◌>>=◌}
use gmrender_resurrect_silan.Xml.{Ixml, Element, element, Nodes, empty, child, text_node}
use gmrender_resurrect_silan.Action.{Upnp, Request, ActionEvent}
use gmrender_resurrect_silan.Output.{
  Output, OutputModule, PlayFeedback, play_stopped, play_started_next_stream,
}

mutual
  pub print_element : Element → Text
  print_element (element tag attrs ns) =
      codes "<" ++ (tag ++ (codes ">" ++ (print_nodes ns ++ (codes "</" ++ (tag ++ codes ">")))))

  pub print_nodes : Nodes → Text
  print_nodes empty = []
  print_nodes (child e ns) = print_element e ++ print_nodes ns
  print_nodes (text_node t ns) = t ++ print_nodes ns

instance abbrev pub example_ixml : Ixml
example_ixml = record { to_string = λ e. some (print_element e) }

abbrev pub add_argument : Option Element → Text → Text → Text → Text → Option Element × ℤ
add_argument none action service name value =
    (some (element action [] (child (element name [] (text_node value empty)) empty)), pos 0)
add_argument (some (element tag attrs ns)) action service name value =
    (some (element tag attrs (child (element name [] (text_node value empty)) ns)), pos 0)

instance abbrev pub example_upnp : Upnp
example_upnp = record {
  err_str_size = 180;
  add_to_action_response = add_argument;
  get_error_message = λ code. codes "error";
  make_action_response = λ action service. some (element action [] empty);
  accept_subscription = λ service variables. pos 0;
}

-- An output module whose device is a volume.
abbrev pub example_module : OutputModule ℤ
example_module = record {
  shortname = codes "example";
  description = codes "an example";
  init = some (λ d. (pos 0, d));
  set_uri = some (λ uri d. d);
  set_next_uri = some (λ uri d. d);
  play = some (λ d. (pos 0, d));
  stop = some (λ d. (pos 0, d));
  pause = some (λ d. (pos 0, d));
  seek = some (λ position d. (pos 0, d));
  set_transport_callback = some (λ d. d);
  get_position = some (λ d. ((pos 0, pos 225, pos 61), d));
  get_volume = some (λ d. ((pos 0, d), d));
  set_volume = some (λ volume d. (pos 0, volume));
  get_mute = some (λ d. ((pos 0, pos 0), d));
  set_mute = some (λ mute d. (pos 0, d));
}

abbrev pub example_output : Output ℤ
example_output = record { output_module = some example_module; device = pos 50 }

-- A request with its arguments, the InstanceID first.
abbrev pub argument_nodes : List (Text × Text) → Nodes
argument_nodes [] = empty
argument_nodes ((name, value) ∷ rest) =
    child (element name [] (text_node value empty)) (argument_nodes rest)

abbrev pub request_of : Text → List (Text × Text) → Request
request_of action args = record {
  action_name = action;
  requested_service = codes "urn:upnp-org:serviceId:AVTransport";
  action_request =
      some
        (child (element action [] (argument_nodes ((codes "InstanceID", codes "0") ∷ args))) empty);
  action_result = none;
  err_code = pos 0;
  err_str = [];
}

abbrev pub set_uri_request : Request
set_uri_request =
    request_of (codes "SetAVTransportURI")
      ((codes "CurrentURI", codes "http://host/a.mp3") ∷ (codes "CurrentURIMetaData", []) ∷ [])

abbrev pub play_request : Request
play_request = request_of (codes "Play") ((codes "Speed", codes "1") ∷ [])

abbrev pub example_event : ActionEvent
example_event = record { request = play_request; status = pos 0; service_type = [] }
