-- ===== src/Action.antt =====
-- Actions of a service as src/upnp_device.c sees them: the `struct action_event` of src/upnp.h, the
-- arguments of a request, the response and errors.
use gmrender_resurrect_silan.Base.{
  ℕ, zero, suc, Option, none, some, List, [], ◌∷◌, ◌++◌, Text, codes, text_eq, if◌then◌else◌,
}
use gmrender_resurrect_silan.Base.Int.{ℤ, pos, minus_one, is_zero}
use gmrender_resurrect_silan.Base.Outcome.{Outcome, done, fault, assertion, ◌>>=◌}
use gmrender_resurrect_silan.Xml.{Element, element, Nodes, empty, child, text_node}
use gmrender_resurrect_silan.Variables.Model.{Service, get, lock, unlock}

-- What the program uses of libupnp: the size of `ErrStr`, the function that adds an argument to a
-- response, the texts of its own error codes, and the functions that make an empty response and that
-- accept a subscription.
pub record Upnp : Type 0 where
  pub err_str_size : ℕ
  pub add_to_action_response : Option Element → Text → Text → Text → Text → Option Element × ℤ
  pub get_error_message : ℤ → Text
  pub make_action_response : Text → Text → Option Element
  pub accept_subscription : Text → List (Text × Text) → ℤ

-- Codes of libupnp.
abbrev pub upnp_e_success : ℤ
upnp_e_success = pos 0

abbrev pub upnp_soap_e_invalid_args : ℤ
upnp_soap_e_invalid_args = pos 402

abbrev pub upnp_soap_e_action_failed : ℤ
upnp_soap_e_action_failed = pos 501

-- struct Upnp_Action_Request. `action_request` holds the nodes below the request document.
pub record Request : Type 0 where
  pub action_name : Text
  pub requested_service : Text
  pub action_request : Option Nodes
  pub action_result : Option Element
  pub err_code : ℤ
  pub err_str : Text

-- struct action_event, with the `service_type` of its service.
pub record ActionEvent : Type 0 where
  pub request : Request
  pub status : ℤ
  pub service_type : Text

-- What `vsnprintf` leaves of a text in a buffer of the given size.
abbrev pub truncated : ℕ → Text → Text
truncated zero s = []
truncated (suc zero) s = []
truncated (suc (suc n)) [] = []
truncated (suc (suc n)) (c ∷ s) = c ∷ truncated (suc n) s

-- `ixmlNode_getNodeValue` of a first child: only a text node has a value.
unfoldable pub first_value : Nodes → Option Text
first_value empty = none
first_value (child e ns) = none
first_value (text_node t ns) = some t

-- The loop of upnp_get_string over the arguments: none if no node has that name.
unfoldable pub find_argument : Text → Nodes → Option (Option Text)
unfolding first_value
find_argument key empty = none
find_argument key (child (element tag attrs inner) ns) =
    if text_eq tag key then some (first_value inner) else find_argument key ns
find_argument key (text_node t ns) =
    if text_eq (codes "#text") key then some none else find_argument key ns

-- The nodes below the action element; none where upnp_get_string finds no such element. A text in
-- its place has nothing below it.
unfoldable pub arguments : Option Nodes → Option Nodes
arguments none = none
arguments (some empty) = none
arguments (some (child (element tag attrs inner) ns)) = some inner
arguments (some (text_node t ns)) = some empty

module _ ⦃u : Upnp⦄ where
  -- upnp_set_error, with the message formatted. The code is not used.
  unfoldable pub set_error : ℤ → Text → ActionEvent → ActionEvent
  set_error error_code message ev = record ev {
    status = minus_one;
    request = record (ev.request) {
      action_result = none;
      err_code = upnp_soap_e_action_failed;
      err_str = truncated u.err_str_size message;
    };
  }

  unfoldable pub found_argument :
      Text → Option (Option Text) → ActionEvent → Option Text × ActionEvent
  unfolding set_error
  found_argument key (some value) ev = (value, ev)
  found_argument key none ev = (
    none,
    set_error upnp_soap_e_invalid_args
        (codes "Missing action request argument (" ++ (key ++ codes ")")) ev,
  )

  -- upnp_get_string
  unfoldable pub get_string : Text → ActionEvent → Option Text × ActionEvent
  unfolding arguments find_argument found_argument set_error
  get_string key ev = elim (arguments ev.request.action_request) [
    | none ↦ (none, set_error upnp_soap_e_invalid_args (codes "Invalid action request document") ev)
    | some ns ↦ found_argument key (find_argument key ns) ev
  ]

  unfoldable pub responded : Option Element × ℤ → ActionEvent → ActionEvent
  responded (result, rc) ev =
      if is_zero rc
      then record ev { request = record (ev.request) { action_result = result } }
      else record ev {
        request = record (ev.request) {
          action_result = none;
          err_code = upnp_soap_e_action_failed;
          err_str = u.get_error_message rc;
        };
      }

  -- upnp_add_response. No caller reads its result.
  unfoldable pub add_response : Text → Text → ActionEvent → ActionEvent
  unfolding responded
  add_response key value ev =
      if is_zero ev.status
      then responded
          (u.add_to_action_response ev.request.action_result ev.request.action_name ev.service_type
            key value)
          ev
      else ev

  -- upnp_append_variable behind its assertion.
  unfoldable pub append_value :
      Text → Option Text → Service → ActionEvent → Outcome (Service × ActionEvent)
  append_value paramname none s ev = fault assertion
  append_value paramname (some value) s ev = done (unlock s, add_response paramname value ev)

  -- upnp_append_variable
  unfoldable pub append_variable :
      ℤ → Text → Service → ActionEvent → Outcome (Service × ActionEvent)
  unfolding append_value
  append_variable varnum paramname s ev = do
    s' ← lock s
    append_value paramname (get s' varnum) s' ev
