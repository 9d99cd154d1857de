-- ===== src/Device.antt =====
-- src/upnp_device.c: find_service, and the requests of libupnp that read a service's variables.
pub mod Evented
pub mod Requests
pub mod Description
pub mod Published
pub mod Renderer
use gmrender_resurrect_silan.Base.{
  ℕ, zero, suc, Bool, true, false, not, ◌&&◌, ◌||◌, Option, none, some, List, [], ◌∷◌, Text, codes,
  text_eq, starts_with, if◌then◌else◌,
}
use gmrender_resurrect_silan.Base.Int.{ℤ, pos, minus_one, is_zero}
use gmrender_resurrect_silan.Base.Outcome.{
  Outcome, done, fault, null_pointer, deadlock, ◌>>=◌, ◌>>◌,
}
use gmrender_resurrect_silan.Xml.{Ixml}
use gmrender_resurrect_silan.XmlEscape.{xmlescape}
use gmrender_resurrect_silan.Action.{Upnp, upnp_e_success, upnp_soap_e_invalid_args}
use gmrender_resurrect_silan.Variables.Builder
use gmrender_resurrect_silan.Variables.Model.{Service, get, lock, unlock}
use gmrender_resurrect_silan.Variables.Change.{to_xml}

-- A `struct service` of the device: its ID, the namespace of its events, and its variables.
pub record Offered : Type 0 where
  pub service_id : Text
  pub event_xml_ns : Option Text
  pub variables : Service

-- find_service
unfoldable pub find_service : Text → List Offered → Option Offered
find_service service_id [] = none
find_service service_id (srv ∷ rest) =
    if text_eq srv.service_id service_id then some srv else find_service service_id rest

-- UPNP_SOAP_E_INVALID_VAR
abbrev pub upnp_soap_e_invalid_var : ℤ
upnp_soap_e_invalid_var = pos 404

-- The value of variable `i`, if it has one and its name is the given one.
unfoldable pub value_named : Service → Text → ℕ → Option Text
value_named s name i = elim (get s (pos i)) [
  | none ↦ none
  | some value ↦ elim (s.variable_names i) [
    | none ↦ none
    | some n ↦ if text_eq name n then some value else none
  ]
]

abbrev pub first_of : Option Text → Option Text → Option Text
first_of none later = later
first_of (some value) later = some value

-- The loop of handle_var_request from variable `i` on.
unfoldable pub find_var : Service → Text → ℕ → ℕ → Option Text
unfolding value_named
find_var s name zero i = none
find_var s name (suc rounds) i =
    let later = find_var s name rounds (suc i) in first_of (value_named s name i) later

-- What handle_var_request writes to its request.
pub record VarAnswer : Type 0 where
  pub current_val : Option Text
  pub err_code : ℤ

abbrev pub var_answer : Option Text → VarAnswer
var_answer none = record { current_val = none; err_code = upnp_soap_e_invalid_var }
var_answer (some value) = record { current_val = some value; err_code = upnp_e_success }

-- handle_var_request for the service that find_service found; the service with its mutex given back
-- comes with the answer.
unfoldable pub handle_var_request : Option Offered → Text → Outcome (ℤ × VarAnswer × Option Service)
unfolding find_var
handle_var_request none name =
    done (minus_one, record { current_val = none; err_code = upnp_soap_e_invalid_args }, none)
handle_var_request (some srv) name = do
  s ← lock srv.variables
  done (pos 0, var_answer (find_var s name s.variable_num 0), some (unlock s))

-- The variables that a new subscriber is sent.
abbrev pub is_evented : Text → Bool
is_evented name =
    not (text_eq (codes "LastChange") name) && not (starts_with (codes "A_ARG_TYPE_") name)

-- One round of the loop of handle_subscription_request.
unfoldable pub add_evented : Service → ℕ → Builder.Builder → Builder.Builder
add_evented s i b = elim (get s (pos i)) [
  | none ↦ b
  | some value ↦ elim (s.variable_names i) [
    | none ↦ b
    | some name ↦ if is_evented name then Builder.add b name value else b
  ]
]

unfoldable pub add_all_evented : Service → ℕ → ℕ → Builder.Builder → Builder.Builder
unfolding add_evented
add_all_evented s zero i b = b
add_all_evented s (suc rounds) i b = add_all_evented s rounds (suc i) (add_evented s i b)

-- The mutex of the device, which handle_subscription_request holds from its lookup to its end.
abbrev pub lock_device : Bool → Outcome (Unit {0})
lock_device true = fault deadlock
lock_device false = done tt

module _ ⦃u : Upnp⦄ where
  -- The end of handle_subscription_request. xmlescape reads its text through NULL if there is none.
  unfoldable pub accept : Text → Option Text → Outcome ℤ
  accept service_id none = fault null_pointer
  accept service_id (some xml) = done (
      if is_zero (u.accept_subscription service_id ((codes "LastChange", xmlescape xml false) ∷ []))
      then pos 0
      else minus_one)

  -- handle_subscription_request for the service that find_service found, from the state of the
  -- device's mutex: the answer, the state of that mutex, and the service.
  unfoldable pub handle_subscription_request :
      ⦃x : Ixml⦄ → Bool → Option Offered → Outcome (ℤ × Bool × Option Service)
  unfolding add_all_evented accept
  handle_subscription_request device_mutex none = done (minus_one, device_mutex, none)
  handle_subscription_request device_mutex (some srv) = do
    lock_device device_mutex
    s ← lock srv.variables
    let b = add_all_evented s s.variable_num 0 (Builder.new_builder srv.event_xml_ns)
    let s = unlock s
    rc ← accept srv.service_id (to_xml b)
    done (rc, false, some s)
