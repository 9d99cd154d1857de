-- ===== src/Examples/Device.antt =====
-- Requests for a variable and for a subscription, to the RenderingControl service.
use gmrender_resurrect_silan.Base.{
  ℕ, zero, suc, ◌<◌, ◌≡◌, ◌≢◌, refl, ap, false, Option, none, some, [], ◌∷◌, Text, codes, text_eq,
  or_empty, if◌then◌else◌, arith,
}
use gmrender_resurrect_silan.Base.Int.{pos, minus_one, is_zero}
use gmrender_resurrect_silan.Base.Outcome.{done}
use gmrender_resurrect_silan.Action.{upnp_e_success}
use gmrender_resurrect_silan.Control.{control_variable_names}
use gmrender_resurrect_silan.Variables.Document.{event_document, printed, with_entities}
use gmrender_resurrect_silan.Device.{Offered, handle_var_request, handle_subscription_request}
use gmrender_resurrect_silan.Device.Requests.{
  handle_var_request-finds, handle_subscription_request-sends,
}
use gmrender_resurrect_silan.Device.Evented.{used, evented}
use gmrender_resurrect_silan.Examples.{example_ixml, example_upnp}
use gmrender_resurrect_silan.Examples.Variables.{example_service, volume_name}

abbrev example_offered : Offered
example_offered = record {
  service_id = codes "urn:upnp-org:serviceId:RenderingControl";
  event_xml_ns = some (codes "urn:schemas-upnp-org:metadata-1-0/RCS/");
  variables = example_service;
}

abbrev volume_here : Option Text → ℕ
volume_here none = 0
volume_here (some name) = if text_eq name (codes "Volume") then 1 else 0

-- No variable before number 6 is named Volume.
earlier_names : (j : ℕ) → j < 6 → control_variable_names j ≢ some (codes "Volume")
unfolding control_variable_names
earlier_names zero h e = absurd (ground (arith, ap volume_here e))
earlier_names (suc zero) h e = absurd (ground (arith, ap volume_here e))
earlier_names (suc (suc zero)) h e = absurd (ground (arith, ap volume_here e))
earlier_names (suc (suc (suc zero))) h e = absurd (ground (arith, ap volume_here e))
earlier_names (suc (suc (suc (suc zero)))) h e = absurd (ground (arith, ap volume_here e))
earlier_names (suc (suc (suc (suc (suc zero))))) h e = absurd (ground (arith, ap volume_here e))
earlier_names (suc (suc (suc (suc (suc (suc j)))))) h e = absurd (omega arith)

handle_var_request-finds_example :
    handle_var_request (some example_offered) (codes "Volume")
    ≡ done (
      pos 0,
      record { current_val = some (example_service.values 6); err_code = upnp_e_success },
      some example_service,
    )
handle_var_request-finds_example =
    handle_var_request-finds example_offered (codes "Volume") 6 refl (omega arith) volume_name
      earlier_names

abbrev initial_xml : Option Text
initial_xml =
    printed (event_document example_offered.event_xml_ns none (evented (used example_service 8 0)))

initial_xml-printed : initial_xml ≡ some (or_empty initial_xml)
unfolding control_variable_names
initial_xml-printed = refl

handle_subscription_request-sends_example :
    handle_subscription_request false (some example_offered)
    ≡ done (
      if is_zero (
            example_upnp.accept_subscription example_offered.service_id
              ((codes "LastChange", with_entities (or_empty initial_xml)) ∷ []))
          then pos 0
          else minus_one,
      false,
      some example_service,
    )
handle_subscription_request-sends_example =
    handle_subscription_request-sends example_offered (or_empty initial_xml) refl
      initial_xml-printed
