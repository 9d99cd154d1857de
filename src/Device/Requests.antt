-- ===== src/Device/Requests.antt =====
-- Requests for a variable and for a subscription (src/upnp_device.c), and the variables they are for.
use gmrender_resurrect_silan.Base.{
  ℕ, zero, suc, ◌+◌, ◌<◌, ◌≤◌, ◌≡◌, ◌≢◌, refl, ap, sym, ◌∙◌, true, false, Option, none, some, [],
  ◌∷◌, Text, codes, text_eq, text_eq_iff, ◌==◌, inl, inr, Bool-cases, lt→ltb, Option-cases,
  if◌then◌else◌, arith,
}
use gmrender_resurrect_silan.Base.Int.{pos, minus_one, is_zero}
use gmrender_resurrect_silan.Base.Outcome.{done}
use gmrender_resurrect_silan.Xml.{Ixml}
use gmrender_resurrect_silan.Action.{Upnp, upnp_e_success}
use gmrender_resurrect_silan.Variables.Builder
use gmrender_resurrect_silan.Variables.Model.{Service, get, lock, unlock}
use gmrender_resurrect_silan.Variables.Change.{to_xml}
use gmrender_resurrect_silan.Variables.Document.{event_document, with_entities, printed}
use gmrender_resurrect_silan.Variables.Document.Built.{
  xmlescape-with_entities, to_xml-event_document,
}
use gmrender_resurrect_silan.Device.{
  Offered, value_named, first_of, find_var, handle_var_request, add_all_evented, accept,
  handle_subscription_request,
}
use gmrender_resurrect_silan.Device.Evented.{
  used, first, evented, used-locked, add_all_evented-evented,
}

value_named-here :
    (s : Service) (name : Text) (i : ℕ)
    → i < s.variable_num
    → s.variable_names i ≡ some name
    → value_named s name i ≡ some (s.values i)
unfolding value_named get
value_named-here s name i h e =
    ground (arith, lt→ltb i s.variable_num h, e, (text_eq_iff name name).1 refl)

value_named-other :
    (s : Service) (name : Text) (i : ℕ)
    → s.variable_names i ≢ some name
    → value_named s name i ≡ none
unfolding value_named get
value_named-other s name i h = elim (Option-cases (s.variable_names i)) [
  | inl e ↦ ground (arith, e)
  | inr (n, e) ↦ elim (Bool-cases (text_eq name n)) [
    | inl same ↦ absurd (h (e ∙ ap some (sym ((text_eq_iff name n).0 same))))
    | inr other ↦ ground (arith, e, other)
  ]
]

lock-free : (s : Service) → s.locked ≡ false → lock s ≡ done (record s { locked = true })
unfolding lock
lock-free s e = rw e

find_var-step :
    (s : Service) (name : Text) (rounds i : ℕ)
    → find_var s name (suc rounds) i
      ≡ first_of (value_named s name i) (find_var s name rounds (suc i))
unfolding find_var value_named
find_var-step s name rounds i = refl

find_var-from :
    (s : Service) (name : Text) (rounds i k : ℕ)
    → i ≤ k
    → k < i + rounds
    → k < s.variable_num
    → s.variable_names k ≡ some name
    → ((j : ℕ) → j < k → s.variable_names j ≢ some name)
    → find_var s name rounds i ≡ some (s.values k)
find_var-from s name zero i k le lt h e first = absurd (omega arith)
find_var-from s name (suc rounds) i k le lt h e first =
    let later = find_var s name rounds (suc i) in
    find_var-step s name rounds i ∙ elim (Bool-cases (i == k)) [
      | inl same ↦
          let at : i ≡ k = ground arith in
          ap (λ v. first_of v later) (ap (value_named s name) at ∙ value_named-here s name k h e)
      | inr other ↦
          ap (λ v. first_of v later) (value_named-other s name i (first i (ground arith)))
          ∙ find_var-from s name rounds (suc i) k (ground arith) (omega arith) h e first
    ]

-- A service at rest that is asked for the value of a variable answers with success and with the value
-- of the first variable of that name, and is left as it was.
pub handle_var_request-finds :
    (srv : Offered) (name : Text) (k : ℕ)
    → srv.variables.locked ≡ false
    → k < srv.variables.variable_num
    → srv.variables.variable_names k ≡ some name
    → ((j : ℕ) → j < k → srv.variables.variable_names j ≢ some name)
    → handle_var_request (some srv) name
      ≡ done (
        pos 0,
        record { current_val = some (srv.variables.values k); err_code = upnp_e_success },
        some srv.variables,
      )
unfolding handle_var_request lock unlock
handle_var_request-finds srv name k free h e first =
    let v = srv.variables in
    let held = record v { locked = true } in
    rw
      (
        lock-free v free,
        find_var-from held name v.variable_num 0 k (omega arith) (omega arith) h e first,
      )
      (ap
        (λ b. done (
          pos 0,
          record { current_val = some (v.values k); err_code = upnp_e_success },
          some (record v { locked = b }),
        ))
        (sym free))

add_all_evented-document :
    ⦃x : Ixml⦄ (s : Service) (ns : Option Text)
    → to_xml
        (add_all_evented (record s { locked = true }) s.variable_num 0 (Builder.new_builder ns))
      ≡ printed (event_document ns none (evented (used s s.variable_num 0)))
unfolding Builder.new_builder
add_all_evented-document s ns =
    let b : Builder.Builder = record { xml_namespace = ns; instance_element = none } in
    ap to_xml (
      add_all_evented-evented (record s { locked = true }) s.variable_num 0 b (omega arith)
      ∙ ap (λ l. Builder.add_all b (evented l)) (used-locked s true s.variable_num 0))
    ∙ to_xml-event_document b (evented (used s s.variable_num 0))

-- A subscription to a service at rest, while the device's mutex is free and the initial event can be
-- printed, is answered with what libupnp answers to one LastChange document, escaped: that of all
-- variables in use but LastChange and those whose names begin with A_ARG_TYPE_, with an element for
-- each in their order. Both mutexes are free again and the service is left as it was.
pub handle_subscription_request-sends :
    ⦃u : Upnp⦄ ⦃x : Ixml⦄ (srv : Offered) (xml : Text)
    → srv.variables.locked ≡ false
    → printed (
        event_document srv.event_xml_ns none
          (evented (used srv.variables srv.variables.variable_num 0)))
      ≡ some xml
    → handle_subscription_request false (some srv)
      ≡ done (
        if is_zero
              (u.accept_subscription srv.service_id ((codes "LastChange", with_entities xml) ∷ []))
            then pos 0
            else minus_one,
        false,
        some srv.variables,
      )
unfolding handle_subscription_request accept unlock
handle_subscription_request-sends ⦃u⦄ srv xml free e =
    let v = srv.variables in
    rw
      (
        lock-free v free,
        add_all_evented-document v srv.event_xml_ns,
        e,
        xmlescape-with_entities xml,
      )
      (ap
        (λ l. done (
          if is_zero (
                u.accept_subscription srv.service_id ((codes "LastChange", with_entities xml) ∷ []))
              then pos 0
              else minus_one,
          false,
          some (record v { locked = l }),
        ))
        (sym free))
