-- ===== src/Variables/Transaction.antt =====
-- A transaction of src/variable-container.c: the changes between UPnPLastChangeCollector_start and
-- _finish, and the event that they make.
use gmrender_resurrect_silan.Base.{
  ℕ, ◌+◌, ◌-◌, ◌<◌, ◌≡◌, refl, sym, ap, ◌∙◌, inl, inr, true, false, Option, none, some, List, [],
  ◌∷◌, ◌++◌, Text, text_eq, lt→ltb, if◌then◌else◌, arith, Bool-cases,
}
use gmrender_resurrect_silan.Base.Int.{pos}
use gmrender_resurrect_silan.Base.Outcome.{done, ◌>>=◌}
use gmrender_resurrect_silan.Xml.{Ixml}
use gmrender_resurrect_silan.Variables.Mask.{testbit}
use gmrender_resurrect_silan.Variables.Builder
use gmrender_resurrect_silan.Variables.Model.{
  Service, Collector, collector, update, with_collector, unlock,
}
use gmrender_resurrect_silan.Variables.Change.{to_xml, publish, notify, change_var}
use gmrender_resurrect_silan.Variables.Document.{event_document, last_change_message, printed}
use gmrender_resurrect_silan.Variables.Document.Built.{
  notification-last_change_message, reset-add_all, to_xml-event_document,
}
use gmrender_resurrect_silan.Variables.Collector.{
  start, finish, finish_open, service_lock, service_unlock,
}
use gmrender_resurrect_silan.Variables.Locking.{service_lock-opens}
use gmrender_resurrect_silan.Variables.Nesting.{change-Quiet}
use gmrender_resurrect_silan.Variables.Writes.{
  assign_all, events, AllNamed, pending, changed-ignored, change_each, change_each-pending,
}

module _ ⦃x : Ixml⦄ where
  -- What the end of a transaction does with the document of its changes: it becomes the value of
  -- LastChange, variable `k`, and if that is a new value it is sent.
  abbrev pub published : ℕ → Text → Option Text → Service → Service
  published k service none s = s
  published k service (some xml) s = if text_eq xml (s.values k) then s else record s {
    values = update s.values k xml;
    sent = s.sent ++ last_change_message service xml ∷ [];
  }

  -- The builder at the end of a transaction.
  abbrev collected : List (ℕ × Text) → Collector → Service → Builder.Builder
  collected cs c s =
      Builder.add_all c.builder (events s.variable_names c.not_eventable_variables s.values cs)

  -- The state after a whole transaction, as the functions of the builder make it.
  abbrev settled : ℕ → List (ℕ × Text) → Collector → Service → Service
  settled k cs c s = published k c.service_id (to_xml (collected cs c s)) (record s {
    values = assign_all s.values cs;
    last_change = some (record c { builder = Builder.reset (collected cs c s) });
  })

  -- The state after a whole transaction: the variables hold what was written last, the builder is
  -- empty, and the document of the changes that are told is published.
  abbrev pub committed : ℕ → List (ℕ × Text) → Collector → Service → Service
  committed k cs c s =
      let told = events s.variable_names c.not_eventable_variables s.values cs in
      let xml = printed (event_document c.builder.xml_namespace c.builder.instance_element told) in
      published k c.service_id xml (record s {
        values = assign_all s.values cs;
        last_change = some (record c { builder = record c.builder { instance_element = none } });
      })

  settled-committed :
      (k : ℕ) (cs : List (ℕ × Text)) (c : Collector) (s : Service)
      → settled k cs c s ≡ committed k cs c s
  settled-committed k cs c s =
      let told = events s.variable_names c.not_eventable_variables s.values cs in
      ap
        (λ xml. published k c.service_id xml (record s {
          values = assign_all s.values cs;
          last_change = some (record c { builder = Builder.reset (collected cs c s) });
        }))
        (to_xml-event_document c.builder told)
      ∙ ap
          (λ b.
            published k c.service_id
              (printed (event_document c.builder.xml_namespace c.builder.instance_element told))
              (record s {
                values = assign_all s.values cs;
                last_change = some (record c { builder = b });
              }))
          (reset-add_all c.builder told)

  publish-published :
      (k : ℕ) (c r : Collector) (xml : Option Text) (s : Service)
      → c.last_change_variable_num ≡ pos k
      → k < s.variable_num
      → testbit r.not_eventable_variables k ≡ true
      → s.last_change ≡ some r
      → s.callbacks ≡ collector ∷ []
      → publish change_var c xml s ≡ done (published k c.service_id xml s)
  unfolding publish change_var
  publish-published k c r none s e w g l cb = refl
  publish-published k c r (some xml) s e w g l cb =
      rw (e, change-Quiet 1 k (some xml) r s w l (inl g), changed-ignored k xml r s g l cb)
        (elim (Bool-cases (text_eq xml (s.values k))) [
          | inl same ↦ rw same
          | inr other ↦ rw (other, notification-last_change_message c.service_id xml)
        ])

  notify-idle :
      (c : Collector) (s : Service)
      → c.open_transactions ≡ 0
      → notify change_var c s
        ≡ publish change_var c
            (to_xml c.builder)
            (with_collector s (record c { builder = Builder.reset c.builder }))
  unfolding notify
  notify-idle c s o = ground arith

  finish-settled :
      (k : ℕ) (cs : List (ℕ × Text)) (c : Collector) (s : Service)
      → c.last_change_variable_num ≡ pos k
      → k < s.variable_num
      → testbit c.not_eventable_variables k ≡ true
      → c.open_transactions ≡ 0
      → s.callbacks ≡ collector ∷ []
      → finish_open (pending cs (start c) s) ≡ done (settled k cs c s)
  unfolding finish_open finish start
  finish-settled k cs c s e w g o cb =
      let b = collected cs c s in
      let c' = record c { builder = b } in
      let s' = record s { values = assign_all s.values cs; last_change = some c' } in
      let back : c.open_transactions + 1 - 1 ≡ c.open_transactions = omega arith in
      rw (lt→ltb 0 (c.open_transactions + 1) (omega arith), back)
        (notify-idle c' s' o
          ∙ publish-published k c' (record c { builder = Builder.reset b }) (to_xml b)
              (with_collector s' (record c { builder = Builder.reset b })) e w g refl cb)

  published-unlock :
      (k : ℕ) (service : Text) (xml : Option Text) (s : Service)
      → unlock (published k service xml s) ≡ published k service xml (unlock s)
  unfolding unlock
  published-unlock k service none s = refl
  published-unlock k service (some xml) s = ground arith

  -- A transaction of a service that none is open on, from the locking of its mutex to the
  -- unlocking. It comes back; the variables hold what was written last; the collector is as before
  -- and its builder is empty; the mutex is free. One LastChange document is printed, in which an
  -- element for each change that is to be told, in their order, follows what the builder held
  -- before: when it is a new value of LastChange it is stored
  -- there and sent, once and escaped, and otherwise nothing is sent.
  pub transaction-committed :
      (k : ℕ) (cs : List (ℕ × Text)) (c : Collector) (s : Service)
      → s.last_change ≡ some c
      → c.last_change_variable_num ≡ pos k
      → k < s.variable_num
      → testbit c.not_eventable_variables k ≡ true
      → c.open_transactions ≡ 0
      → s.callbacks ≡ collector ∷ []
      → s.locked ≡ false
      → AllNamed s.variable_names s.variable_num cs
      → (do s₁ ← service_lock s; s₂ ← change_each cs s₁; service_unlock s₂)
        ≡ done (committed k cs c s)
  unfolding service_unlock start unlock
  transaction-committed k cs c s l e w g o cb free a =
      let held = record s { locked = true } in
      let opened = record held { last_change = some (start c) } in
      rw
        (
          service_lock-opens c s l free,
          change_each-pending cs (start c) opened a refl (omega arith) cb,
          finish-settled k cs c held e w g o cb,
        )
        (ap done (
          published-unlock k c.service_id (to_xml (collected cs c s)) (record held {
            values = assign_all s.values cs;
            last_change = some (record c { builder = Builder.reset (collected cs c s) });
          })
          ∙ ap (λ b. settled k cs c (record s { locked = b })) (sym free)
          ∙ settled-committed k cs c s))
