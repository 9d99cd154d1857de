-- ===== src/Variables/Nesting.antt =====
-- Changes that nest in src/variable-container.c: the change of a variable may publish a LastChange
-- document, which is a change of the LastChange variable of the same container.
use gmrender_resurrect_silan.Base.{
  ℕ, suc, ◌<◌, ◌≡◌, refl, ◌∙◌, inl, inr, Bool, true, false, not, Option, none, some, List, [], ◌∷◌,
  ◌++◌, Text, or_empty, text_eq, text_eq_iff, lt→ltb, ◌==◌, if◌then◌else◌, arith, Bool-cases,
}
use gmrender_resurrect_silan.Base.Int.{pos}
use gmrender_resurrect_silan.Base.Outcome.{done}
use gmrender_resurrect_silan.Xml.{Ixml}
use gmrender_resurrect_silan.Variables.Mask.{testbit}
use gmrender_resurrect_silan.Variables.Builder
use gmrender_resurrect_silan.Variables.Model.{
  Service, Collector, Change, Listener, collector, external, update, with_collector,
}
use gmrender_resurrect_silan.Variables.Change.{
  Changer, to_xml, send, publish, notify, collect, callback, call_back, call_all, change_value,
  change,
}
use gmrender_resurrect_silan.Variables.Frame.{IsSettled, Frame, Frame-refl, Frame-trans, Settles}
use gmrender_resurrect_silan.Variables.Quiet.{Quiet, noted, noted_all, told_all, call_all-Quiet}

-- The call that the listeners get.
abbrev pub event : ℕ → Text → Service → Change
event i value s = record {
  var_num = i;
  var_name = s.variable_names i;
  old_value = s.values i;
  new_value = value;
}

-- A change that publishes nothing.
abbrev pub changed : ℕ → Text → Collector → Service → Service
changed i value c s =
    if text_eq value (s.values i)
    then s
    else told_all (event i value s) s.callbacks c (record s { values = update s.values i value })

module _ ⦃x : Ixml⦄ where
  pub change-Quiet :
      (d i : ℕ) (value : Option Text) (c : Collector) (s : Service)
      → i < s.variable_num
      → s.last_change ≡ some c
      → Quiet (event i (or_empty value) s) c
      → change (suc d) (pos i) value s
        ≡ done (not (text_eq (or_empty value) (s.values i)), changed i (or_empty value) c s)
  unfolding change change_value
  change-Quiet d i value c s h l q = ground (
    arith,
    call_all-Quiet (change d) (event i (or_empty value) s) s.callbacks c
        (record s { values = update s.values i (or_empty value) }) q l,
  )

-- An ignored variable leaves the collector as it is.
noted_all-ignored :
    (e : Change) (ls : List Listener) (c : Collector)
    → testbit c.not_eventable_variables e.var_num ≡ true
    → noted_all e ls c ≡ c
unfolding noted_all noted
noted_all-ignored e [] c h = refl
noted_all-ignored e (collector ∷ ls) c h = rw h (noted_all-ignored e ls c h)
noted_all-ignored e (external n ∷ ls) c h = noted_all-ignored e ls c h

-- The change of LastChange itself, which the collector ignores.
changed-IsSettled :
    (k : ℕ) (xml : Text) (s : Service) (v : IsSettled k s)
    → IsSettled k (changed k xml v.keeper s) × Frame k s (changed k xml v.keeper s)
changed-IsSettled k xml s v = elim (Bool-cases (text_eq xml (s.values k))) [
  | inl same ↦ rw same (v, Frame-refl k s)
  | inr other ↦
      let e = noted_all-ignored (event k xml s) s.callbacks v.keeper v.ignored in
      rw (other, e)
        (
          record {
            keeper = v.keeper;
            kept = refl;
            number = v.number;
            within = v.within;
            ignored = v.ignored;
          },
          record {
            same_num = refl;
            same_names = refl;
            same_callbacks = refl;
            same_lock = refl;
            same_open = rw v.kept;
            same_ignored = rw v.kept;
            same_values = λ j n. ground arith;
          },
        )
]

module _ ⦃x : Ixml⦄ where
  send-IsSettled :
      (k : ℕ) (b : Bool) (service xml : Text) (s t : Service)
      → IsSettled k t
      → Frame k s t
      → IsSettled k (send b service xml t) × Frame k s (send b service xml t)
  send-IsSettled k true service xml s t v f = (
    record {
      keeper = v.keeper;
      kept = v.kept;
      number = v.number;
      within = v.within;
      ignored = v.ignored;
    },
    record {
      same_num = f.same_num;
      same_names = f.same_names;
      same_callbacks = f.same_callbacks;
      same_lock = f.same_lock;
      same_open = f.same_open;
      same_ignored = f.same_ignored;
      same_values = f.same_values;
    },
  )
  send-IsSettled k false service xml s t v f = (v, f)

  publish-Settles :
      (k : ℕ) (c : Collector) (xml : Option Text) (s : Service)
      → c.last_change_variable_num ≡ pos k
      → IsSettled k s
      → Settles k s (λ d. publish (change (suc d)) c xml s)
  unfolding publish
  publish-Settles k c none s e v = (s, λ d. refl, v, Frame-refl k s)
  publish-Settles k c (some xml) s e v =
      let t = changed k xml v.keeper s in
      let b = not (text_eq xml (s.values k)) in
      let (settled, framed) = changed-IsSettled k xml s v in
      let (settled', framed') = send-IsSettled k b c.service_id xml s t settled framed in
      (
        send b c.service_id xml t,
        λ d. rw (e, change-Quiet d k (some xml) v.keeper s v.within v.kept (inl v.ignored)),
        settled',
        framed',
      )

  pub notify-Settles :
      (k : ℕ) (c : Collector) (s : Service)
      → s.last_change ≡ some c
      → c.last_change_variable_num ≡ pos k
      → k < s.variable_num
      → testbit c.not_eventable_variables k ≡ true
      → Settles k s (λ d. notify (change (suc d)) c s)
  unfolding notify
  notify-Settles k c s l e w g = elim (Bool-cases (c.open_transactions == 0)) [
    | inl closed ↦
        let r = record c { builder = Builder.reset c.builder } in
        let v : IsSettled k (with_collector s r) = record {
          keeper = r;
          kept = refl;
          number = e;
          within = w;
          ignored = g;
        } in
        let f : Frame k s (with_collector s r) = record {
          same_num = refl;
          same_names = refl;
          same_callbacks = refl;
          same_lock = refl;
          same_open = rw l;
          same_ignored = rw l;
          same_values = λ j n. refl;
        } in
        let (t, runs, settled, framed) =
          publish-Settles k c (to_xml c.builder) (with_collector s r) e v in
        (t, λ d. rw closed (runs d), settled, Frame-trans k s (with_collector s r) t f framed)
    | inr pending ↦ (
      s,
      λ d. rw pending,
      record { keeper = c; kept = l; number = e; within = w; ignored = g },
      Frame-refl k s,
    )
  ]

  -- The collector's own work for a change of a variable that has a name.
  callback-Settles :
      (k : ℕ) (e : Change) (name : Text) (s : Service) (v : IsSettled k s)
      → e.var_name ≡ some name
      → Settles k s (λ d. callback (change (suc d)) v.keeper e s)
  unfolding callback collect
  callback-Settles k e name s v h =
      elim (Bool-cases (testbit v.keeper.not_eventable_variables e.var_num)) [
        | inl skipped ↦ (s, λ d. rw skipped, v, Frame-refl k s)
        | inr taken ↦
            let c = record v.keeper { builder = Builder.add v.keeper.builder name e.new_value } in
            let f : Frame k s (with_collector s c) = record {
              same_num = refl;
              same_names = refl;
              same_callbacks = refl;
              same_lock = refl;
              same_open = rw v.kept;
              same_ignored = rw v.kept;
              same_values = λ j n. refl;
            } in
            let (t, runs, settled, framed) =
              notify-Settles k c (with_collector s c) refl v.number v.within v.ignored in
            (
              t,
              λ d. rw (taken, h) (runs d),
              settled,
              Frame-trans k s (with_collector s c) t f framed,
            )
      ]

  call_back-collector :
      (rec : Changer) (e : Change) (c : Collector) (s : Service)
      → s.last_change ≡ some c
      → call_back rec e collector s ≡ callback rec c e s
  unfolding call_back
  call_back-collector rec e c s h = ground arith

  call_back-Settles :
      (k : ℕ) (e : Change) (name : Text) (l : Listener) (s : Service)
      → IsSettled k s
      → e.var_name ≡ some name
      → Settles k s (λ d. call_back (change (suc d)) e l s)
  unfolding call_back
  call_back-Settles k e name collector s v h =
      let (t, runs, settled, framed) = callback-Settles k e name s v h in
      (t, λ d. call_back-collector (change (suc d)) e v.keeper s v.kept ∙ runs d, settled, framed)
  call_back-Settles k e name (external n) s v h = (
    record s { heard = s.heard ++ (n, e) ∷ [] },
    λ d. refl,
    record {
      keeper = v.keeper;
      kept = v.kept;
      number = v.number;
      within = v.within;
      ignored = v.ignored;
    },
    record {
      same_num = refl;
      same_names = refl;
      same_callbacks = refl;
      same_lock = refl;
      same_open = refl;
      same_ignored = refl;
      same_values = λ j n. refl;
    },
  )

  pub call_all-Settles :
      (k : ℕ) (e : Change) (name : Text) (ls : List Listener) (s : Service)
      → IsSettled k s
      → e.var_name ≡ some name
      → Settles k s (λ d. call_all (change (suc d)) e ls s)
  unfolding call_all
  call_all-Settles k e name [] s v h = (s, λ d. refl, v, Frame-refl k s)
  call_all-Settles k e name (l ∷ ls) s v h =
      let (t, runs, settled, framed) = call_back-Settles k e name l s v h in
      let (u, runs', settled', framed') = call_all-Settles k e name ls t settled h in
      (u, λ d. rw (runs d) (runs' d), settled', Frame-trans k s t u framed framed')

  change-in_range :
      (d i : ℕ) (value : Option Text) (s : Service)
      → i < s.variable_num
      → change (suc d) (pos i) value s ≡ change_value (change d) i (or_empty value) s
  unfolding change
  change-in_range d i value s h = rw (lt→ltb i s.variable_num h)

  change_value-same :
      (rec : Changer) (i : ℕ) (value : Text) (s : Service)
      → text_eq value (s.values i) ≡ true
      → change_value rec i value s ≡ done (not (text_eq value (s.values i)), s)
  unfolding change_value
  change_value-same rec i value s same = rw same

  change_value-other :
      (rec : Changer) (i : ℕ) (value : Text) (s t : Service)
      → text_eq value (s.values i) ≡ false
      → call_all rec (event i value s) s.callbacks (record s { values = update s.values i value })
        ≡ done t
      → change_value rec i value s ≡ done (not (text_eq value (s.values i)), t)
  unfolding change_value
  change_value-other rec i value s t other runs = rw (other, runs)

  Frame-same :
      (k i : ℕ) (value : Text) (s : Service)
      → text_eq value (s.values i) ≡ true
      → Frame k (record s { values = update s.values i value }) s
  Frame-same k i value s same = record {
    same_num = refl;
    same_names = refl;
    same_callbacks = refl;
    same_lock = refl;
    same_open = refl;
    same_ignored = refl;
    same_values = λ j n. ground (arith, text_eq_iff value (s.values i));
  }

  pub IsSettled-values :
      (k : ℕ) (s : Service) (f : ℕ → Text) → IsSettled k s → IsSettled k (record s { values = f })
  IsSettled-values k s f v = record {
    keeper = v.keeper;
    kept = v.kept;
    number = v.number;
    within = v.within;
    ignored = v.ignored;
  }

  -- VariableContainer_change of a variable in use comes back, with the same result at every depth
  -- from 2 on. It reports whether the value was another one, stores it, and leaves all variables but
  -- that one and LastChange, the names, the callbacks, the mutex and the open transactions alone.
  pub change-settles :
      (k i : ℕ) (value : Option Text) (name : Text) (s : Service)
      → IsSettled k s
      → i < s.variable_num
      → s.variable_names i ≡ some name
      → (t : Service) × ((d : ℕ)
          → change (suc (suc d)) (pos i) value s
            ≡ done (not (text_eq (or_empty value) (s.values i)), t))
        × IsSettled k t
        × Frame k (record s { values = update s.values i (or_empty value) }) t
  change-settles k i value name s v h named =
      elim (Bool-cases (text_eq (or_empty value) (s.values i))) [
        | inl same ↦ (
          s,
          λ d.
              change-in_range (suc d) i value s h
              ∙ change_value-same (change (suc d)) i (or_empty value) s same,
          v,
          Frame-same k i (or_empty value) s same,
        )
        | inr other ↦
            let s' = record s { values = update s.values i (or_empty value) } in
            let (t, runs, settled, framed) =
              call_all-Settles k (event i (or_empty value) s) name s.callbacks s'
                (IsSettled-values k s s'.values v) named in
            (
              t,
              λ d.
                  change-in_range (suc d) i value s h
                  ∙ change_value-other (change (suc d)) i (or_empty value) s t other (runs d),
              settled,
              framed,
            )
      ]
