-- ===== src/Variables/Quiet.antt =====
-- Calls of listeners that flush nothing: the collector ignores the variable, or a transaction is
-- open. Their effect is written out as a plain function of the state.
use gmrender_resurrect_silan.Base.{
  ℕ, ◌<◌, ◌≡◌, refl, ◌⊎◌, true, some, List, [], ◌∷◌, ◌++◌, Text, or_empty, if◌then◌else◌, arith,
  append-nil, append_assoc, ◌∙◌, ap,
}
use gmrender_resurrect_silan.Base.Outcome.{done}
use gmrender_resurrect_silan.Xml.{Ixml}
use gmrender_resurrect_silan.Variables.Mask.{testbit}
use gmrender_resurrect_silan.Variables.Builder
use gmrender_resurrect_silan.Variables.Model.{
  Service, Collector, Change, Listener, collector, external,
}
use gmrender_resurrect_silan.Variables.Change.{
  Changer, notify, collect, callback, call_back, call_all,
}

-- What the collector has taken down after the call.
unfoldable pub noted : Change → Collector → Collector
noted e c =
    if testbit c.not_eventable_variables e.var_num
    then c
    else record c { builder = Builder.add c.builder (or_empty e.var_name) e.new_value }

-- The collector after all calls.
unfoldable pub noted_all : Change → List Listener → Collector → Collector
noted_all e [] c = c
noted_all e (collector ∷ ls) c = noted_all e ls (noted e c)
noted_all e (external n ∷ ls) c = noted_all e ls c

unfoldable pub heard_all : Change → List Listener → List (ℕ × Change)
heard_all e [] = []
heard_all e (collector ∷ ls) = heard_all e ls
heard_all e (external n ∷ ls) = (n, e) ∷ heard_all e ls

-- The state after all calls.
abbrev pub told_all : Change → List Listener → Collector → Service → Service
told_all e ls c s = record s {
  last_change = some (noted_all e ls c);
  heard = s.heard ++ heard_all e ls;
}

-- Why the collector publishes nothing on a change.
abbrev pub Quiet : Change → Collector → Type 0
Quiet e c =
    (testbit c.not_eventable_variables e.var_num ≡ true)
    ⊎ ((0 < c.open_transactions) × (name : Text) × (e.var_name ≡ some name))

noted-Quiet : (e : Change) (c : Collector) → Quiet e c → Quiet e (noted e c)
unfolding noted
noted-Quiet e c q = ground arith

module _ ⦃x : Ixml⦄ where
  call_back-Quiet :
      (rec : Changer) (e : Change) (c : Collector) (s : Service)
      → Quiet e c
      → s.last_change ≡ some c
      → call_back rec e collector s ≡ done (record s { last_change = some (noted e c) })
  unfolding call_back callback noted collect notify
  call_back-Quiet rec e c s q h = ground arith

  pub call_all-Quiet :
      (rec : Changer) (e : Change) (ls : List Listener) (c : Collector) (s : Service)
      → Quiet e c
      → s.last_change ≡ some c
      → call_all rec e ls s ≡ done (told_all e ls c s)
  unfolding call_all call_back noted_all heard_all
  call_all-Quiet rec e [] c s q h = ground (arith, append-nil s.heard)
  call_all-Quiet rec e (collector ∷ ls) c s q h = rw (call_back-Quiet rec e c s q h) (
      call_all-Quiet rec e ls (noted e c) (record s { last_change = some (noted e c) })
        (noted-Quiet e c q) refl)
  call_all-Quiet rec e (external n ∷ ls) c s q h =
      call_all-Quiet rec e ls c (record s { heard = s.heard ++ (n, e) ∷ [] }) q h
      ∙ ap (λ t. done (record s { last_change = some (noted_all e ls c); heard = t }))
          (append_assoc s.heard ((n, e) ∷ []) (heard_all e ls))
