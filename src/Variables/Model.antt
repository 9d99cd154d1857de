-- ===== src/Variables/Model.antt =====
-- The state of a service's variables: the `struct variable_container` of src/variable-container.c,
-- the collector that listens to it, the service's mutex, and what has left the program.
use gmrender_resurrect_silan.Base.{
  ℕ, Bool, true, false, Option, none, some, List, ◌∷◌, Text, ltb, ◌==◌, if◌then◌else◌,
}
use gmrender_resurrect_silan.Base.Int.{ℤ, pos, negsuc}
use gmrender_resurrect_silan.Base.Outcome.{Outcome, done, fault, deadlock}
use gmrender_resurrect_silan.Variables.Builder.{Builder}

-- A registered callback: the collector's, or another function with its `userdata`.
pub data Listener : Type 0 where
  collector : Listener
  external : ℕ → Listener

-- A call of a `variable_change_listener_t`.
pub record Change : Type 0 where
  pub var_num : ℕ
  pub var_name : Option Text
  pub old_value : Text
  pub new_value : Text

-- A call of `UpnpNotify` for the device.
pub record Notification : Type 0 where
  pub notified_service : Text
  pub variables : List (Text × Text)

-- struct upnp_last_change_collector
pub record Collector : Type 0 where
  pub last_change_variable_num : ℤ
  pub not_eventable_variables : ℕ
  pub service_id : Text
  pub open_transactions : ℕ
  pub builder : Builder

-- `variable_names` and `values` are arrays of `variable_num` entries: every access is guarded by
-- the code's own test or assertion. `last_change` is absent until the collector is made. `sent` and
-- `heard` record, oldest first, the notifications and the calls of other listeners.
pub record Service : Type 0 where
  pub variable_num : ℕ
  pub variable_names : ℕ → Option Text
  pub values : ℕ → Text
  pub callbacks : List Listener
  pub last_change : Option Collector
  pub locked : Bool
  pub sent : List Notification
  pub heard : List (ℕ × Change)

-- A write to an array.
abbrev pub update {ℓ} : {A : Type ℓ} → (ℕ → A) → ℕ → A → ℕ → A
update f i v j = if i == j then v else f j

-- VariableContainer_get: the value, or NULL for a variable that is out of range or not used.
unfoldable pub get : Service → ℤ → Option Text
get s (negsuc n) = none
get s (pos i) =
    if ltb i s.variable_num
    then elim (s.variable_names i) [ none ↦ none | some name ↦ some (s.values i) ]
    else none

-- VariableContainer_register_callback
unfoldable pub register_callback : Listener → Service → Service
register_callback l s = record s { callbacks = l ∷ s.callbacks }

-- ithread_mutex_lock and ithread_mutex_unlock of the service's mutex
unfoldable pub lock : Service → Outcome Service
lock s = if s.locked then fault deadlock else done (record s { locked = true })

unfoldable pub unlock : Service → Service
unlock s = record s { locked = false }

-- UPnPLastChangeCollector_add_ignore, _start and the counting part of _finish change the collector
-- that the service points to.
abbrev pub with_collector : Service → Collector → Service
with_collector s c = record s { last_change = some c }
