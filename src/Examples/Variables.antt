-- ===== src/Examples/Variables.antt =====
-- A RenderingControl service at rest, its volume set and its variables written in a transaction.
use gmrender_resurrect_silan.Base.{
  ℕ, suc, ◌≤◌, ◌≡◌, refl, true, false, not, some, List, [], ◌∷◌, Text, codes, or_empty, text_eq,
  arith,
}
use gmrender_resurrect_silan.Base.Int.{ℤ, pos}
use gmrender_resurrect_silan.Base.Outcome.{done, ◌>>=◌}
use gmrender_resurrect_silan.Decimal.{atoi}
use gmrender_resurrect_silan.Variables.Mask.{testbit, set_bit, testbit-set_bit}
use gmrender_resurrect_silan.Variables.Builder
use gmrender_resurrect_silan.Variables.Model.{Service, Collector, collector, update}
use gmrender_resurrect_silan.Variables.Change.{change}
use gmrender_resurrect_silan.Variables.Collector.{service_lock, service_unlock}
use gmrender_resurrect_silan.Variables.Frame.{IsSettled, Frame}
use gmrender_resurrect_silan.Variables.Nesting.{change-settles}
use gmrender_resurrect_silan.Variables.View.{Shows}
use gmrender_resurrect_silan.Variables.Transaction.{committed, transaction-committed}
use gmrender_resurrect_silan.Variables.Writes.{AllNamed, change_each}
use gmrender_resurrect_silan.Output.{output_set_volume, output_set_mute}
use gmrender_resurrect_silan.Control.{
  Control, control_variable_names, control_default_values, upnp_control_set_mute,
  upnp_control_set_volume,
}
use gmrender_resurrect_silan.Control.Refine.{nearest, set_volume-stores, set_mute-stores}
use gmrender_resurrect_silan.Examples.{example_ixml, example_output}

abbrev pub example_collector : Collector
example_collector = record {
  last_change_variable_num = pos 0;
  not_eventable_variables = set_bit 0 0;
  service_id = codes "urn:upnp-org:serviceId:RenderingControl";
  open_transactions = 0;
  builder = Builder.new_builder (some (codes "urn:schemas-upnp-org:metadata-1-0/RCS/"));
}

abbrev pub example_service : Service
example_service = record {
  variable_num = 8;
  variable_names = control_variable_names;
  values = λ i. or_empty (control_default_values i);
  callbacks = collector ∷ [];
  last_change = some example_collector;
  locked = false;
  sent = [];
  heard = [];
}

last_change-ignored : testbit (set_bit 0 0) 0 ≡ true
last_change-ignored = ground (arith, testbit-set_bit 0 0 0)

example_service-IsSettled : IsSettled 0 example_service
example_service-IsSettled = record {
  keeper = example_collector;
  kept = refl;
  number = refl;
  within = omega arith;
  ignored = last_change-ignored;
}

pub example_service-Shows :
    Shows 0 8 control_variable_names false 0 example_service
      (λ i. or_empty (control_default_values i))
example_service-Shows = record {
  settled = example_service-IsSettled;
  shown_num = refl;
  shown_names = refl;
  shown_lock = refl;
  shown_open = refl;
  shown_values = λ j n. refl;
}

abbrev example_control : Control ℤ
example_control = record { service = example_service; output = example_output }

set_volume-stores_example :
    (text : Text) × (t : Service) × (upnp_control_set_volume (pos 130) example_control
      ≡ done (
        (output_set_volume (pos (nearest (pos 130))) example_output).0,
        record {
          service = t;
          output = (output_set_volume (pos (nearest (pos 130))) example_output).1;
        },
      ))
    × Shows 0 8 control_variable_names false 0 t
        (update (λ i. or_empty (control_default_values i)) 6 text)
    × (atoi text ≡ pos (nearest (pos 130)))
    × (nearest (pos 130) ≤ 100)
set_volume-stores_example =
    set_volume-stores (pos 130) example_control 0 (λ i. or_empty (control_default_values i))
      example_service-Shows

set_mute-stores_example :
    (t : Service) × (upnp_control_set_mute (pos 1) example_control
      ≡ done (
        (output_set_mute (pos 1) example_output).0,
        record { service = t; output = (output_set_mute (pos 1) example_output).1 },
      ))
    × Shows 0 8 control_variable_names false 0 t
        (update (λ i. or_empty (control_default_values i)) 5 (codes "1"))
set_mute-stores_example =
    set_mute-stores (pos 1) example_control 0 (λ i. or_empty (control_default_values i))
      example_service-Shows

pub volume_name : control_variable_names 6 ≡ some (codes "Volume")
unfolding control_variable_names
volume_name = refl

change-settles_example :
    (t : Service) × ((d : ℕ)
      → change (suc (suc d)) (pos 6) (some (codes "30")) example_service
        ≡ done (not (text_eq (codes "30") (example_service.values 6)), t))
    × IsSettled 0 t
    × Frame 0 (record example_service { values = update example_service.values 6 (codes "30") }) t
change-settles_example =
    change-settles 0 6 (some (codes "30")) (codes "Volume") example_service
      example_service-IsSettled (omega arith) volume_name

abbrev example_writes : List (ℕ × Text)
example_writes = (6, codes "30") ∷ (5, codes "1") ∷ (6, codes "40") ∷ []

example_writes-AllNamed : AllNamed control_variable_names 8 example_writes
unfolding control_variable_names
example_writes-AllNamed = (
  omega arith,
  (codes "Volume", refl),
  (omega arith, (codes "Mute", refl), (omega arith, (codes "Volume", refl), tt)),
)

transaction-committed_example :
    (do s₁ ← service_lock example_service; s₂ ← change_each example_writes s₁; service_unlock s₂)
    ≡ done (committed 0 example_writes example_collector example_service)
transaction-committed_example =
    transaction-committed 0 example_writes example_collector example_service refl refl (omega arith)
      last_change-ignored refl refl refl example_writes-AllNamed
