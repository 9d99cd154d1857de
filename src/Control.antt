-- ===== src/Control.antt =====
-- src/upnp_control.c: the RenderingControl service.
pub mod Refine
use gmrender_resurrect_silan.Base.{ℕ, Option, none, some, List, [], ◌∷◌, Text, codes, if◌then◌else◌}
use gmrender_resurrect_silan.Base.Int.{ℤ, pos, minus_one, is_zero, ltb_ℤ}
use gmrender_resurrect_silan.Base.Tables.{entry}
use gmrender_resurrect_silan.Base.Outcome.{Outcome, done, fault, assertion, ◌>>=◌}
use gmrender_resurrect_silan.Xml.{Ixml}
use gmrender_resurrect_silan.Decimal.{print_int, atoi}
use gmrender_resurrect_silan.Action.{Upnp, ActionEvent, get_string, append_variable}
use gmrender_resurrect_silan.Variables.Model.{Service, Collector}
use gmrender_resurrect_silan.Variables.Change.{change_var}
use gmrender_resurrect_silan.Variables.Collector
use gmrender_resurrect_silan.Output.{
  Output, output_get_volume, output_set_volume, output_get_mute, output_set_mute,
}

-- control_variable_t, the members that the code names
abbrev pub var_preset_name_list : ℕ
var_preset_name_list = 1

abbrev pub var_mute : ℕ
var_mute = 5

abbrev pub var_volume : ℕ
var_volume = 6

-- control_variable_names
unfoldable pub control_variable_names : ℕ → Option Text
control_variable_names = entry (
    some (codes "LastChange")
    ∷ some (codes "PresetNameList")
    ∷ some (codes "A_ARG_TYPE_Channel")
    ∷ some (codes "A_ARG_TYPE_InstanceID")
    ∷ some (codes "A_ARG_TYPE_PresetName")
    ∷ some (codes "Mute")
    ∷ some (codes "Volume")
    ∷ none
    ∷ [])

-- control_default_values
unfoldable pub control_default_values : ℕ → Option Text
control_default_values = entry (
    some (codes "<Event xmlns = \"urn:schemas-upnp-org:metadata-1-0/RCS/\"/>")
    ∷ some []
    ∷ some []
    ∷ some (codes "0")
    ∷ some []
    ∷ some (codes "0")
    ∷ some (codes "0")
    ∷ none
    ∷ [])

-- The part of the program that the service's functions act on.
pub record Control (S : Type 0) : Type 0 where
  pub service : Service
  pub output : Output S

-- `volume_range`, with its bounds applied: first the lower one, then the upper one.
unfoldable pub clamp : ℤ → ℤ
clamp value =
    let raised = if ltb_ℤ value (pos 0) then pos 0 else value in
    if ltb_ℤ (pos 100) raised then pos 100 else raised

-- `value ? "1" : "0"`
abbrev pub mute_text : ℤ → Text
mute_text value = if is_zero value then codes "0" else codes "1"

-- upnp_control_get_service, on its first call
unfoldable pub get_service : Outcome Service
get_service = Collector.new_container 8 control_variable_names control_default_values

abbrev pub ignore_arguments : Service → Service
ignore_arguments s = Collector.ignore 4 (Collector.ignore 3 (Collector.ignore 2 s))

module _ ⦃x : Ixml⦄ where
  -- The collector of upnp_control_init, behind its assertion that there is none.
  unfoldable pub init_collector : Option Collector → Service → Outcome Service
  init_collector (some c) s = fault assertion
  init_collector none s = do
    s ←
        Collector.new_collector (some (codes "urn:schemas-upnp-org:metadata-1-0/RCS/"))
          (codes "urn:upnp-org:serviceId:RenderingControl") s
    done (ignore_arguments s)

module _ {S : Type 0} ⦃x : Ixml⦄ where
  -- upnp_control_set_mute
  unfoldable pub upnp_control_set_mute : ℤ → Control S → Outcome (ℤ × Control S)
  upnp_control_set_mute value c = do
    s ← Collector.service_lock c.service
    (changed, s) ← change_var (pos var_mute) (some (mute_text value)) s
    let (rc, output) = output_set_mute value c.output
    s ← Collector.service_unlock s
    done (rc, record { service = s; output = output })

  -- upnp_control_set_volume
  unfoldable pub upnp_control_set_volume : ℤ → Control S → Outcome (ℤ × Control S)
  upnp_control_set_volume value c = do
    s ← Collector.service_lock c.service
    let value = clamp value
    (changed, s) ← change_var (pos var_volume) (some (print_int value)) s
    let (rc, output) = output_set_volume value c.output
    s ← Collector.service_unlock s
    done (rc, record { service = s; output = output })

  -- A variable that takes over what the output reports, if it reports anything.
  unfoldable pub take_over : ℕ → (ℤ × ℤ) × Output S → Service → Outcome (Control S)
  take_over varnum ((rc, value), output) s =
      if is_zero rc
      then (do
        (changed, s) ← change_var (pos varnum) (some (print_int value)) s
        done (record { service = s; output = output }))
      else done (record { service = s; output = output })

  -- upnp_control_init, on the container that get_service made
  unfoldable pub init : Control S → Outcome (Control S)
  unfolding take_over init_collector
  init c = do
    c ← take_over var_volume (output_get_volume (pos 0) c.output) c.service
    c ← take_over var_mute (output_get_mute (pos 0) c.output) c.service
    s ← init_collector c.service.last_change c.service
    done (record c { service = s })

module _ ⦃u : Upnp⦄ where
  abbrev pub obtained :
      Option Text → ℕ → Text → Service → ActionEvent → Outcome (ℤ × Service × ActionEvent)
  obtained none varnum paramname s ev = done (minus_one, s, ev)
  obtained (some instance_id) varnum paramname s ev = do
    (s, ev) ← append_variable (pos varnum) paramname s ev
    done (pos 0, s, ev)

  -- cmd_obtain_variable
  unfoldable pub cmd_obtain_variable :
      ℕ → Text → Service → ActionEvent → Outcome (ℤ × Service × ActionEvent)
  cmd_obtain_variable varnum paramname s ev =
      let (instance_id, ev) = get_string (codes "InstanceID") ev in
      obtained instance_id varnum paramname s ev

  abbrev pub list_presets : Service → ActionEvent → Outcome (ℤ × Service × ActionEvent)
  list_presets = cmd_obtain_variable var_preset_name_list (codes "CurrentPresetNameList")

  abbrev pub get_mute : Service → ActionEvent → Outcome (ℤ × Service × ActionEvent)
  get_mute = cmd_obtain_variable var_mute (codes "CurrentMute")

  abbrev pub get_volume : Service → ActionEvent → Outcome (ℤ × Service × ActionEvent)
  get_volume = cmd_obtain_variable var_volume (codes "CurrentVolume")

module _ {S : Type 0} ⦃x : Ixml⦄ ⦃u : Upnp⦄ where
  -- An action with the value that it is given, if it is given one.
  abbrev pub set_to :
      (ℤ → Control S → Outcome (ℤ × Control S)) → Option Text → Control S → Outcome (ℤ × Control S)
  set_to set none c = done (minus_one, c)
  set_to set (some value) c = set (atoi value) c

  abbrev pub with_event :
      ActionEvent → Outcome (ℤ × Control S) → Outcome (ℤ × Control S × ActionEvent)
  with_event ev m = m >>= λ r. done (r.0, r.1, ev)

  unfoldable pub set_mute : Control S → ActionEvent → Outcome (ℤ × Control S × ActionEvent)
  unfolding upnp_control_set_mute
  set_mute c ev =
      let (value, ev) = get_string (codes "DesiredMute") ev in
      with_event ev (set_to upnp_control_set_mute value c)

  unfoldable pub set_volume : Control S → ActionEvent → Outcome (ℤ × Control S × ActionEvent)
  unfolding upnp_control_set_volume
  set_volume c ev =
      let (value, ev) = get_string (codes "DesiredVolume") ev in
      with_event ev (set_to upnp_control_set_volume value c)
