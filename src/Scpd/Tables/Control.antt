-- ===== src/Scpd/Tables/Control.antt =====
-- The tables of src/upnp_control.c that the SCPD document of the RenderingControl service is generated from. Each list is in the
-- order of its enumeration.
use gmrender_resurrect_silan.Base.{ℕ, true, false, Option, none, some, List, [], ◌∷◌, Text, codes}
use gmrender_resurrect_silan.Base.Int.{pos}
use gmrender_resurrect_silan.Base.Tables.{entry}
use gmrender_resurrect_silan.Scpd.{
  Argument, dir_in, dir_out, VarMeta, ParamRange, Described, type_string, type_boolean, type_ui2,
  type_ui4, type_unknown,
}
use gmrender_resurrect_silan.Scpd.Tables.{argument, meta, meta_at}
use gmrender_resurrect_silan.Control.{control_variable_names}

abbrev pub aat_channels : List Text
aat_channels =
    codes "Master"
    ∷ codes "LF"
    ∷ codes "RF"
    ∷ codes "CF"
    ∷ codes "LFE"
    ∷ codes "LS"
    ∷ codes "RS"
    ∷ []

abbrev pub aat_presetnames : List Text
aat_presetnames = codes "FactoryDefaults" ∷ []

abbrev pub volume_range : ParamRange
volume_range = record { minimum = pos 0; maximum = pos 100; step = pos 1 }

abbrev pub control_var_meta : List VarMeta
control_var_meta =
    meta true type_string none none none
    ∷ meta false type_string none none none
    ∷ meta false type_string (some aat_channels) none none
    ∷ meta false type_ui4 none none none
    ∷ meta false type_string (some aat_presetnames) none none
    ∷ meta false type_boolean none none none
    ∷ meta false type_ui2 none (some volume_range) none
    ∷ meta false type_unknown none none none
    ∷ []

abbrev pub arguments_list_presets : List Argument
arguments_list_presets =
    argument "InstanceID" dir_in 3 ∷ argument "CurrentPresetNameList" dir_out 1 ∷ []

abbrev pub arguments_get_mute : List Argument
arguments_get_mute =
    argument "InstanceID" dir_in 3
    ∷ argument "Channel" dir_in 2
    ∷ argument "CurrentMute" dir_out 5
    ∷ []

abbrev pub arguments_set_mute : List Argument
arguments_set_mute =
    argument "InstanceID" dir_in 3
    ∷ argument "Channel" dir_in 2
    ∷ argument "DesiredMute" dir_in 5
    ∷ []

abbrev pub arguments_get_vol : List Argument
arguments_get_vol =
    argument "InstanceID" dir_in 3
    ∷ argument "Channel" dir_in 2
    ∷ argument "CurrentVolume" dir_out 6
    ∷ []

abbrev pub arguments_set_vol : List Argument
arguments_set_vol =
    argument "InstanceID" dir_in 3
    ∷ argument "Channel" dir_in 2
    ∷ argument "DesiredVolume" dir_in 6
    ∷ []

abbrev pub argument_list : ℕ → Option (List Argument)
argument_list = entry (
    some arguments_list_presets
    ∷ some arguments_get_mute
    ∷ some arguments_set_mute
    ∷ some arguments_get_vol
    ∷ some arguments_set_vol
    ∷ none
    ∷ [])

abbrev pub action_names : ℕ → Option Text
action_names = entry (
    some (codes "ListPresets")
    ∷ some (codes "GetMute")
    ∷ some (codes "SetMute")
    ∷ some (codes "GetVolume")
    ∷ some (codes "SetVolume")
    ∷ none
    ∷ [])

abbrev pub control_service : Described
control_service = record {
  action_names = action_names;
  action_arguments = argument_list;
  described_names = control_variable_names;
  variable_meta = meta_at control_var_meta;
  described_count = 7;
  command_count = 5;
}
