-- ===== src/Scpd/Tables/Transport.antt =====
-- The tables of src/upnp_transport.c that the SCPD document of the AVTransport service is generated from. Each list is in the
-- order of its enumeration.
use gmrender_resurrect_silan.Base.{ℕ, true, false, Option, none, some, List, [], ◌∷◌, Text, codes}
use gmrender_resurrect_silan.Base.Int.{pos}
use gmrender_resurrect_silan.Base.Tables.{entry}
use gmrender_resurrect_silan.Scpd.{
  Argument, dir_in, dir_out, VarMeta, ParamRange, Described, type_string, type_i4, type_ui4,
  type_unknown,
}
use gmrender_resurrect_silan.Scpd.Tables.{argument, meta, meta_at}
use gmrender_resurrect_silan.Transport.Table.{transport_variable_names}

abbrev pub transport_states : List Text
transport_states =
    codes "STOPPED"
    ∷ codes "PLAYING"
    ∷ codes "TRANSITIONING"
    ∷ codes "PAUSED_PLAYBACK"
    ∷ codes "PAUSED_RECORDING"
    ∷ codes "RECORDING"
    ∷ codes "NO_MEDIA_PRESENT"
    ∷ []

abbrev pub transport_stati : List Text
transport_stati = codes "OK" ∷ codes "ERROR_OCCURRED" ∷ codes " vendor-defined " ∷ []

abbrev pub media : List Text
media =
    codes "UNKNOWN"
    ∷ codes "DV"
    ∷ codes "MINI-DV"
    ∷ codes "VHS"
    ∷ codes "W-VHS"
    ∷ codes "S-VHS"
    ∷ codes "D-VHS"
    ∷ codes "VHSC"
    ∷ codes "VIDEO8"
    ∷ codes "HI8"
    ∷ codes "CD-ROM"
    ∷ codes "CD-DA"
    ∷ codes "CD-R"
    ∷ codes "CD-RW"
    ∷ codes "VIDEO-CD"
    ∷ codes "SACD"
    ∷ codes "MD-AUDIO"
    ∷ codes "MD-PICTURE"
    ∷ codes "DVD-ROM"
    ∷ codes "DVD-VIDEO"
    ∷ codes "DVD-R"
    ∷ codes "DVD+RW"
    ∷ codes "DVD-RW"
    ∷ codes "DVD-RAM"
    ∷ codes "DVD-AUDIO"
    ∷ codes "DAT"
    ∷ codes "LD"
    ∷ codes "HDD"
    ∷ codes "MICRO-MV"
    ∷ codes "NETWORK"
    ∷ codes "NONE"
    ∷ codes "NOT_IMPLEMENTED"
    ∷ codes " vendor-defined "
    ∷ []

abbrev pub playmodi : List Text
playmodi = codes "NORMAL" ∷ codes "REPEAT_ALL" ∷ codes "INTRO" ∷ []

abbrev pub playspeeds : List Text
playspeeds = codes "1" ∷ codes " vendor-defined " ∷ []

abbrev pub rec_write_stati : List Text
rec_write_stati =
    codes "WRITABLE"
    ∷ codes "PROTECTED"
    ∷ codes "NOT_WRITABLE"
    ∷ codes "UNKNOWN"
    ∷ codes "NOT_IMPLEMENTED"
    ∷ []

abbrev pub rec_quality_modi : List Text
rec_quality_modi =
    codes "0:EP"
    ∷ codes "1:LP"
    ∷ codes "2:SP"
    ∷ codes "0:BASIC"
    ∷ codes "1:MEDIUM"
    ∷ codes "2:HIGH"
    ∷ codes "NOT_IMPLEMENTED"
    ∷ codes " vendor-defined "
    ∷ []

abbrev pub aat_seekmodi : List Text
aat_seekmodi =
    codes "ABS_TIME"
    ∷ codes "REL_TIME"
    ∷ codes "ABS_COUNT"
    ∷ codes "REL_COUNT"
    ∷ codes "TRACK_NR"
    ∷ codes "CHANNEL_FREQ"
    ∷ codes "TAPE-INDEX"
    ∷ codes "FRAME"
    ∷ []

abbrev pub track_nr_range : ParamRange
track_nr_range = record { minimum = pos 0; maximum = pos 4294967295; step = pos 0 }

abbrev pub track_range : ParamRange
track_range = record { minimum = pos 0; maximum = pos 4294967295; step = pos 1 }

abbrev pub transport_var_meta : List VarMeta
transport_var_meta =
    meta false type_string (some transport_stati) none none
    ∷ meta false type_string none none none
    ∷ meta false type_string none none none
    ∷ meta false type_string none none none
    ∷ meta false type_i4 none none none
    ∷ meta false type_ui4 none none none
    ∷ meta false type_string none none none
    ∷ meta false type_string (some media) none none
    ∷ meta false type_string none none none
    ∷ meta false type_string none none none
    ∷ meta false type_string (some playmodi) none (some (codes "NORMAL"))
    ∷ meta false type_string (some playspeeds) none none
    ∷ meta false type_string none none none
    ∷ meta false type_string none none none
    ∷ meta false type_ui4 none (some track_range) none
    ∷ meta false type_string none none none
    ∷ meta false type_string none none none
    ∷ meta false type_ui4 none (some track_nr_range) none
    ∷ meta false type_string none none none
    ∷ meta false type_i4 none none none
    ∷ meta false type_string (some rec_quality_modi) none none
    ∷ meta false type_string none none none
    ∷ meta false type_string (some aat_seekmodi) none none
    ∷ meta false type_string none none none
    ∷ meta false type_string (some media) none none
    ∷ meta false type_string (some rec_write_stati) none none
    ∷ meta true type_string none none none
    ∷ meta false type_string none none none
    ∷ meta false type_string (some transport_states) none none
    ∷ meta false type_string none none none
    ∷ meta false type_unknown none none none
    ∷ []

abbrev pub arguments_setavtransporturi : List Argument
arguments_setavtransporturi =
    argument "InstanceID" dir_in 5
    ∷ argument "CurrentURI" dir_in 18
    ∷ argument "CurrentURIMetaData" dir_in 23
    ∷ []

abbrev pub arguments_getdevicecapabilities : List Argument
arguments_getdevicecapabilities =
    argument "InstanceID" dir_in 5
    ∷ argument "PlayMedia" dir_out 12
    ∷ argument "RecMedia" dir_out 9
    ∷ argument "RecQualityModes" dir_out 29
    ∷ []

abbrev pub arguments_getmediainfo : List Argument
arguments_getmediainfo =
    argument "InstanceID" dir_in 5
    ∷ argument "NrTracks" dir_out 17
    ∷ argument "MediaDuration" dir_out 21
    ∷ argument "CurrentURI" dir_out 18
    ∷ argument "CurrentURIMetaData" dir_out 23
    ∷ argument "NextURI" dir_out 1
    ∷ argument "NextURIMetaData" dir_out 2
    ∷ argument "PlayMedium" dir_out 7
    ∷ argument "RecordMedium" dir_out 24
    ∷ argument "WriteStatus" dir_out 25
    ∷ []

abbrev pub arguments_setnextavtransporturi : List Argument
arguments_setnextavtransporturi =
    argument "InstanceID" dir_in 5
    ∷ argument "NextURI" dir_in 1
    ∷ argument "NextURIMetaData" dir_in 2
    ∷ []

abbrev pub arguments_gettransportinfo : List Argument
arguments_gettransportinfo =
    argument "InstanceID" dir_in 5
    ∷ argument "CurrentTransportState" dir_out 28
    ∷ argument "CurrentTransportStatus" dir_out 0
    ∷ argument "CurrentSpeed" dir_out 11
    ∷ []

abbrev pub arguments_getpositioninfo : List Argument
arguments_getpositioninfo =
    argument "InstanceID" dir_in 5
    ∷ argument "Track" dir_out 14
    ∷ argument "TrackDuration" dir_out 27
    ∷ argument "TrackMetaData" dir_out 3
    ∷ argument "TrackURI" dir_out 15
    ∷ argument "RelTime" dir_out 8
    ∷ argument "AbsTime" dir_out 13
    ∷ argument "RelCount" dir_out 4
    ∷ argument "AbsCount" dir_out 19
    ∷ []

abbrev pub arguments_gettransportsettings : List Argument
arguments_gettransportsettings =
    argument "InstanceID" dir_in 5
    ∷ argument "PlayMode" dir_out 10
    ∷ argument "RecQualityMode" dir_out 20
    ∷ []

abbrev pub arguments_stop : List Argument
arguments_stop = argument "InstanceID" dir_in 5 ∷ []

abbrev pub arguments_play : List Argument
arguments_play = argument "InstanceID" dir_in 5 ∷ argument "Speed" dir_in 11 ∷ []

abbrev pub arguments_pause : List Argument
arguments_pause = argument "InstanceID" dir_in 5 ∷ []

abbrev pub arguments_seek : List Argument
arguments_seek =
    argument "InstanceID" dir_in 5 ∷ argument "Unit" dir_in 22 ∷ argument "Target" dir_in 6 ∷ []

abbrev pub arguments_getcurrenttransportactions : List Argument
arguments_getcurrenttransportactions =
    argument "InstanceID" dir_in 5 ∷ argument "Actions" dir_out 16 ∷ []

abbrev pub argument_list : ℕ → Option (List Argument)
argument_list = entry (
    some arguments_getcurrenttransportactions
    ∷ some arguments_getdevicecapabilities
    ∷ some arguments_getmediainfo
    ∷ some arguments_getpositioninfo
    ∷ some arguments_gettransportinfo
    ∷ some arguments_gettransportsettings
    ∷ some arguments_pause
    ∷ some arguments_play
    ∷ some arguments_seek
    ∷ some arguments_setavtransporturi
    ∷ some arguments_stop
    ∷ some arguments_setnextavtransporturi
    ∷ none
    ∷ [])

abbrev pub action_names : ℕ → Option Text
action_names = entry (
    some (codes "GetCurrentTransportActions")
    ∷ some (codes "GetDeviceCapabilities")
    ∷ some (codes "GetMediaInfo")
    ∷ some (codes "GetPositionInfo")
    ∷ some (codes "GetTransportInfo")
    ∷ some (codes "GetTransportSettings")
    ∷ some (codes "Pause")
    ∷ some (codes "Play")
    ∷ some (codes "Seek")
    ∷ some (codes "SetAVTransportURI")
    ∷ some (codes "Stop")
    ∷ some (codes "SetNextAVTransportURI")
    ∷ none
    ∷ [])

abbrev pub transport_service : Described
transport_service = record {
  action_names = action_names;
  action_arguments = argument_list;
  described_names = transport_variable_names;
  variable_meta = meta_at transport_var_meta;
  described_count = 30;
  command_count = 12;
}
