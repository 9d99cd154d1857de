-- ===== src/Scpd/Tables/Connmgr.antt =====
-- The tables of src/upnp_connmgr.c that the SCPD document of the ConnectionManager service is generated from. Each list is in the
-- order of its enumeration.
use gmrender_resurrect_silan.Base.{ℕ, true, false, Option, none, some, List, [], ◌∷◌, Text, codes}
use gmrender_resurrect_silan.Base.Tables.{entry}
use gmrender_resurrect_silan.Scpd.{
  Argument, dir_in, dir_out, VarMeta, Described, type_string, type_i4, type_unknown,
}
use gmrender_resurrect_silan.Scpd.Tables.{argument, meta, meta_at}
use gmrender_resurrect_silan.Connmgr.Service.{connmgr_variable_names}

abbrev pub connstatus_values : List Text
connstatus_values =
    codes "OK"
    ∷ codes "ContentFormatMismatch"
    ∷ codes "InsufficientBandwidth"
    ∷ codes "UnreliableChannel"
    ∷ codes "Unknown"
    ∷ []

abbrev pub direction_values : List Text
direction_values = codes "Input" ∷ codes "Output" ∷ []

abbrev pub connmgr_var_meta : List VarMeta
connmgr_var_meta =
    meta false type_string none none none
    ∷ meta true type_string none none none
    ∷ meta false type_string (some connstatus_values) none none
    ∷ meta false type_i4 none none none
    ∷ meta false type_string (some direction_values) none none
    ∷ meta false type_i4 none none none
    ∷ meta false type_string none none none
    ∷ meta false type_i4 none none none
    ∷ meta true type_string none none none
    ∷ meta true type_string none none none
    ∷ meta false type_unknown none none none
    ∷ []

abbrev pub arguments_getprotocolinfo : List Argument
arguments_getprotocolinfo = argument "Source" dir_out 8 ∷ argument "Sink" dir_out 1 ∷ []

abbrev pub arguments_getcurrentconnectionids : List Argument
arguments_getcurrentconnectionids = argument "ConnectionIDs" dir_out 9 ∷ []

abbrev pub arguments_setcurrentconnectioninfo : List Argument
arguments_setcurrentconnectioninfo =
    argument "ConnectionID" dir_in 7
    ∷ argument "RcsID" dir_out 5
    ∷ argument "AVTransportID" dir_out 3
    ∷ argument "ProtocolInfo" dir_out 6
    ∷ argument "PeerConnectionManager" dir_out 0
    ∷ argument "PeerConnectionID" dir_out 7
    ∷ argument "Direction" dir_out 4
    ∷ argument "Status" dir_out 2
    ∷ []

abbrev pub arguments_prepareforconnection : List Argument
arguments_prepareforconnection =
    argument "RemoteProtocolInfo" dir_in 6
    ∷ argument "PeerConnectionManager" dir_in 0
    ∷ argument "PeerConnectionID" dir_in 7
    ∷ argument "Direction" dir_in 4
    ∷ argument "ConnectionID" dir_out 7
    ∷ argument "AVTransportID" dir_out 3
    ∷ argument "RcsID" dir_out 5
    ∷ []

abbrev pub argument_list : ℕ → Option (List Argument)
argument_list = entry (
    some arguments_getcurrentconnectionids
    ∷ some arguments_setcurrentconnectioninfo
    ∷ some arguments_getprotocolinfo
    ∷ some arguments_prepareforconnection
    ∷ none
    ∷ [])

abbrev pub action_names : ℕ → Option Text
action_names = entry (
    some (codes "GetCurrentConnectionIDs")
    ∷ some (codes "GetCurrentConnectionInfo")
    ∷ some (codes "GetProtocolInfo")
    ∷ some (codes "PrepareForConnection")
    ∷ none
    ∷ [])

abbrev pub connmgr_service : Described
connmgr_service = record {
  action_names = action_names;
  action_arguments = argument_list;
  described_names = connmgr_variable_names;
  variable_meta = meta_at connmgr_var_meta;
  described_count = 10;
  command_count = 4;
}
