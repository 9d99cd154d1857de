-- ===== src/Connmgr/Service.antt =====
-- The ConnectionManager service of src/upnp_connmgr.c: its variables, its start and its actions.
use gmrender_resurrect_silan.Base.{
  ℕ, ◌+◌, Option, none, some, List, [], ◌∷◌, ◌++◌, Text, codes, strlen, leb, if◌then◌else◌,
}
use gmrender_resurrect_silan.Base.Int.{ℤ, pos, minus_one}
use gmrender_resurrect_silan.Base.Tables.{entry}
use gmrender_resurrect_silan.Base.Outcome.{Outcome, done, fault, overrun, ◌>>=◌}
use gmrender_resurrect_silan.Xml.{Ixml}
use gmrender_resurrect_silan.Action.{Upnp, ActionEvent, get_string, add_response, append_variable}
use gmrender_resurrect_silan.Variables.Model.{Service}
use gmrender_resurrect_silan.Variables.Change.{change_var}
use gmrender_resurrect_silan.Variables.Collector

-- connmgr_variable
abbrev pub var_conn_mgr : ℕ
var_conn_mgr = 0

abbrev pub var_sink_proto_info : ℕ
var_sink_proto_info = 1

abbrev pub var_conn_status : ℕ
var_conn_status = 2

abbrev pub var_avt_id : ℕ
var_avt_id = 3

abbrev pub var_dir : ℕ
var_dir = 4

abbrev pub var_rcs_id : ℕ
var_rcs_id = 5

abbrev pub var_proto_info : ℕ
var_proto_info = 6

abbrev pub var_conn_id : ℕ
var_conn_id = 7

abbrev pub var_src_proto_info : ℕ
var_src_proto_info = 8

abbrev pub var_cur_conn_ids : ℕ
var_cur_conn_ids = 9

abbrev pub var_count : ℕ
var_count = 11

-- connmgr_variable_names
unfoldable pub connmgr_variable_names : ℕ → Option Text
connmgr_variable_names = entry (
    some (codes "A_ARG_TYPE_ConnectionManager")
    ∷ some (codes "SinkProtocolInfo")
    ∷ some (codes "A_ARG_TYPE_ConnectionStatus")
    ∷ some (codes "A_ARG_TYPE_AVTransportID")
    ∷ some (codes "A_ARG_TYPE_Direction")
    ∷ some (codes "A_ARG_TYPE_RcsID")
    ∷ some (codes "A_ARG_TYPE_ProtocolInfo")
    ∷ some (codes "A_ARG_TYPE_ConnectionID")
    ∷ some (codes "SourceProtocolInfo")
    ∷ some (codes "CurrentConnectionIDs")
    ∷ none
    ∷ [])

-- connmgr_default_values
unfoldable pub connmgr_default_values : ℕ → Option Text
connmgr_default_values = entry (
    some (codes "/")
    ∷ some (codes "http-get:*:audio/mpeg:*")
    ∷ some (codes "Unknown")
    ∷ some (codes "0")
    ∷ some (codes "Input")
    ∷ some (codes "0")
    ∷ some (codes ":::")
    ∷ some (codes "-1")
    ∷ some []
    ∷ some (codes "0")
    ∷ none
    ∷ [])

-- upnp_connmgr_get_service, on its first call
unfoldable pub get_service : Outcome Service
get_service = Collector.new_container var_count connmgr_variable_names connmgr_default_values

-- strncpy of a whole text at `p`, into a buffer of `bufsize` bytes, with what is in front of `p`.
unfoldable pub put : ℕ → Text → Text → Outcome Text
put bufsize text buf =
    if leb (strlen buf + strlen text) bufsize then done (buf ++ text) else fault overrun

-- The loop of connmgr_init: the size of the buffer and what is in front of `p`.
unfoldable pub fill : List Text → ℕ → Text → Outcome (ℕ × Text)
unfolding put
fill [] bufsize buf = done (bufsize, buf)
fill (mime_type ∷ types) bufsize buf = do
  let bufsize = bufsize + (strlen mime_type + 1 + 8 + 3 + 2)
  buf ← put bufsize (codes "http-get:*:") buf
  buf ← put bufsize mime_type buf
  buf ← put bufsize (codes ":*,") buf
  fill types bufsize buf

abbrev pub without_last : Text → Text
without_last [] = []
without_last (a ∷ []) = []
without_last (a ∷ b ∷ t) = a ∷ without_last (b ∷ t)

-- The NUL over the last comma, or at `p` if nothing was put in.
unfoldable pub terminated : ℕ × Text → Outcome Text
terminated (bufsize, buf) =
    if leb (strlen (without_last buf) + 1) bufsize then done (without_last buf) else fault overrun

-- The value that connmgr_init gives to SinkProtocolInfo.
unfoldable pub sink_protocol_info : List Text → Outcome Text
unfolding fill terminated
sink_protocol_info types = fill types 0 [] >>= terminated

module _ ⦃x : Ixml⦄ where
  -- connmgr_init
  unfoldable pub connmgr_init : List Text → Service → Outcome (ℤ × Service)
  unfolding sink_protocol_info
  connmgr_init types s = do
    buf ← sink_protocol_info types
    (changed, s) ← change_var (pos var_sink_proto_info) (some buf) s
    done (pos 0, s)

module _ ⦃u : Upnp⦄ where
  -- get_protocol_info
  unfoldable pub get_protocol_info : Service → ActionEvent → Outcome (ℤ × Service × ActionEvent)
  get_protocol_info s ev = do
    (s, ev) ← append_variable (pos var_src_proto_info) (codes "Source") s ev
    (s, ev) ← append_variable (pos var_sink_proto_info) (codes "Sink") s ev
    done (ev.status, s, ev)

  -- get_current_conn_ids
  unfoldable pub get_current_conn_ids : Service → ActionEvent → Outcome (ℤ × Service × ActionEvent)
  get_current_conn_ids s ev =
      done (minus_one, s, add_response (codes "ConnectionIDs") (codes "0") ev)

  -- prepare_for_connection
  unfoldable pub prepare_for_connection :
      Service → ActionEvent → Outcome (ℤ × Service × ActionEvent)
  prepare_for_connection s ev = do
    (s, ev) ← append_variable (pos var_cur_conn_ids) (codes "ConnectionID") s ev
    (s, ev) ← append_variable (pos var_avt_id) (codes "AVTransportID") s ev
    (s, ev) ← append_variable (pos var_rcs_id) (codes "RcsID") s ev
    done (pos 0, s, ev)

  abbrev pub conn_info : Option Text → Service → ActionEvent → Outcome (ℤ × Service × ActionEvent)
  conn_info none s ev = done (minus_one, s, ev)
  conn_info (some value) s ev = do
    (s, ev) ← append_variable (pos var_rcs_id) (codes "RcsID") s ev
    (s, ev) ← append_variable (pos var_avt_id) (codes "AVTransportID") s ev
    (s, ev) ← append_variable (pos var_proto_info) (codes "ProtocolInfo") s ev
    (s, ev) ← append_variable (pos var_conn_mgr) (codes "PeerConnectionManager") s ev
    (s, ev) ← append_variable (pos var_conn_id) (codes "PeerConnectionID") s ev
    (s, ev) ← append_variable (pos var_dir) (codes "Direction") s ev
    (s, ev) ← append_variable (pos var_conn_status) (codes "Status") s ev
    done (pos 0, s, ev)

  -- get_current_conn_info
  unfoldable pub get_current_conn_info : Service → ActionEvent → Outcome (ℤ × Service × ActionEvent)
  get_current_conn_info s ev =
      let (value, ev) = get_string (codes "ConnectionID") ev in conn_info value s ev

  -- connmgr_actions, which `find_action` searches from its first entry to the one without a name.
  unfoldable pub connmgr_actions :
      List (Text × (Service → ActionEvent → Outcome (ℤ × Service × ActionEvent)))
  unfolding get_protocol_info get_current_conn_ids prepare_for_connection get_current_conn_info
  connmgr_actions =
      (codes "GetCurrentConnectionIDs", get_current_conn_ids)
      ∷ (codes "GetCurrentConnectionInfo", get_current_conn_info)
      ∷ (codes "GetProtocolInfo", get_protocol_info)
      ∷ (codes "PrepareForConnection", prepare_for_connection)
      ∷ []
