-- ===== src/Transport/Table.antt =====
-- The variables of src/upnp_transport.c: the enumeration, the names and the initial values.
use gmrender_resurrect_silan.Base.{ℕ, Option, none, some, List, [], ◌∷◌, Text, codes}
use gmrender_resurrect_silan.Base.Tables.{entry}

-- transport_variable_t, the members that the code names
abbrev pub var_next_av_uri : ℕ
var_next_av_uri = 1

abbrev pub var_next_av_uri_meta : ℕ
var_next_av_uri_meta = 2

abbrev pub var_cur_track_meta : ℕ
var_cur_track_meta = 3

abbrev pub var_rel_ctr_pos : ℕ
var_rel_ctr_pos = 4

abbrev pub var_rel_time_pos : ℕ
var_rel_time_pos = 8

abbrev pub var_rec_media : ℕ
var_rec_media = 9

abbrev pub var_play_speed : ℕ
var_play_speed = 11

abbrev pub var_abs_time_pos : ℕ
var_abs_time_pos = 13

abbrev pub var_cur_track : ℕ
var_cur_track = 14

abbrev pub var_cur_track_uri : ℕ
var_cur_track_uri = 15

abbrev pub var_cur_transport_actions : ℕ
var_cur_transport_actions = 16

abbrev pub var_nr_tracks : ℕ
var_nr_tracks = 17

abbrev pub var_av_uri : ℕ
var_av_uri = 18

abbrev pub var_abs_ctr_pos : ℕ
var_abs_ctr_pos = 19

abbrev pub var_cur_media_dur : ℕ
var_cur_media_dur = 21

abbrev pub var_av_uri_meta : ℕ
var_av_uri_meta = 23

abbrev pub var_rec_medium : ℕ
var_rec_medium = 24

abbrev pub var_rec_medium_wr_status : ℕ
var_rec_medium_wr_status = 25

abbrev pub var_last_change : ℕ
var_last_change = 26

abbrev pub var_cur_track_dur : ℕ
var_cur_track_dur = 27

abbrev pub var_transport_state : ℕ
var_transport_state = 28

abbrev pub var_transport_status : ℕ
var_transport_status = 0

abbrev pub var_unknown : ℕ
var_unknown = 30

abbrev pub var_count : ℕ
var_count = 31

abbrev pub name_list : List (Option Text)
name_list =
    some (codes "TransportStatus")
    ∷ some (codes "NextAVTransportURI")
    ∷ some (codes "NextAVTransportURIMetaData")
    ∷ some (codes "CurrentTrackMetaData")
    ∷ some (codes "RelativeCounterPosition")
    ∷ some (codes "A_ARG_TYPE_InstanceID")
    ∷ some (codes "A_ARG_TYPE_SeekTarget")
    ∷ some (codes "PlaybackStorageMedium")
    ∷ some (codes "RelativeTimePosition")
    ∷ some (codes "PossibleRecordStorageMedia")
    ∷ some (codes "CurrentPlayMode")
    ∷ some (codes "TransportPlaySpeed")
    ∷ some (codes "PossiblePlaybackStorageMedia")
    ∷ some (codes "AbsoluteTimePosition")
    ∷ some (codes "CurrentTrack")
    ∷ some (codes "CurrentTrackURI")
    ∷ some (codes "CurrentTransportActions")
    ∷ some (codes "NumberOfTracks")
    ∷ some (codes "AVTransportURI")
    ∷ some (codes "AbsoluteCounterPosition")
    ∷ some (codes "CurrentRecordQualityMode")
    ∷ some (codes "CurrentMediaDuration")
    ∷ some (codes "A_ARG_TYPE_SeekMode")
    ∷ some (codes "AVTransportURIMetaData")
    ∷ some (codes "RecordStorageMedium")
    ∷ some (codes "RecordMediumWriteStatus")
    ∷ some (codes "LastChange")
    ∷ some (codes "CurrentTrackDuration")
    ∷ some (codes "TransportState")
    ∷ some (codes "PossibleRecordQualityModes")
    ∷ none
    ∷ []

-- transport_variable_names
unfoldable pub transport_variable_names : ℕ → Option Text
transport_variable_names = entry name_list

abbrev pub zero_time : Text
zero_time = codes "0:00:00"

abbrev pub default_list : List (Option Text)
default_list =
    some (codes "OK")
    ∷ some []
    ∷ some []
    ∷ some []
    ∷ some (codes "2147483647")
    ∷ some (codes "0")
    ∷ some []
    ∷ some (codes "SPDIF")
    ∷ some zero_time
    ∷ some (codes "NOT_IMPLEMENTED")
    ∷ some (codes "NORMAL")
    ∷ some (codes "1")
    ∷ some (codes "SPDIF,UNKNOWN")
    ∷ some (codes "NOT_IMPLEMENTED")
    ∷ some (codes "0")
    ∷ some []
    ∷ some (codes "PLAY")
    ∷ some (codes "0")
    ∷ some []
    ∷ some (codes "2147483647")
    ∷ some (codes "NOT_IMPLEMENTED")
    ∷ some []
    ∷ some (codes "TRACK_NR")
    ∷ some []
    ∷ some (codes "NOT_IMPLEMENTED")
    ∷ some (codes "NOT_IMPLEMENTED")
    ∷ some (codes "<Event xmlns=\"urn:schemas-upnp-org:metadata-1-0/AVT/\"/>")
    ∷ some zero_time
    ∷ some (codes "STOPPED")
    ∷ some (codes "NOT_IMPLEMENTED")
    ∷ none
    ∷ []

-- transport_default_values
unfoldable pub transport_default_values : ℕ → Option Text
transport_default_values = entry default_list

abbrev pub transport_event_xml_ns : Text
transport_event_xml_ns = codes "urn:schemas-upnp-org:metadata-1-0/AVT/"

abbrev pub transport_service_id : Text
transport_service_id = codes "urn:upnp-org:serviceId:AVTransport"
