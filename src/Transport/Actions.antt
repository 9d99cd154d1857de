-- ===== src/Transport/Actions.antt =====
-- The action handlers of src/upnp_transport.c and the callback from the output.
use gmrender_resurrect_silan.Base.{
  Bool, true, false, Option, none, some, [], ◌++◌, Text, codes, text_eq, or_empty, if◌then◌else◌,
}
use gmrender_resurrect_silan.Base.Int.{ℤ, pos, minus_one, is_zero}
use gmrender_resurrect_silan.Xml.{Ixml}
use gmrender_resurrect_silan.Action.{Upnp}
use gmrender_resurrect_silan.Output.{
  PlayFeedback, play_stopped, play_started_next_stream, output_set_uri, output_set_next_uri,
  output_play, output_stop, output_pause, output_seek, output_get_position,
}
use gmrender_resurrect_silan.Time.{print_upnp_time, parse_upnp_time}
use gmrender_resurrect_silan.Transport.Table.{
  var_next_av_uri, var_next_av_uri_meta, var_cur_track_meta, var_rel_ctr_pos, var_rel_time_pos,
  var_rec_media, var_play_speed, var_abs_time_pos, var_cur_track, var_cur_track_uri,
  var_cur_transport_actions, var_nr_tracks, var_av_uri, var_abs_ctr_pos, var_cur_media_dur,
  var_av_uri_meta, var_rec_medium, var_rec_medium_wr_status, var_cur_track_dur, var_transport_state,
  var_transport_status, zero_time,
}
use gmrender_resurrect_silan.Transport.Model.{
  M, ◌>>=◌, ◌>>◌, return, on_output, on_output_, TransportState, stopped, playing, paused_playback,
  no_media_present, get_state, get_var, fetch, raise, append, with_instanceid, service_lock,
  service_unlock, replace_var, change_transport_state, replace_transport_uri_and_meta,
  replace_current_uri_and_meta,
}

-- UPNP_TRANSPORT_E_TRANSITION_NA
abbrev pub transition_na : ℤ
transition_na = pos 701

module _ {S : Type 0} ⦃u : Upnp⦄ ⦃x : Ixml⦄ where
  unfoldable pub get_media_info : M S ℤ
  get_media_info = with_instanceid do
    append var_nr_tracks (codes "NrTracks")
    append var_cur_media_dur (codes "MediaDuration")
    append var_av_uri (codes "CurrentURI")
    append var_av_uri_meta (codes "CurrentURIMetaData")
    append var_next_av_uri (codes "NextURI")
    append var_next_av_uri_meta (codes "NextURIMetaData")
    append var_rec_media (codes "PlayMedium")
    append var_rec_medium (codes "RecordMedium")
    append var_rec_medium_wr_status (codes "WriteStatus")
    return (pos 0)

  abbrev pub if_playing : TransportState → M S Bool → M S Bool
  if_playing playing body = body
  if_playing _ body = return false

  -- set_avtransport_uri, for a `CurrentURI` that was given
  unfoldable pub set_uri : Option Text → M S ℤ
  set_uri none = return minus_one
  set_uri (some uri) = do
    service_lock
    meta ← fetch (codes "CurrentURIMetaData")
    replace_transport_uri_and_meta (some uri) (some (or_empty meta))
    state ← get_state
    if_playing state (replace_current_uri_and_meta (some uri) meta)
    on_output_ (output_set_uri (some uri))
    service_unlock
    return (pos 0)

  unfoldable pub set_avtransport_uri : M S ℤ
  unfolding set_uri
  set_avtransport_uri = with_instanceid do uri ← fetch (codes "CurrentURI"); set_uri uri

  abbrev pub set_next_meta : Option Text → M S ℤ
  set_next_meta none = return minus_one
  set_next_meta (some meta) = do replace_var var_next_av_uri_meta (some meta); return (pos 0)

  -- set_next_avtransport_uri, for a `NextURI` that was given
  unfoldable pub set_next_uri : Option Text → M S ℤ
  set_next_uri none = return minus_one
  set_next_uri (some next_uri) = do
    service_lock
    on_output_ (output_set_next_uri (some next_uri))
    replace_var var_next_av_uri (some next_uri)
    meta ← fetch (codes "NextURIMetaData")
    rc ← set_next_meta meta
    service_unlock
    return rc

  unfoldable pub set_next_avtransport_uri : M S ℤ
  unfolding set_next_uri
  set_next_avtransport_uri =
      with_instanceid do next_uri ← fetch (codes "NextURI"); set_next_uri next_uri

  unfoldable pub get_transport_info : M S ℤ
  get_transport_info = with_instanceid do
    append var_transport_state (codes "CurrentTransportState")
    append var_transport_status (codes "CurrentTransportStatus")
    append var_play_speed (codes "CurrentSpeed")
    return (pos 0)

  unfoldable pub get_current_transportactions : M S ℤ
  get_current_transportactions =
      with_instanceid do append var_cur_transport_actions (codes "Actions"); return (pos 0)

  unfoldable pub get_transport_settings : M S ℤ
  get_transport_settings = with_instanceid (return (pos 0))

  unfoldable pub get_device_caps : M S ℤ
  get_device_caps = with_instanceid (return (pos 0))

  unfoldable pub store_times : ℤ × ℤ × ℤ → M S (Unit {0})
  store_times (rc, duration, position) =
      if is_zero rc
      then (do
        service_lock
        replace_var var_cur_track_dur (some (print_upnp_time duration))
        replace_var var_rel_time_pos (some (print_upnp_time position))
        service_unlock)
      else return tt

  unfoldable pub update_track_time : M S (Unit {0})
  unfolding store_times
  update_track_time = do times ← on_output output_get_position; store_times times

  unfoldable pub get_position_info : M S ℤ
  get_position_info = with_instanceid do
    update_track_time
    append var_cur_track (codes "Track")
    append var_cur_track_dur (codes "TrackDuration")
    append var_cur_track_meta (codes "TrackMetaData")
    append var_cur_track_uri (codes "TrackURI")
    append var_rel_time_pos (codes "RelTime")
    append var_abs_time_pos (codes "AbsTime")
    append var_rel_ctr_pos (codes "RelCount")
    append var_abs_ctr_pos (codes "AbsCount")
    return (pos 0)

  -- The error of an action that the state does not allow.
  unfoldable pub not_allowed : Text → M S (Unit {0})
  not_allowed transition = do
    allowed ← get_var var_cur_transport_actions
    raise transition_na (
        codes "Transition to "
        ++ (transition ++ (codes " not allowed; allowed=" ++ or_empty allowed)))

  -- The cases of stop.
  unfoldable pub stop_in : TransportState → M S (Unit {0})
  stop_in stopped = return tt
  stop_in no_media_present = not_allowed (codes "STOP")
  stop_in _ = do on_output output_stop; change_transport_state stopped

  unfoldable pub stop : M S ℤ
  unfolding stop_in
  stop =
      with_instanceid
        do service_lock; state ← get_state; stop_in state; service_unlock; return (pos 0)

  -- The cases of transition_from_output.
  unfoldable pub transition_on : PlayFeedback → M S Bool
  transition_on play_stopped = do
    replace_transport_uri_and_meta (some []) (some [])
    replace_current_uri_and_meta (some []) (some [])
    change_transport_state stopped
    return true
  transition_on play_started_next_stream = do
    av_uri ← get_var var_next_av_uri
    av_meta ← get_var var_next_av_uri_meta
    replace_transport_uri_and_meta av_uri av_meta
    replace_current_uri_and_meta av_uri av_meta
    replace_var var_next_av_uri (some [])
    replace_var var_next_av_uri_meta (some [])

  unfoldable pub transition_from_output : PlayFeedback → M S (Unit {0})
  unfolding transition_on
  transition_from_output fb = do service_lock; transition_on fb; service_unlock

  -- play, once the output has answered
  unfoldable pub played : ℤ → M S ℤ
  played rc =
      if is_zero rc
      then (do
        change_transport_state playing
        av_uri ← get_var var_av_uri
        av_meta ← get_var var_av_uri_meta
        replace_current_uri_and_meta av_uri av_meta
        return (pos 0))
      else (do raise (pos 704) (codes "Playing failed"); return minus_one)

  unfoldable pub start_playing : M S ℤ
  unfolding played
  start_playing = do rc ← on_output output_play; played rc

  -- The cases of play; `stopped` falls through to `paused_playback`.
  unfoldable pub play_in : TransportState → M S ℤ
  unfolding start_playing
  play_in playing = return (pos 0)
  play_in stopped = do replace_var var_rel_time_pos (some zero_time); start_playing
  play_in paused_playback = start_playing
  play_in _ = do not_allowed (codes "PLAY"); return minus_one

  unfoldable pub play : M S ℤ
  unfolding play_in
  play =
      with_instanceid
        do service_lock; state ← get_state; rc ← play_in state; service_unlock; return rc

  -- pause_stream, once the output has answered
  unfoldable pub paused : ℤ → M S ℤ
  paused rc =
      if is_zero rc
      then (do change_transport_state paused_playback; return (pos 0))
      else (do raise (pos 704) (codes "Pause failed"); return minus_one)

  -- The cases of pause_stream.
  unfoldable pub pause_in : TransportState → M S ℤ
  unfolding paused
  pause_in paused_playback = return (pos 0)
  pause_in playing = do rc ← on_output output_pause; paused rc
  pause_in _ = do not_allowed (codes "PAUSE"); return minus_one

  unfoldable pub pause_stream : M S ℤ
  unfolding pause_in
  pause_stream =
      with_instanceid
        do service_lock; state ← get_state; rc ← pause_in state; service_unlock; return rc

  -- seek, once the output has answered
  unfoldable pub sought : Text → ℤ → M S Bool
  sought target rc = if is_zero rc then replace_var var_rel_time_pos (some target) else return false

  unfoldable pub seek_to : Option Text → M S ℤ
  unfolding sought
  seek_to none = return minus_one
  seek_to (some target) = do
    service_lock
    rc ← on_output (output_seek (parse_upnp_time target))
    sought target rc
    service_unlock
    return (pos 0)

  unfoldable pub seek_by : Option Text → M S ℤ
  unfolding seek_to
  seek_by none = return minus_one
  seek_by (some mode) =
      if text_eq mode (codes "REL_TIME")
      then (do target ← fetch (codes "Target"); seek_to target)
      else return (pos 0)

  unfoldable pub seek : M S ℤ
  unfolding seek_by
  seek = with_instanceid do mode ← fetch (codes "Unit"); seek_by mode
