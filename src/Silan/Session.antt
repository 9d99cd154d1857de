-- ===== src/Silan/Session.antt =====
-- The program around src/output_silan.c: calls through the output layer, messages from the player and
-- rounds of the loop, in any order.
pub mod Running
pub mod Keys
use gmrender_resurrect_silan.Base.{
  ℕ, ◌≡◌, refl, sym, ap, subst, Bool, true, false, ◌&&◌, Option, none, some, List, [], ◌∷◌, Text,
  ◌==◌, Bool-cases, inl, inr, if◌then◌else◌,
}
use gmrender_resurrect_silan.Base.Int.{ℤ, pos, minus_one, eq_ℤ, ltb_ℤ, is_zero}
use gmrender_resurrect_silan.Base.Outcome.{Outcome, done, ◌>>=◌}
use gmrender_resurrect_silan.Xml.{Ixml}
use gmrender_resurrect_silan.Output.{
  OutputModule, Output, play_stopped, output_set_uri, output_set_next_uri, output_play,
  output_pause, output_stop, output_seek, output_set_transport_callback, output_get_position,
  output_get_volume, output_set_volume, output_get_mute, output_set_mute,
}
use gmrender_resurrect_silan.Control.{Control, control_variable_names, upnp_control_set_mute}
use gmrender_resurrect_silan.Silan.Model.{Message, Ipc}
use gmrender_resurrect_silan.Silan.Commands.{recv_cmd}
use gmrender_resurrect_silan.Silan.Watch.{Round, with_device, Watch, loop_round}
use gmrender_resurrect_silan.Silan.Refine.Safe.{Fits}

-- A call of the services through src/output.c.
pub data Call : Type 0 where
  call_set_uri : Option Text → Call
  call_set_next_uri : Option Text → Call
  call_play : Call
  call_pause : Call
  call_stop : Call
  call_seek : ℤ → Call
  call_set_transport_callback : Call
  call_get_position : Call
  call_get_volume : ℤ → Call
  call_set_volume : ℤ → Call
  call_get_mute : ℤ → Call
  call_set_mute : ℤ → Call

unfoldable pub serve : {S : Type 0} → Call → Output S → Output S
unfolding output_set_uri output_set_next_uri output_play output_pause output_stop output_seek
    output_set_transport_callback output_get_position output_get_volume output_set_volume
    output_get_mute output_set_mute
serve (call_set_uri uri) o = output_set_uri uri o
serve (call_set_next_uri uri) o = output_set_next_uri uri o
serve call_play o = (output_play o).1
serve call_pause o = (output_pause o).1
serve call_stop o = (output_stop o).1
serve (call_seek position) o = (output_seek position o).1
serve call_set_transport_callback o = output_set_transport_callback o
serve call_get_position o = (output_get_position o).1
serve (call_get_volume value) o = (output_get_volume value o).1
serve (call_set_volume value) o = (output_set_volume value o).1
serve (call_get_mute value) o = (output_get_mute value o).1
serve (call_set_mute value) o = (output_set_mute value o).1

pub data Input : Type 0 where
  called : Call → Input
  received : Message → Input
  woken : Round → Input

-- The texts of a call fit the array of a message.
abbrev pub CallFits : Call → Type 0
CallFits (call_set_uri uri) = Fits uri
CallFits (call_set_next_uri uri) = Fits uri
CallFits _ = Unit {0}

abbrev pub InputFits : Input → Type 0
InputFits (called c) = CallFits c
InputFits (received m) = Unit {0}
InputFits (woken round) = Unit {0}

unfoldable pub AllFit : List Input → Type 0
AllFit [] = Unit {0}
AllFit (i ∷ is) = InputFits i × AllFit is

module _ ⦃ipc : Ipc⦄ ⦃x : Ixml⦄ where
  unfoldable pub input : Input → Watch → Outcome Watch
  unfolding recv_cmd loop_round serve
  input (called c) w =
      done (record w { control = record w.control { output = serve c w.control.output } })
  input (received m) w = done (record w { control = with_device (recv_cmd m) w.control })
  input (woken round) w = loop_round round w

  unfoldable pub inputs : List Input → Watch → Outcome Watch
  unfolding input
  inputs [] w = done w
  inputs (i ∷ is) w = input i w >>= inputs is
