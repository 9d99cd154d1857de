-- ===== src/Silan/Model.antt =====
-- The state `silan_data` of src/output_silan.c, the commands of src/swa_msg_api.h, and the pins of
-- the amplifier.
use gmrender_resurrect_silan.Base.{
  ℕ, Bool, true, false, not, Option, none, some, List, ◌∷◌, Text, if◌then◌else◌,
}
use gmrender_resurrect_silan.Base.Int.{ℤ, pos}
use gmrender_resurrect_silan.Base.Outcome.{Fault}
use gmrender_resurrect_silan.Variables.Mask.{testbit, set_bit, clear_bit}
use gmrender_resurrect_silan.Output.{PlayFeedback}

-- `struct swa_ipc_data`. A command is the byte that is sent.
pub record Message : Type 0 where
  pub src : ℤ
  pub des : ℤ
  pub cmd : ℕ
  pub param : ℤ
  pub data_text : Text

-- `silan_data` and `trans_callback`, with what has left the program, the newest first: the messages
-- with what msgsnd said to each, the calls of the callback, and the writes to the pins. `pin_modes`
-- has the pins that were set up, with true for an output and false for an input. `slept`
-- counts the rounds of waiting, `died` is the first fault, after which nothing is meant by the rest.
pub record Silan : Type 0 where
  pub state : ℤ
  pub status : ℕ
  pub input_fd : ℤ
  pub uri : Option Text
  pub uri_next : Option Text
  pub mute : ℤ
  pub volume : ℤ
  pub duration : ℤ
  pub position : ℤ
  pub padmux : ℤ
  pub trans_callback : Bool
  pub sent : List (Message × Bool)
  pub told : List PlayFeedback
  pub pins : List (ℕ × ℤ)
  pub pin_modes : List (ℕ × Bool)
  pub slept : ℕ
  pub supported_types : List Text
  pub died : Option Fault

-- The board's side of the message queues: whether msgsnd takes a message after those before it, and
-- what is received in a round of waiting.
pub record Ipc : Type 0 where
  pub msgsnd : List (Message × Bool) → Message → Bool
  pub arrives : ℕ → List Message

-- The digits of SILAN_DATA_* and SILAN_STATUS_*.
abbrev pub data_mute : ℕ
data_mute = 0

abbrev pub data_volume : ℕ
data_volume = 1

abbrev pub data_duration : ℕ
data_duration = 2

abbrev pub data_position : ℕ
data_position = 3

abbrev pub status_spdifin : ℕ
status_spdifin = 4

abbrev pub status_amp_mute : ℕ
status_amp_mute = 5

abbrev pub status_amp_power : ℕ
status_amp_power = 6

-- GPIO_AMP_POWER and GPIO_AMP_MUTE
abbrev pub gpio_amp_power : ℕ
gpio_amp_power = 50

abbrev pub gpio_amp_mute : ℕ
gpio_amp_mute = 51

-- The commands of src/swa_msg_api.h that the module sends or understands.
abbrev pub cmd_dmr_get_total_time : ℕ
cmd_dmr_get_total_time = 15

abbrev pub cmd_play_uri : ℕ
cmd_play_uri = 30

abbrev pub cmd_mute : ℕ
cmd_mute = 31

abbrev pub cmd_set_volume : ℕ
cmd_set_volume = 32

abbrev pub cmd_get_volume : ℕ
cmd_get_volume = 33

abbrev pub cmd_pause : ℕ
cmd_pause = 34

abbrev pub cmd_stop : ℕ
cmd_stop = 35

abbrev pub cmd_get_time_pos : ℕ
cmd_get_time_pos = 36

abbrev pub cmd_set_time_pos : ℕ
cmd_set_time_pos = 37

abbrev pub cmd_seek : ℕ
cmd_seek = 38

abbrev pub cmd_set_total_time : ℕ
cmd_set_total_time = 39

abbrev pub cmd_play_state : ℕ
cmd_play_state = 41

abbrev pub cmd_get_mute : ℕ
cmd_get_mute = 46

abbrev pub cmd_spdif_in : ℕ
cmd_spdif_in = 203

abbrev pub cmd_set_pad_mux : ℕ
cmd_set_pad_mux = 209

-- SWA_SIGNAL_SLMP and SWA_SIGNAL_UI
abbrev pub signal_slmp : ℤ
signal_slmp = pos 1

abbrev pub signal_ui : ℤ
signal_ui = pos 2

-- SLMP_STATE_*
abbrev pub slmp_state_stop : ℤ
slmp_state_stop = pos 0

abbrev pub slmp_state_pause : ℤ
slmp_state_pause = pos 1

abbrev pub slmp_state_play : ℤ
slmp_state_play = pos 2

-- A fault, if none came before it.
abbrev pub dies : Fault → Silan → Silan
dies e s = elim s.died [ none ↦ record s { died = some e } | some _ ↦ s ]

-- `if (trans_callback) trans_callback(feedback)`
abbrev pub tell : PlayFeedback → Silan → Silan
tell feedback s = if s.trans_callback then record s { told = feedback ∷ s.told } else s

abbrev pub has : Silan → ℕ → Bool
has s i = testbit s.status i

abbrev pub put_bit : Bool → ℕ → ℕ → ℕ
put_bit true i status = set_bit status i
put_bit false i status = clear_bit status i

abbrev pub level : Bool → ℤ
level true = pos 1
level false = pos 0

abbrev pub differ : Bool → Bool → Bool
differ true b = not b
differ false b = b

-- output_silan_gpio_write
unfoldable pub gpio_write : ℕ → ℤ → Silan → Silan
gpio_write num value s = record s { pins = (num, value) ∷ s.pins }

-- output_silan_set_amp_mute
unfoldable pub set_amp_mute : Bool → Silan → Silan
unfolding gpio_write
set_amp_mute m s =
    let s = if differ m (has s status_amp_mute) then gpio_write gpio_amp_mute (level m) s else s in
    record s { status = put_bit m status_amp_mute s.status }

-- output_silan_set_amp_power
unfoldable pub set_amp_power : Bool → Silan → Silan
unfolding gpio_write set_amp_mute
set_amp_power m s =
    let s =
      if differ m (has s status_amp_power)
      then gpio_write gpio_amp_power (level (not m)) (set_amp_mute true s)
      else s in
    record s { status = put_bit m status_amp_power s.status }
