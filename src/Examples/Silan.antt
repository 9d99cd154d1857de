-- ===== src/Examples/Silan.antt =====
-- The Silan module after its start, with a player that takes every command and says nothing.
use gmrender_resurrect_silan.Base.{
  ℕ, zero, suc, ◌≤◌, ◌<◌, ◌≡◌, ◌≢◌, refl, true, false, Bool, none, some, List, [], ◌∷◌, Text, codes,
  or_empty, leb, if◌then◌else◌, arith,
}
use gmrender_resurrect_silan.Base.Int.{ℤ, pos, minus_one}
use gmrender_resurrect_silan.Base.Outcome.{done, overrun, Ends}
use gmrender_resurrect_silan.Variables.Mask.{testbit}
use gmrender_resurrect_silan.Output.{play_stopped, play_started_next_stream}
use gmrender_resurrect_silan.Control.{control_default_values}
use gmrender_resurrect_silan.Silan.Model.{
  Silan, Ipc, data_position, status_spdifin, status_amp_mute, status_amp_power, gpio_amp_power,
  gpio_amp_mute, cmd_play_uri, cmd_get_time_pos, slmp_state_stop, has,
}
use gmrender_resurrect_silan.Silan.Commands.{answer_bit, post, recv_cmd, send_cmd}
use gmrender_resurrect_silan.Silan.Player.{set_uri, set_next_uri, play, silan_output}
use gmrender_resurrect_silan.Silan.Watch.{
  Board, key_volume_down, key_volume_up, Watch, ticks, press,
}
use gmrender_resurrect_silan.Silan.Start.{Stored, Boot, init}
use gmrender_resurrect_silan.Silan.Session.{
  woken, called, received, call_set_uri, call_play, Input, AllFit, inputs,
}
use gmrender_resurrect_silan.Silan.Session.Running.{IsRunning, inputs-IsRunning}
use gmrender_resurrect_silan.Silan.Session.Keys.{
  HasVolume, volume_up-HasVolume, volume_down-HasVolume,
}
use gmrender_resurrect_silan.Silan.Refine.Safe.{last_written, Quiet, IsSafe}
use gmrender_resurrect_silan.Silan.Refine.Start.{init-IsSafe}
use gmrender_resurrect_silan.Silan.Refine.Automatic.{
  idle-switches, silence-switches_off, silence-stays_on,
}
use gmrender_resurrect_silan.Silan.Refine.Hearing.{sound-unmutes}
use gmrender_resurrect_silan.Silan.Refine.Posting.{to_player, long-overruns}
use gmrender_resurrect_silan.Silan.Refine.Waiting.{after, send_cmd-waits}
use gmrender_resurrect_silan.Silan.Refine.Streams.{stopped_message, gapless-once}
use gmrender_resurrect_silan.Examples.{example_ixml}
use gmrender_resurrect_silan.Examples.Variables.{example_service, example_service-Shows}

instance abbrev example_ipc : Ipc
example_ipc = record { msgsnd = λ sent m. true; arrives = λ n. [] }

abbrev blank_silan : Silan
blank_silan = record {
  state = pos 0;
  status = 0;
  input_fd = pos 0;
  uri = none;
  uri_next = none;
  mute = pos 0;
  volume = pos 0;
  duration = pos 0;
  position = pos 0;
  padmux = pos 0;
  trans_callback = false;
  sent = [];
  told = [];
  pins = [];
  pin_modes = [];
  slept = 0;
  supported_types = [];
  died = none;
}

-- On, muted, with the SPDIF as its input.
abbrev started_silan : Silan
started_silan = record blank_silan {
  status = 112;
  volume = pos 30;
  trans_callback = true;
  pins = (50, pos 0) ∷ (51, pos 1) ∷ [];
}

apart : gpio_amp_mute ≢ gpio_amp_power
apart = omega arith

started_silan-IsSafe : IsSafe started_silan
unfolding testbit last_written Quiet
started_silan-IsSafe = record {
  alive = refl;
  uri_Fits = tt;
  uri_next_Fits = tt;
  mute_pin = refl;
  power_pin = refl;
  off_muted = refl;
  quiet = (λ _. refl, (λ e. elim (apart e) [ ], tt));
}

abbrev begin : Silan → ℤ × Silan
begin s = (pos 0, s)

abbrev example_watch : Watch
example_watch = record {
  control = record {
    service = example_service;
    output = record { output_module = some (silan_output begin); device = started_silan };
  };
  stop_count = 0;
  unlock_count = 0;
  mute_count = 0;
}

example_watch-IsRunning : IsRunning begin example_watch
example_watch-IsRunning = record {
  selected = refl;
  safe = started_silan-IsSafe;
  values = λ i. or_empty (control_default_values i);
  shows = example_service-Shows;
}

-- A second, the key for more volume, and a short song.
abbrev example_inputs : List Input
example_inputs =
    woken (record { event = none; lock = some (pos 1) })
    ∷ woken (record {
      event = some (record { ev_type = 1; ev_code = 115; ev_value = pos 1 });
      lock = none;
    })
    ∷ called (call_set_uri (some (codes "http://a")))
    ∷ called call_play
    ∷ received (stopped_message [])
    ∷ []

example_inputs-AllFit : AllFit example_inputs
unfolding AllFit
example_inputs-AllFit = (tt, (tt, (omega arith, (tt, (tt, tt)))))

inputs-IsRunning_example : Ends (IsRunning begin) (inputs example_inputs example_watch)
inputs-IsRunning_example =
    inputs-IsRunning begin example_inputs example_watch example_inputs-AllFit
      example_watch-IsRunning

abbrev example_file : Stored
example_file = record { opens = true; size = some 11; content = some (codes "<volume>30\n") }

abbrev example_boot : Boot
example_boot = record {
  gpio_fd = pos 3;
  slmp = example_file;
  system = example_file;
  boot_input_fd = minus_one;
  send_id = pos 0;
  recv_id = pos 1;
}

init-IsSafe_example :
    (t : Silan) × (init example_boot blank_silan ≡ done (pos 0, t))
    × IsSafe t
    × (has t status_amp_power ≡ true)
    × (has t status_amp_mute ≡ true)
    × (has t status_spdifin ≡ true)
init-IsSafe_example =
    init-IsSafe example_boot blank_silan
      (record {
        has_gpio = refl;
        has_slmp = refl;
        has_system = refl;
        has_send = refl;
        has_recv = refl;
      })
      refl refl

abbrev example_board : Board
example_board = record { silan = started_silan; cnt_stop = 0; cnt_unlock = 299; cnt_mute = 2 }

spdifin_on : has started_silan status_spdifin ≡ true
unfolding testbit
spdifin_on = refl

is_powered : has started_silan status_amp_power ≡ true
unfolding testbit
is_powered = refl

muted : has started_silan status_amp_mute ≡ true
unfolding testbit
muted = refl

silence-switches_off_example :
    has (ticks (none ∷ some (pos 0) ∷ []) example_board).silan status_amp_power ≡ false
silence-switches_off_example =
    silence-switches_off (none ∷ some (pos 0) ∷ []) example_board spdifin_on (refl, (refl, tt))
      (omega arith) (omega arith)

silence-stays_on_example :
    has (ticks (none ∷ []) (record example_board { cnt_unlock = 301 })).silan status_amp_power
    ≡ true
silence-stays_on_example =
    silence-stays_on (none ∷ []) (record example_board { cnt_unlock = 301 }) spdifin_on is_powered
      (refl, tt) (omega arith)

sound-unmutes_example :
    (has (ticks (some (pos 1) ∷ some (pos 1) ∷ []) example_board).silan status_amp_mute ≡ false)
    × (has (ticks (some (pos 1) ∷ some (pos 1) ∷ []) example_board).silan status_amp_power ≡ true)
sound-unmutes_example =
    sound-unmutes true (some (pos 1) ∷ some (pos 1) ∷ []) example_board spdifin_on
      (refl, (refl, tt)) is_powered muted (omega arith) (omega arith)

-- With the input from the player.
abbrev idle_board : Board
idle_board = record example_board { silan = record started_silan { status = 96 }; cnt_stop = 119 }

spdifin_off : has idle_board.silan status_spdifin ≡ false
unfolding testbit
spdifin_off = refl

idle-switches_example : has (ticks (none ∷ none ∷ []) idle_board).silan status_spdifin ≡ true
idle-switches_example =
    idle-switches (none ∷ none ∷ []) idle_board spdifin_off refl (omega arith) (omega arith)

volume_up-HasVolume_example :
    (m : ℕ) × (30 < m)
    × (m ≤ 100)
    × (t : Watch) × (press key_volume_up example_watch ≡ done t)
    × HasVolume m example_watch t
volume_up-HasVolume_example =
    volume_up-HasVolume begin 30 example_watch example_watch-IsRunning refl (omega arith)

volume_down-HasVolume_example :
    (m : ℕ) × (m < 30)
    × (t : Watch) × (press key_volume_down example_watch ≡ done t)
    × HasVolume m example_watch t
volume_down-HasVolume_example =
    volume_down-HasVolume begin 30 example_watch example_watch-IsRunning refl (omega arith)
      (omega arith)

answer_of_time_pos : answer_bit cmd_get_time_pos ≡ some data_position
unfolding answer_bit
answer_of_time_pos = refl

taken : (post cmd_get_time_pos (pos 0) none started_silan).0 ≡ true
unfolding post
taken = refl

send_cmd-waits_example :
    (k : ℕ) × (k ≤ 10)
    × (send_cmd cmd_get_time_pos (pos 0) none started_silan ≡ (
      if leb 10 k then minus_one else pos 0,
      after k (post cmd_get_time_pos (pos 0) none started_silan).1,
    ))
    × ((j : ℕ)
        → j < k
        → has (after j (post cmd_get_time_pos (pos 0) none started_silan).1) data_position ≡ true)
    × (k < 10
        → has (after k (post cmd_get_time_pos (pos 0) none started_silan).1) data_position ≡ false)
send_cmd-waits_example =
    send_cmd-waits cmd_get_time_pos data_position (pos 0) none started_silan answer_of_time_pos
      taken

-- At the end of a song of three minutes.
abbrev ended_silan : Silan
ended_silan = record started_silan { duration = pos 180; position = pos 180 }

gapless-once_example :
    (taken : Bool) × (recv_cmd
        (stopped_message [])
        (recv_cmd (stopped_message []) (set_next_uri (some (codes "http://b")) ended_silan))
      ≡ record ended_silan {
        state = slmp_state_stop;
        uri = some (codes "http://b");
        uri_next = none;
        sent = (to_player cmd_play_uri (pos 0) (codes "http://b"), taken) ∷ [];
        told = play_stopped ∷ play_started_next_stream ∷ [];
      })
gapless-once_example =
    gapless-once 104 (codes "ttp://b") [] [] ended_silan refl refl refl (omega arith)

abbrev long_text : ℕ → Text
long_text zero = []
long_text (suc n) = 97 ∷ long_text n

long-overruns_example : (play (set_uri (some (long_text 1024)) started_silan)).1.died ≡ some overrun
long-overruns_example = long-overruns (long_text 1024) started_silan refl (omega arith)
