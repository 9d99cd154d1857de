-- ===== src/Silan/Commands.antt =====
-- output_silan_send_cmd and output_silan_recv_cmd of src/output_silan.c: the commands to the
-- player and the messages from it.
use gmrender_resurrect_silan.Base.{
  ℕ, zero, suc, ◌+◌, Bool, true, false, not, ◌&&◌, Option, none, some, List, [], ◌∷◌, Text, strlen,
  ltb, leb, ◌==◌, or_empty, if◌then◌else◌,
}
use gmrender_resurrect_silan.Base.Int.{ℤ, pos, minus_one, eq_ℤ, is_zero}
use gmrender_resurrect_silan.Base.Outcome.{overrun}
use gmrender_resurrect_silan.Variables.Mask.{set_bit, clear_bit}
use gmrender_resurrect_silan.Output.{play_stopped, play_started_next_stream}
use gmrender_resurrect_silan.Silan.Model.{
  Message, Silan, Ipc, data_mute, data_volume, data_duration, data_position, cmd_dmr_get_total_time,
  cmd_play_uri, cmd_get_volume, cmd_get_time_pos, cmd_set_time_pos, cmd_set_total_time,
  cmd_play_state, cmd_get_mute, signal_slmp, signal_ui, slmp_state_stop, dies, tell, has,
}

-- BUF_LEN
abbrev pub buf_len : ℕ
buf_len = 1024

-- SILAN_RECV_RETRY
abbrev pub recv_retry : ℕ
recv_retry = 10

-- The bit that a command sets until its answer has come; a command without an answer has none.
unfoldable pub answer_bit : ℕ → Option ℕ
answer_bit cmd =
    if cmd == cmd_get_mute
    then some data_mute
    else if cmd == cmd_get_volume
    then some data_volume
    else if cmd == cmd_get_time_pos
    then some data_position
    else if cmd == cmd_dmr_get_total_time
    then some data_duration
    else none

abbrev pub expect : Option ℕ → ℕ → ℕ
expect none status = status
expect (some bit) status = set_bit status bit

-- The strcpy into the message.
abbrev pub copied : Option Text → Silan → Silan
copied none s = s
copied (some t) s = if ltb (strlen t) buf_len then s else dies overrun s

-- The message that output_silan_send_cmd fills in.
abbrev pub message : ℕ → ℤ → Option Text → Message
message cmd param data_text = record {
  src = signal_ui;
  des = signal_slmp;
  cmd = cmd;
  param = param;
  data_text = or_empty data_text;
}

module _ ⦃ipc : Ipc⦄ where
  -- output_silan_send_cmd up to the call of msgsnd, with what that says.
  unfoldable pub post : ℕ → ℤ → Option Text → Silan → Bool × Silan
  unfolding answer_bit
  post cmd param data_text s =
      let msg = message cmd param data_text in
      let s = copied data_text s in
      let s = record s { status = expect (answer_bit cmd) s.status } in
      let accepted = ipc.msgsnd s.sent msg in
      (accepted, record s { sent = (msg, accepted) ∷ s.sent })

  -- The end of a stream: the next one is started, if there is one. CMD_SlmpPlayUri has no answer to
  -- wait for.
  unfoldable pub next_stream : Option Text → Silan → Silan
  unfolding post
  next_stream none s = tell play_stopped s
  next_stream (some uri) s =
      let (_, s) =
        post cmd_play_uri (pos 0) (some uri) (record s { uri = some uri; uri_next = none }) in
      tell play_started_next_stream s

  unfoldable pub at_end : Silan → Bool
  at_end s = eq_ℤ s.state slmp_state_stop && not (is_zero s.duration) && eq_ℤ s.position s.duration

  -- CMD_SlmpPlayState
  unfoldable pub play_state : ℤ → Silan → Silan
  unfolding next_stream at_end
  play_state param s =
      let s = record s { state = param } in if at_end s then next_stream s.uri_next s else s

  -- A message for the user interface.
  unfoldable pub handle : Message → Silan → Silan
  unfolding play_state
  handle m s =
      if m.cmd == cmd_get_mute
      then record s { mute = m.param; status = clear_bit s.status data_mute }
      else if m.cmd == cmd_get_volume
      then record s { volume = m.param; status = clear_bit s.status data_volume }
      else if m.cmd == cmd_set_time_pos
      then record s { position = m.param; status = clear_bit s.status data_position }
      else if m.cmd == cmd_set_total_time
      then record s { duration = m.param; status = clear_bit s.status data_duration }
      else if m.cmd == cmd_play_state
      then play_state m.param s
      else s

  -- One message that output_silan_recv_cmd has received.
  unfoldable pub recv_cmd : Message → Silan → Silan
  unfolding handle
  recv_cmd m s = if eq_ℤ m.des signal_ui then handle m s else s

  unfoldable pub recv_all : List Message → Silan → Silan
  unfolding recv_cmd
  recv_all [] s = s
  recv_all (m ∷ ms) s = recv_all ms (recv_cmd m s)

  -- A round of waiting, in which the other thread receives what has come.
  unfoldable pub sleep : Silan → Silan
  unfolding recv_all
  sleep s = recv_all (ipc.arrives s.slept) (record s { slept = s.slept + 1 })

  -- The loop of output_silan_send_cmd with at most `rounds` rounds to go, and the number of them.
  unfoldable pub wait_answer : ℕ → ℕ → ℕ → Silan → ℕ × Silan
  unfolding sleep
  wait_answer bit zero cnt s = (cnt, s)
  wait_answer bit (suc rounds) cnt s = elim (has s bit) [
    | true ↦ wait_answer bit rounds (cnt + 1) (sleep s)
    | false ↦ (cnt, s)
  ]

  -- What is left to do when the message is sent.
  unfoldable pub await : Option ℕ → Silan → ℤ × Silan
  unfolding wait_answer
  await none s = (pos 0, s)
  await (some bit) s =
      let (cnt, s) = wait_answer bit recv_retry 0 s in
      (if leb recv_retry cnt then minus_one else pos 0, s)

  -- output_silan_send_cmd
  unfoldable pub send_cmd : ℕ → ℤ → Option Text → Silan → ℤ × Silan
  unfolding post await
  send_cmd cmd param data_text s =
      let (accepted, s) = post cmd param data_text s in
      if accepted then await (answer_bit cmd) s else (minus_one, s)
