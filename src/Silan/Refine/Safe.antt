-- ===== src/Silan/Refine/Safe.antt =====
-- The state of the module in which no message is too long and in which the pins of the amplifier
-- and the status bits say the same, and the commands and messages that keep it.
use gmrender_resurrect_silan.Base.{
  ℕ, zero, suc, ◌+◌, ◌<◌, ◌≡◌, refl, Bool, true, false, not, ◌||◌, Option, none, some, List, [],
  ◌∷◌, Text, strlen, ◌==◌, lt→ltb, Bool-cases, inl, inr, if◌then◌else◌, arith,
}
use gmrender_resurrect_silan.Base.Int.{ℤ, pos, minus_one, eq_ℤ}
use gmrender_resurrect_silan.Base.Outcome.{Fault}
use gmrender_resurrect_silan.Variables.Mask.{
  set_bit, clear_bit, testbit, testbit-set_bit, testbit-clear_bit,
}
use gmrender_resurrect_silan.Output.{PlayFeedback, play_stopped, play_started_next_stream}
use gmrender_resurrect_silan.Silan.Model.{
  Message, Silan, Ipc, data_mute, data_volume, data_duration, data_position, status_amp_mute,
  status_amp_power, gpio_amp_power, gpio_amp_mute, cmd_dmr_get_total_time, cmd_play_uri,
  cmd_get_volume, cmd_get_time_pos, cmd_set_time_pos, cmd_set_total_time, cmd_play_state,
  cmd_get_mute, signal_ui, tell, has, put_bit, level,
}
use gmrender_resurrect_silan.Silan.Commands.{
  buf_len, recv_retry, answer_bit, expect, copied, post, next_stream, at_end, play_state, handle,
  recv_cmd, recv_all, sleep, wait_answer, await, send_cmd,
}

-- The value that was written to a pin last.
unfoldable pub last_written : ℕ → List (ℕ × ℤ) → Option ℤ
last_written num [] = none
last_written num ((n, value) ∷ rest) =
    let before = last_written num rest in if n == num then some value else before

-- Whenever the amplifier's power was switched, its mute pin was at 1.
unfoldable pub Quiet : List (ℕ × ℤ) → Type 0
unfolding last_written
Quiet [] = Unit {0}
Quiet ((n, value) ∷ rest) =
    (n ≡ gpio_amp_power → last_written gpio_amp_mute rest ≡ some (pos 1)) × Quiet rest

-- A text that the array of a message holds.
abbrev pub Fits : Option Text → Type 0
Fits none = Unit {0}
Fits (some t) = strlen t < buf_len

-- By the two status bits: the pins follow them, and an amplifier that is off is muted.
pub record Safe (died : Option Fault) (uri uri_next : Option Text) (pins : List (ℕ × ℤ))
    (muted powered : Bool) : Type 0 where
  pub alive : died ≡ none
  pub uri_Fits : Fits uri
  pub uri_next_Fits : Fits uri_next
  pub mute_pin : last_written gpio_amp_mute pins ≡ some (level muted)
  pub power_pin : last_written gpio_amp_power pins ≡ some (level (not powered))
  pub off_muted : powered || muted ≡ true
  pub quiet : Quiet pins

abbrev pub IsSafe : Silan → Type 0
IsSafe s = Safe s.died s.uri s.uri_next s.pins (has s status_amp_mute) (has s status_amp_power)

abbrev pub with_uri :
    {d : Option Fault} {u u' n n' : Option Text} {p : List (ℕ × ℤ)} {m on : Bool}
    → Fits u'
    → Fits n'
    → Safe d u n p m on
    → Safe d u' n' p m on
with_uri f g v = record {
  alive = v.alive;
  uri_Fits = f;
  uri_next_Fits = g;
  mute_pin = v.mute_pin;
  power_pin = v.power_pin;
  off_muted = v.off_muted;
  quiet = v.quiet;
}

-- Other status bits are free to change.
pub put_bit-IsSafe :
    (b : Bool) (i : ℕ) (s : Silan)
    → i < 5
    → IsSafe s
    → IsSafe (record s { status = put_bit b i s.status })
put_bit-IsSafe true i s h v =
    let a : testbit (set_bit s.status i) 5 ≡ testbit s.status 5 =
      ground (arith, testbit-set_bit s.status i 5) in
    let b : testbit (set_bit s.status i) 6 ≡ testbit s.status 6 =
      ground (arith, testbit-set_bit s.status i 6) in
    rw (a, b) v
put_bit-IsSafe false i s h v =
    let a : testbit (clear_bit s.status i) 5 ≡ testbit s.status 5 =
      ground (arith, testbit-clear_bit s.status i 5) in
    let b : testbit (clear_bit s.status i) 6 ≡ testbit s.status 6 =
      ground (arith, testbit-clear_bit s.status i 6) in
    rw (a, b) v

pub tell-IsSafe : (feedback : PlayFeedback) (s : Silan) → IsSafe s → IsSafe (tell feedback s)
tell-IsSafe feedback s v = elim (Bool-cases s.trans_callback) [ inl e ↦ rw e v | inr e ↦ rw e v ]

copied-id : (data_text : Option Text) (s : Silan) → Fits data_text → copied data_text s ≡ s
copied-id none s h = refl
copied-id (some t) s h = rw (lt→ltb (strlen t) buf_len h) refl

expect-IsSafe :
    (cmd : ℕ) (s : Silan)
    → IsSafe s
    → IsSafe (record s { status = expect (answer_bit cmd) s.status })
unfolding answer_bit
expect-IsSafe cmd s v = elim (Bool-cases (cmd == cmd_get_mute)) [
  | inl e ↦ rw e (put_bit-IsSafe true data_mute s (omega arith) v)
  | inr e ↦ rw e (elim (Bool-cases (cmd == cmd_get_volume)) [
    | inl f ↦ rw f (put_bit-IsSafe true data_volume s (omega arith) v)
    | inr f ↦ rw f (elim (Bool-cases (cmd == cmd_get_time_pos)) [
      | inl g ↦ rw g (put_bit-IsSafe true data_position s (omega arith) v)
      | inr g ↦ rw g (elim (Bool-cases (cmd == cmd_dmr_get_total_time)) [
        | inl h ↦ rw h (put_bit-IsSafe true data_duration s (omega arith) v)
        | inr h ↦ rw h v
      ])
    ])
  ])
]

module _ ⦃ipc : Ipc⦄ where
  pub post-IsSafe :
      (cmd : ℕ) (param : ℤ) (data_text : Option Text) (s : Silan)
      → Fits data_text
      → IsSafe s
      → IsSafe (post cmd param data_text s).1
  unfolding post
  post-IsSafe cmd param data_text s h v = rw (copied-id data_text s h) (expect-IsSafe cmd s v)

  next_stream-IsSafe :
      (next : Option Text) (s : Silan) → Fits next → IsSafe s → IsSafe (next_stream next s)
  unfolding next_stream
  next_stream-IsSafe none s h v = tell-IsSafe play_stopped s v
  next_stream-IsSafe (some uri) s h v =
      let t : Silan = record s { uri = some uri; uri_next = none } in
      tell-IsSafe play_started_next_stream (post cmd_play_uri (pos 0) (some uri) t).1
        (post-IsSafe cmd_play_uri (pos 0) (some uri) t h (with_uri h tt v))

  play_state-IsSafe : (param : ℤ) (s : Silan) → IsSafe s → IsSafe (play_state param s)
  unfolding play_state
  play_state-IsSafe param s v =
      let t : Silan = record s { state = param } in
      elim (Bool-cases (at_end t)) [
        | inl e ↦ rw e (next_stream-IsSafe s.uri_next t v.uri_next_Fits v)
        | inr e ↦ rw e v
      ]

  handle-IsSafe : (m : Message) (s : Silan) → IsSafe s → IsSafe (handle m s)
  unfolding handle
  handle-IsSafe m s v = elim (Bool-cases (m.cmd == cmd_get_mute)) [
    | inl e ↦ rw e (put_bit-IsSafe false data_mute s (omega arith) v)
    | inr e ↦ rw e (elim (Bool-cases (m.cmd == cmd_get_volume)) [
      | inl f ↦ rw f (put_bit-IsSafe false data_volume s (omega arith) v)
      | inr f ↦ rw f (elim (Bool-cases (m.cmd == cmd_set_time_pos)) [
        | inl g ↦ rw g (put_bit-IsSafe false data_position s (omega arith) v)
        | inr g ↦ rw g (elim (Bool-cases (m.cmd == cmd_set_total_time)) [
          | inl h ↦ rw h (put_bit-IsSafe false data_duration s (omega arith) v)
          | inr h ↦ rw h (elim (Bool-cases (m.cmd == cmd_play_state)) [
            | inl k ↦ rw k (play_state-IsSafe m.param s v)
            | inr k ↦ rw k v
          ])
        ])
      ])
    ])
  ]

  pub recv_cmd-IsSafe : (m : Message) (s : Silan) → IsSafe s → IsSafe (recv_cmd m s)
  unfolding recv_cmd
  recv_cmd-IsSafe m s v = elim (Bool-cases (eq_ℤ m.des signal_ui)) [
    | inl e ↦ rw e (handle-IsSafe m s v)
    | inr e ↦ rw e v
  ]

  recv_all-IsSafe : (ms : List Message) (s : Silan) → IsSafe s → IsSafe (recv_all ms s)
  unfolding recv_all
  recv_all-IsSafe [] s v = v
  recv_all-IsSafe (m ∷ ms) s v = recv_all-IsSafe ms (recv_cmd m s) (recv_cmd-IsSafe m s v)

  sleep-IsSafe : (s : Silan) → IsSafe s → IsSafe (sleep s)
  unfolding sleep
  sleep-IsSafe s v = recv_all-IsSafe (ipc.arrives s.slept) (record s { slept = s.slept + 1 }) v

  wait_answer-IsSafe :
      (bit rounds cnt : ℕ) (s : Silan) → IsSafe s → IsSafe (wait_answer bit rounds cnt s).1
  unfolding wait_answer
  wait_answer-IsSafe bit zero cnt s v = v
  wait_answer-IsSafe bit (suc rounds) cnt s v = elim (Bool-cases (has s bit)) [
    | inl e ↦
        rw (wait_answer, e) (wait_answer-IsSafe bit rounds (cnt + 1) (sleep s) (sleep-IsSafe s v))
    | inr e ↦ rw (wait_answer, e) v
  ]

  await-IsSafe : (bit : Option ℕ) (s : Silan) → IsSafe s → IsSafe (await bit s).1
  unfolding await
  await-IsSafe none s v = v
  await-IsSafe (some bit) s v = wait_answer-IsSafe bit recv_retry 0 s v

  taken-IsSafe :
      (accepted : Bool) (bit : Option ℕ) (s : Silan)
      → IsSafe s
      → IsSafe (if accepted then await bit s else (minus_one, s)).1
  taken-IsSafe true bit s v = await-IsSafe bit s v
  taken-IsSafe false bit s v = v

  pub send_cmd-IsSafe :
      (cmd : ℕ) (param : ℤ) (data_text : Option Text) (s : Silan)
      → Fits data_text
      → IsSafe s
      → IsSafe (send_cmd cmd param data_text s).1
  unfolding send_cmd
  send_cmd-IsSafe cmd param data_text s h v =
      taken-IsSafe (post cmd param data_text s).0 (answer_bit cmd) (post cmd param data_text s).1
        (post-IsSafe cmd param data_text s h v)
