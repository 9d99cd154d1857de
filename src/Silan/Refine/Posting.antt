-- ===== src/Silan/Refine/Posting.antt =====
-- The commands that have no answer: output_silan_send_cmd sends them and does not wait.
use gmrender_resurrect_silan.Base.{
  ℕ, ◌≤◌, ◌≡◌, refl, ap, Bool, true, false, Option, none, some, [], ◌∷◌, Text, strlen, ltb, lt→ltb,
  or_empty, if◌then◌else◌, arith,
}
use gmrender_resurrect_silan.Base.Int.{ℤ, pos, minus_one}
use gmrender_resurrect_silan.Base.Outcome.{overrun}
use gmrender_resurrect_silan.Variables.Mask.{set_bit, clear_bit}
use gmrender_resurrect_silan.Silan.Model.{
  Message, Silan, Ipc, status_spdifin, cmd_play_uri, cmd_spdif_in, cmd_set_pad_mux, signal_slmp,
  signal_ui, dies, has,
}
use gmrender_resurrect_silan.Silan.Commands.{buf_len, answer_bit, copied, post, await, send_cmd}
use gmrender_resurrect_silan.Silan.Player.{set_uri, set_spdifin, play_uri, play}
use gmrender_resurrect_silan.Silan.Refine.Safe.{Fits}

-- A message to the player.
abbrev pub to_player : ℕ → ℤ → Text → Message
to_player cmd param data_text = record {
  src = signal_ui;
  des = signal_slmp;
  cmd = cmd;
  param = param;
  data_text = data_text;
}

-- The state after a message was handed to msgsnd.
abbrev pub posted : ⦃ipc : Ipc⦄ → Message → Silan → Silan
posted ⦃ipc⦄ m s = record s { sent = (m, ipc.msgsnd s.sent m) ∷ s.sent }

abbrev pub result : Bool → ℤ
result accepted = if accepted then pos 0 else minus_one

pub copied-Fits : (data_text : Option Text) (s : Silan) → Fits data_text → copied data_text s ≡ s
copied-Fits none s h = refl
copied-Fits (some t) s h = rw (lt→ltb (strlen t) buf_len h) refl

dies-alive : (s : Silan) → s.died ≡ none → dies overrun s ≡ record s { died = some overrun }
dies-alive s e = rw e refl

copied-overruns :
    (t : Text) (s : Silan)
    → s.died ≡ none
    → 1024 ≤ strlen t
    → copied (some t) s ≡ record s { died = some overrun }
copied-overruns t s e long =
    let over : ltb (strlen t) buf_len ≡ false = ground (arith, long) in rw over (dies-alive s e)

module _ ⦃ipc : Ipc⦄ where
  await-at-once :
      (accepted : Bool) (s : Silan)
      → (if accepted then await none s else (minus_one, s)) ≡ (result accepted, s)
  unfolding await
  await-at-once true s = refl
  await-at-once false s = refl

  -- A command that has no answer and whose text fits is handed to msgsnd, once and without waiting:
  -- the result is 0 if msgsnd takes it and else -1, and nothing but the record of messages changes.
  pub send_cmd-posts :
      (cmd : ℕ) (param : ℤ) (data_text : Option Text) (s : Silan)
      → answer_bit cmd ≡ none
      → Fits data_text
      → send_cmd cmd param data_text s ≡ (
        result (ipc.msgsnd s.sent (to_player cmd param (or_empty data_text))),
        posted (to_player cmd param (or_empty data_text)) s,
      )
  unfolding send_cmd post
  send_cmd-posts cmd param data_text s e h =
      rw (copied-Fits data_text s h, e)
        (await-at-once (ipc.msgsnd s.sent (to_player cmd param (or_empty data_text)))
          (posted (to_player cmd param (or_empty data_text)) s))

  -- The switch to the SPDIF input sets its bit and sends two commands.
  pub set_spdifin-posts :
      (s : Silan)
      → has s status_spdifin ≡ false
      → set_spdifin s
        ≡ posted (to_player cmd_spdif_in (pos 0) []) (
            posted
              (to_player cmd_set_pad_mux s.padmux [])
              (record s { status = set_bit s.status status_spdifin }))
  unfolding set_spdifin answer_bit
  set_spdifin-posts s e =
      let t : Silan = record s { status = set_bit s.status status_spdifin } in
      let first = send_cmd-posts cmd_set_pad_mux s.padmux none t refl tt in
      let second =
        send_cmd-posts cmd_spdif_in (pos 0) none (posted (to_player cmd_set_pad_mux s.padmux []) t)
          refl tt in
      rw (e, first, second) refl

  overrun-dies :
      (cmd : ℕ) (param : ℤ) (t : Text) (s : Silan)
      → answer_bit cmd ≡ none
      → s.died ≡ none
      → 1024 ≤ strlen t
      → (send_cmd cmd param (some t) s).1.died ≡ some overrun
  unfolding send_cmd post
  overrun-dies cmd param t s e alive long =
      let u : Silan = record s { died = some overrun } in
      rw (copied-overruns t s alive long, e)
        (ap (λ (r : ℤ × Silan). r.1.died)
          (await-at-once (ipc.msgsnd s.sent (to_player cmd param t))
            (posted (to_player cmd param t) u)))

  -- If a URI of 1024 characters or more is set and played, its copy runs over the end of the message.
  pub long-overruns :
      (t : Text) (s : Silan)
      → s.died ≡ none
      → 1024 ≤ strlen t
      → (play (set_uri (some t) s)).1.died ≡ some overrun
  unfolding play set_uri play_uri answer_bit
  long-overruns [] s alive long = elim long [ ]
  long-overruns (a ∷ t) s alive long =
      overrun-dies cmd_play_uri (pos 0) (a ∷ t)
        (record s {
          uri = some (a ∷ t);
          status = clear_bit s.status status_spdifin;
          duration = pos 0;
          position = pos 0;
        })
        refl alive long
