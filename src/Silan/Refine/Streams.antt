-- ===== src/Silan/Refine/Streams.antt =====
-- The end of a stream, as output_silan_recv_cmd finds it in the messages of the player.
use gmrender_resurrect_silan.Base.{
  ℕ, ◌<◌, ◌≡◌, refl, ap, ◌∙◌, Bool, true, false, none, some, ◌∷◌, Text, strlen, arith,
}
use gmrender_resurrect_silan.Base.Int.{ℤ, pos, negsuc, is_zero, eq_ℤ}
use gmrender_resurrect_silan.Output.{PlayFeedback, play_stopped, play_started_next_stream}
use gmrender_resurrect_silan.Silan.Model.{
  tell, Message, Silan, Ipc, cmd_play_uri, cmd_play_state, signal_slmp, signal_ui, slmp_state_stop,
}
use gmrender_resurrect_silan.Silan.Commands.{
  answer_bit, post, next_stream, at_end, play_state, handle, recv_cmd,
}
use gmrender_resurrect_silan.Silan.Player.{set_next_uri}
use gmrender_resurrect_silan.Silan.Refine.Posting.{to_player, posted, copied-Fits}

-- "The player has stopped."
abbrev pub stopped_message : Text → Message
stopped_message data_text = record {
  src = signal_slmp;
  des = signal_ui;
  cmd = cmd_play_state;
  param = slmp_state_stop;
  data_text = data_text;
}

eq_ℤ_refl : (n : ℤ) → eq_ℤ n n ≡ true
eq_ℤ_refl (pos n) = ground arith
eq_ℤ_refl (negsuc n) = ground arith

tell-heard :
    (feedback : PlayFeedback) (s : Silan)
    → s.trans_callback ≡ true
    → tell feedback s ≡ record s { told = feedback ∷ s.told }
tell-heard feedback s e = rw e refl

module _ ⦃ipc : Ipc⦄ where
  stopped-ends :
      (t : Text) (s : Silan)
      → is_zero s.duration ≡ false
      → s.position ≡ s.duration
      → recv_cmd (stopped_message t) s
        ≡ next_stream s.uri_next (record s { state = slmp_state_stop })
  unfolding recv_cmd handle play_state at_end
  stopped-ends t s long e = rw (long, e, eq_ℤ_refl s.duration) refl

  next_stream-posts :
      (uri : Text) (s : Silan)
      → strlen uri < 1024
      → s.trans_callback ≡ true
      → next_stream (some uri) s
        ≡ record (posted
            (to_player cmd_play_uri (pos 0) uri)
            (record s { uri = some uri; uri_next = none })) {
              told = play_started_next_stream ∷ s.told;
            }
  unfolding next_stream post answer_bit
  next_stream-posts uri s h heard =
      rw (copied-Fits (some uri) (record s { uri = some uri; uri_next = none }) h, heard) refl

  -- A track of known length has ended, and the player says so, twice. If a next URI that fits was
  -- set, the first message has it played, in one command, and tells that the next stream has started;
  -- the second tells that playing has stopped, and sends nothing.
  pub gapless-once :
      (a : ℕ) (uri t u : Text) (s : Silan)
      → is_zero s.duration ≡ false
      → s.position ≡ s.duration
      → s.trans_callback ≡ true
      → strlen (a ∷ uri) < 1024
      → (taken : Bool) × (recv_cmd
            (stopped_message u)
            (recv_cmd (stopped_message t) (set_next_uri (some (a ∷ uri)) s))
          ≡ record s {
            state = slmp_state_stop;
            uri = some (a ∷ uri);
            uri_next = none;
            sent = (to_player cmd_play_uri (pos 0) (a ∷ uri), taken) ∷ s.sent;
            told = play_stopped ∷ play_started_next_stream ∷ s.told;
          })
  unfolding set_next_uri next_stream
  gapless-once a uri t u s long at_end heard fits =
      let s₁ : Silan = record s { uri_next = some (a ∷ uri) } in
      let s₂ : Silan = record s₁ { state = slmp_state_stop } in
      let first = stopped-ends t s₁ long at_end ∙ next_stream-posts (a ∷ uri) s₂ fits heard in
      (
        ipc.msgsnd s.sent (to_player cmd_play_uri (pos 0) (a ∷ uri)),
        ap (recv_cmd (stopped_message u)) first
            ∙ stopped-ends u
                (record (posted (to_player cmd_play_uri (pos 0) (a ∷ uri))
                  (record s₂ { uri = some (a ∷ uri); uri_next = none })) {
                    told = play_started_next_stream ∷ s.told;
                  })
                long at_end
            ∙ tell-heard play_stopped _ heard,
      )
