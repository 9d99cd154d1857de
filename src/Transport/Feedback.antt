-- ===== src/Transport/Feedback.antt =====
-- What the calls of the output (transition_from_output of src/upnp_transport.c) make of the service.
use gmrender_resurrect_silan.Base.{
  ℕ, ◌≡◌, refl, sym, ◌∙◌, ◌≢◌, Option, none, some, [], Text, codes, text_eq, arith, inl, inr,
  Bool-cases,
}
use gmrender_resurrect_silan.Base.Outcome.{done}
use gmrender_resurrect_silan.Xml.{Ixml}
use gmrender_resurrect_silan.Action.{Upnp}
use gmrender_resurrect_silan.Variables.Model.{update}
use gmrender_resurrect_silan.Output.{play_stopped, play_started_next_stream}
use gmrender_resurrect_silan.Transport.Model.{
  Context, TransportState, stopped, state_name, available_actions, track_count,
}
use gmrender_resurrect_silan.Transport.Player.{
  Player, put_actions, put_uri, put_current, enter, feedback_effect,
}
use gmrender_resurrect_silan.Transport.Moves.{feedback-state}
use gmrender_resurrect_silan.Transport.Request.{told, step}
use gmrender_resurrect_silan.Transport.Refine.Requests.{step-runs}
use gmrender_resurrect_silan.Transport.Reach.{Reached, reached-shows}

module _ {S : Type 0} where
  -- A title that began without a pause: the next URI has become the current one.
  pub record HasAdvanced (before after : Context S) : Type 0 where
    pub same_state : after.transport_state ≡ before.transport_state
    pub av_uri : after.service.values 18 ≡ before.service.values 1
    pub av_uri_meta : after.service.values 23 ≡ before.service.values 2
    pub cur_track_uri : after.service.values 15 ≡ before.service.values 1
    pub cur_track_meta : after.service.values 3 ≡ before.service.values 2
    pub next_av_uri : after.service.values 1 ≡ []
    pub next_av_uri_meta : after.service.values 2 ≡ []

  -- A service that has nothing to play.
  pub record HasEnded (after : Context S) : Type 0 where
    pub is_stopped : after.transport_state ≡ stopped
    pub no_uri : after.service.values 18 ≡ []
    pub no_meta : after.service.values 23 ≡ []
    pub no_current_uri : after.service.values 15 ≡ []
    pub no_current_meta : after.service.values 3 ≡ []
    pub no_tracks : after.service.values 17 ≡ codes "0"
    pub no_current_track : after.service.values 14 ≡ codes "0"

  put_actions-vars :
      (actions : Option Text) (p : Player S) (j : ℕ)
      → 16 ≢ j
      → (put_actions actions p).vars j ≡ p.vars j
  put_actions-vars none p j n = refl
  put_actions-vars (some actions) p j n = ground arith

  enter-vars :
      (new : TransportState) (p : Player S) (j : ℕ)
      → 28 ≢ j
      → 16 ≢ j
      → (enter new p).vars j ≡ p.vars j
  unfolding enter
  enter-vars new p j n m =
      let written : update p.vars 28 (state_name new) j ≡ p.vars j = ground arith in
      elim (Bool-cases (text_eq (state_name new) (p.vars 28))) [
        | inl same ↦ rw same written
        | inr other ↦ rw other (put_actions-vars (available_actions new) _ j m ∙ written)
      ]

  -- The variables that the end of playing empties.
  ended-vars :
      (p : Player S) (j : ℕ)
      → 28 ≢ j
      → 16 ≢ j
      → (feedback_effect play_stopped p).vars j
        ≡ (put_current (some []) (some []) (put_uri (some []) (some []) p)).vars j
  unfolding feedback_effect
  ended-vars p j n m = enter-vars stopped _ j n m

  module _ ⦃u : Upnp⦄ ⦃x : Ixml⦄ where
    -- When the output reports, in any reached context, that the next stream has started, the call
    -- comes back, the next URI and its metadata have become those of the transport and of the
    -- current track, there is no next URI any more, and the state is as before.
    pub next_stream-HasAdvanced :
        (ctx : Context S)
        → Reached ctx
        → (next : Context S) × (step (told play_started_next_stream) ctx ≡ done (tt, next))
          × HasAdvanced ctx next
    unfolding feedback_effect put_uri put_current
    next_stream-HasAdvanced ctx r =
        let (p, v, k) = reached-shows ctx r in
        let run = step-runs (told play_started_next_stream) 0 ctx p v in
        let same = run.2.shows.shown_values in
        let uri = sym (v.shows.shown_values 1 (omega arith)) in
        let meta = sym (v.shows.shown_values 2 (omega arith)) in
        (
          run.0,
          run.1,
          record {
            same_state = run.2.same_state ∙ sym v.same_state;
            av_uri = same 18 (omega arith) ∙ uri;
            av_uri_meta = same 23 (omega arith) ∙ meta;
            cur_track_uri = same 15 (omega arith) ∙ uri;
            cur_track_meta = same 3 (omega arith) ∙ meta;
            next_av_uri = same 1 (omega arith);
            next_av_uri_meta = same 2 (omega arith);
          },
        )

    -- When the output reports, in any reached context, that playing has ended, the call comes back,
    -- the state is stopped, no URI and no metadata of the transport or of the current track are
    -- left, and both numbers of tracks are 0.
    pub ended-HasEnded :
        (ctx : Context S)
        → Reached ctx
        → (next : Context S) × (step (told play_stopped) ctx ≡ done (tt, next)) × HasEnded next
    unfolding put_uri put_current track_count
    ended-HasEnded ctx r =
        let (p, v, k) = reached-shows ctx r in
        let run = step-runs (told play_stopped) 0 ctx p v in
        let same = run.2.shows.shown_values in
        (
          run.0,
          run.1,
          record {
            is_stopped = run.2.same_state ∙ feedback-state play_stopped p;
            no_uri = same 18 (omega arith) ∙ ended-vars p 18 (omega arith) (omega arith);
            no_meta = same 23 (omega arith) ∙ ended-vars p 23 (omega arith) (omega arith);
            no_current_uri = same 15 (omega arith) ∙ ended-vars p 15 (omega arith) (omega arith);
            no_current_meta = same 3 (omega arith) ∙ ended-vars p 3 (omega arith) (omega arith);
            no_tracks = same 17 (omega arith) ∙ ended-vars p 17 (omega arith) (omega arith);
            no_current_track = same 14 (omega arith) ∙ ended-vars p 14 (omega arith) (omega arith);
          },
        )
