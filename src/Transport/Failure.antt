-- ===== src/Transport/Failure.antt =====
-- Actions of src/upnp_transport.c that report a failure, and the state.
use gmrender_resurrect_silan.Base.{
  ◌≡◌, refl, sym, ap, ◌∙◌, Bool, true, false, Option, none, some, Text, codes, Bool-cases, inl, inr,
  arith,
}
use gmrender_resurrect_silan.Base.Int.{ℤ, is_zero}
use gmrender_resurrect_silan.Base.Outcome.{done, done-injective}
use gmrender_resurrect_silan.Xml.{Ixml}
use gmrender_resurrect_silan.Action.{Upnp}
use gmrender_resurrect_silan.Output.{output_play, output_pause}
use gmrender_resurrect_silan.Transport.Table.{zero_time}
use gmrender_resurrect_silan.Transport.Model.{
  Context, TransportState, stopped, playing, paused_playback,
}
use gmrender_resurrect_silan.Transport.Player.{
  Player, write, with_output, ask, instance_given, given_instance, playing_effect, play_effect,
  pausing_effect, pause_effect, Action, body_effect, effect, pause, play, stop,
}
use gmrender_resurrect_silan.Transport.Request.{handler}
use gmrender_resurrect_silan.Transport.Moves.{Moves, body_effect-Moves}
use gmrender_resurrect_silan.Transport.Refine.Requests.{handler-runs}
use gmrender_resurrect_silan.Transport.Reach.{Reached, reached-shows}

-- The actions that never move the state.
abbrev is_mover : Action → Bool
is_mover play = true
is_mover pause = true
is_mover stop = true
is_mover a = false

Moves-same : (a : Action) (st new : TransportState) → is_mover a ≡ false → Moves a st new → new ≡ st
Moves-same a st new e (Moves.stay _ _) = refl
Moves-same _ _ _ e Moves.begin = absurd (ground arith)
Moves-same _ _ _ e Moves.resume = absurd (ground arith)
Moves-same _ _ _ e Moves.hold = absurd (ground arith)
Moves-same _ _ _ e (Moves.halt _) = absurd (ground arith)

module _ {S : Type 0} ⦃u : Upnp⦄ where
  playing-fails :
      (rc : ℤ) (p : Player S)
      → is_zero (playing_effect (rc, p)).0 ≡ false
      → (playing_effect (rc, p)).1.state ≡ p.state
  playing-fails rc p e = elim (Bool-cases (is_zero rc)) [
    | inl yes' ↦ absurd (ground arith)
    | inr no' ↦ rw no' refl
  ]

  play-fails :
      (st : TransportState) (p : Player S)
      → is_zero (play_effect st p).0 ≡ false
      → (play_effect st p).1.state ≡ p.state
  unfolding play_effect
  play-fails stopped p e =
      let r = with_output (output_play p.output) (write 8 zero_time p) in playing-fails r.0 r.1 e
  play-fails paused_playback p e =
      let r = with_output (output_play p.output) p in playing-fails r.0 r.1 e
  play-fails playing p e = refl
  play-fails _ p e = refl

  pausing-fails :
      (rc : ℤ) (p : Player S)
      → is_zero (pausing_effect (rc, p)).0 ≡ false
      → (pausing_effect (rc, p)).1.state ≡ p.state
  pausing-fails rc p e = elim (Bool-cases (is_zero rc)) [
    | inl yes' ↦ absurd (ground arith)
    | inr no' ↦ rw no' refl
  ]

  pause-fails :
      (st : TransportState) (p : Player S)
      → is_zero (pause_effect st p).0 ≡ false
      → (pause_effect st p).1.state ≡ p.state
  unfolding pause_effect
  pause-fails playing p e = let r = with_output (output_pause p.output) p in pausing-fails r.0 r.1 e
  pause-fails paused_playback p e = refl
  pause-fails _ p e = refl

  body_effect-fails :
      (a : Action) (p : Player S)
      → is_zero (body_effect a p).0 ≡ false
      → (body_effect a p).1.state ≡ p.state
  unfolding body_effect
  body_effect-fails play p e = play-fails p.state p e
  body_effect-fails pause p e = pause-fails p.state p e
  body_effect-fails stop p e = absurd (ground arith)
  body_effect-fails a p e =
      Moves-same a p.state (body_effect a p).1.state refl (body_effect-Moves a p)

  instance-fails :
      (a : Action) (v : Option Text) (p : Player S)
      → is_zero (instance_given (v, p) (body_effect a)).0 ≡ false
      → (instance_given (v, p) (body_effect a)).1.state ≡ p.state
  instance-fails a none p e = refl
  instance-fails a (some value) p e = body_effect-fails a p e

  effect-fails :
      (a : Action) (p : Player S) → is_zero (effect a p).0 ≡ false → (effect a p).1.state ≡ p.state
  unfolding effect given_instance
  effect-fails a p e = let r = ask (codes "InstanceID") p in instance-fails a r.0 r.1 e

  -- A handler that comes back from a reached context with a code other than 0 leaves the state as it
  -- was: playing or pausing that fails in the output, an action that the state does not allow, or an
  -- argument that is missing moves nothing.
  pub failed-stays :
      ⦃x : Ixml⦄ (a : Action) (ctx next : Context S) (rc : ℤ)
      → Reached ctx
      → handler a ctx ≡ done (rc, next)
      → is_zero rc ≡ false
      → next.transport_state ≡ ctx.transport_state
  failed-stays a ctx next rc r e f =
      let (p, v, k) = reached-shows ctx r in
      let run = handler-runs a 0 ctx p v in
      let same = done-injective (sym e ∙ run.1) in
      ap (λ r. r.1.transport_state) same
      ∙ run.2.same_state
      ∙ effect-fails a p (ap (λ r. is_zero r.0) (sym same) ∙ f)
      ∙ sym v.same_state
