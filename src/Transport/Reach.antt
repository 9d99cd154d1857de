-- ===== src/Transport/Reach.antt =====
-- The contexts that the AVTransport service of src/upnp_transport.c reaches, and the moves of its
-- state machine.
use gmrender_resurrect_silan.Base.{◌≡◌, sym, ap, ◌∙◌, subst, false}
use gmrender_resurrect_silan.Base.Int.{ℤ}
use gmrender_resurrect_silan.Base.Outcome.{done, done-injective}
use gmrender_resurrect_silan.Xml.{Ixml}
use gmrender_resurrect_silan.Action.{Upnp, ActionEvent}
use gmrender_resurrect_silan.Output.{Output}
use gmrender_resurrect_silan.Transport.Model.{Context}
use gmrender_resurrect_silan.Transport.Player.{Player, Action, effect}
use gmrender_resurrect_silan.Transport.Simulation.{Sim}
use gmrender_resurrect_silan.Transport.Request.{Step, handler, step}
use gmrender_resurrect_silan.Transport.Setup
use gmrender_resurrect_silan.Transport.Consistency.{
  IsSteady, IsConsistent, IsSteady-IsConsistent, Consistent,
}
use gmrender_resurrect_silan.Transport.Moves.{Moves, effect-Moves}
use gmrender_resurrect_silan.Transport.Refine.Requests.{step_effect, step-runs, handler-runs}
use gmrender_resurrect_silan.Transport.Refine.Start.{initial_player, boot-runs}
use gmrender_resurrect_silan.Transport.Session.{
  Sim-IsIdleAs, step-Consistent, initial-Consistent, values-IsSteady,
}

module _ {S : Type 0} ⦃u : Upnp⦄ ⦃x : Ixml⦄ where
  -- The contexts between steps, from the start on.
  pub data Reached : Context S → Type 0 where
    booted :
        (ev : ActionEvent) (output : Output S) (ctx : Context S)
        → Setup.boot ev output ≡ done ctx
        → Reached ctx
    stepped :
        (st : Step) (ctx next : Context S)
        → Reached ctx
        → step st ctx ≡ done (tt, next)
        → Reached next

  Sim-same : {c d : Context S} {p : Player S} → c ≡ d → Sim false 0 c p → Sim false 0 d p
  Sim-same {p = p} e v = subst (λ c. Sim false 0 c p) e v

  -- Every context reached shows a consistent Player.
  pub reached-shows :
      (ctx : Context S) → Reached ctx → (p : Player S) × Sim false 0 ctx p × Consistent p
  reached-shows ctx (booted ev output _ e) =
      let (c, e', v) = boot-runs ev output in
      (
        initial_player ev output,
        Sim-same (done-injective (sym e' ∙ e)) v,
        initial-Consistent ev output,
      )
  reached-shows next (stepped st ctx _ r e) =
      let (p, v, k) = reached-shows ctx r in
      let run = step-runs st 0 ctx p v in
      (
        step_effect st p,
        Sim-same (ap (λ r. r.1) (done-injective (sym run.1 ∙ e))) run.2,
        step-Consistent st p k,
      )

  -- In every context that the service reaches, every request and every call from the output comes
  -- back: no assertion fails, no mutex is taken twice, nothing is read through NULL, and changes nest
  -- no deeper than two.
  pub reached-progress :
      (ctx : Context S)
      → Reached ctx
      → (st : Step) → (next : Context S) × (step st ctx ≡ done (tt, next))
  reached-progress ctx r st =
      let (p, v, k) = reached-shows ctx r in let run = step-runs st 0 ctx p v in (run.0, run.1)

  reached-IsSteady :
      (ctx : Context S) → Reached ctx → IsSteady ctx.transport_state ctx.service.values
  reached-IsSteady ctx r =
      let (p, v, k) = reached-shows ctx r in values-IsSteady ctx p (Sim-IsIdleAs ctx p v) k

  -- In every context that the service reaches, the state is stopped, playing or paused and
  -- TransportState names it, CurrentTransportActions are the actions of the state, NumberOfTracks tells whether there is an
  -- AVTransportURI, and CurrentTrack whether there is a CurrentTrackURI.
  pub reached-IsConsistent :
      (ctx : Context S) → Reached ctx → IsConsistent ctx.transport_state ctx.service.values
  reached-IsConsistent ctx r = IsSteady-IsConsistent _ _ (reached-IsSteady ctx r)

  -- A handler that comes back from a reached context moves the state as its action may: play goes
  -- from stopped and from paused to playing, pause from playing to paused, stop to stopped, and
  -- every action may stay where it is.
  pub reached-Moves :
      (a : Action) (ctx next : Context S) (rc : ℤ)
      → Reached ctx
      → handler a ctx ≡ done (rc, next)
      → Moves a ctx.transport_state next.transport_state
  reached-Moves a ctx next rc r e =
      let (p, v, k) = reached-shows ctx r in
      let run = handler-runs a 0 ctx p v in
      let same : next.transport_state ≡ (effect a p).1.state =
        ap (λ r. r.1.transport_state) (done-injective (sym e ∙ run.1)) ∙ run.2.same_state in
      rw (v.same_state, same) (effect-Moves a p)
