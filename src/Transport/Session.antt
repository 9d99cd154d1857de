-- ===== src/Transport/Session.antt =====
-- The AVTransport service of src/upnp_transport.c from its start on: any requests and any calls from
-- the output, one after another.
use gmrender_resurrect_silan.Base.{
  ℕ, ◌≡◌, refl, sym, ap, ◌∙◌, arith, ◌≢◌, false, Option, none, some, List, [], ◌∷◌,
}
use gmrender_resurrect_silan.Base.Outcome.{done}
use gmrender_resurrect_silan.Xml.{Ixml}
use gmrender_resurrect_silan.Action.{Upnp, Request, ActionEvent}
use gmrender_resurrect_silan.Variables.Frame.{open_count}
use gmrender_resurrect_silan.Output.{Output}
use gmrender_resurrect_silan.Transport.Table.{transport_default_values}
use gmrender_resurrect_silan.Transport.Model.{Context, state_name, available_actions, track_count}
use gmrender_resurrect_silan.Transport.Player.{Player, Action}
use gmrender_resurrect_silan.Transport.Simulation.{Sim}
use gmrender_resurrect_silan.Transport.Request.{
  transport_actions, find_action, Step, asked, told, steps,
}
use gmrender_resurrect_silan.Transport.Setup
use gmrender_resurrect_silan.Transport.Consistency.{IsSteady, Consistent}
use gmrender_resurrect_silan.Transport.Consistency.Actions.{effect-Consistent, feedback-Consistent}
use gmrender_resurrect_silan.Transport.Refine.Requests.{
  found_effect, step_effect, steps_effect, steps-runs,
}
use gmrender_resurrect_silan.Transport.Refine.Start.{initial_player, boot-runs}

-- What a context looks like between two steps: the mutex is free, no transaction is open, and all
-- variables but LastChange, the state, the output and the event are the Player's.
pub record IsIdleAs {S : Type 0} (ctx : Context S) (p : Player S) : Type 0 where
  pub free : ctx.service.locked ≡ false
  pub closed : open_count ctx.service ≡ 0
  pub same_values : (j : ℕ) → 26 ≢ j → ctx.service.values j ≡ p.vars j
  pub same_state : ctx.transport_state ≡ p.state
  pub same_output : ctx.output ≡ p.output
  pub same_event : ctx.event ≡ p.event

module _ {S : Type 0} where
  pub Sim-IsIdleAs : (ctx : Context S) (p : Player S) → Sim false 0 ctx p → IsIdleAs ctx p
  Sim-IsIdleAs ctx p v = record {
    free = v.shows.shown_lock;
    closed = v.shows.shown_open;
    same_values = v.shows.shown_values;
    same_state = v.same_state;
    same_output = v.same_output;
    same_event = v.same_event;
  }

  module _ ⦃u : Upnp⦄ ⦃x : Ixml⦄ where
    -- The service starts with any output, and then comes through any sequence of requests and calls
    -- from the output: no assertion fails, the mutex is never taken twice and is free at the end, no
    -- transaction is left open, and the variables, the state, the output and the event are what the
    -- effects of the steps make of the stopped Player that the service starts with.
    pub session-completes :
        (ev : ActionEvent) (output : Output S) (sts : List Step)
        → (start final : Context S) × (Setup.boot ev output ≡ done start)
          × (steps sts start ≡ done (tt, final))
          × IsIdleAs final (steps_effect sts (initial_player ev output))
    session-completes ev output sts =
        let (start, booted, v) = boot-runs ev output in
        let r = steps-runs sts 0 start _ v in (start, r.0, booted, r.1, Sim-IsIdleAs r.0 _ r.2)

    found-Consistent :
        (found : Option Action) (request : Request) (p : Player S)
        → Consistent p
        → Consistent (found_effect found request p).1
    found-Consistent none request p c = c
    found-Consistent (some a) request p c = effect-Consistent a _ c

    pub step-Consistent : (st : Step) (p : Player S) → Consistent p → Consistent (step_effect st p)
    step-Consistent (asked request) p c =
        found-Consistent (find_action transport_actions request.action_name) request p c
    step-Consistent (told fb) p c = feedback-Consistent fb p c

    steps-Consistent :
        (sts : List Step) (p : Player S) → Consistent p → Consistent (steps_effect sts p)
    steps-Consistent [] p c = c
    steps-Consistent (st ∷ rest) p c = steps-Consistent rest _ (step-Consistent st p c)

    pub initial-Consistent :
        (ev : ActionEvent) (output : Output S) → Consistent (initial_player ev output)
    unfolding transport_default_values state_name available_actions track_count
    initial-Consistent ev output = record {
      named = refl;
      offered = refl;
      counted = refl;
      current = refl;
    }

    pub values-IsSteady :
        (ctx : Context S) (p : Player S)
        → IsIdleAs ctx p
        → Consistent p
        → IsSteady ctx.transport_state ctx.service.values
    values-IsSteady ctx p v c =
        let same = v.same_values in
        record {
          named = same 28 (omega arith) ∙ c.named ∙ ap state_name (sym v.same_state);
          offered =
              ap available_actions v.same_state ∙ c.offered ∙ ap some (sym (same 16 (omega arith)));
          counted =
              same 17 (omega arith)
              ∙ c.counted
              ∙ ap (λ t. track_count (some t)) (sym (same 18 (omega arith)));
          current =
              same 14 (omega arith)
              ∙ c.current
              ∙ ap (λ t. track_count (some t)) (sym (same 15 (omega arith)));
        }
