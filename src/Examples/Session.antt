-- ===== src/Examples/Session.antt =====
-- A session of the AVTransport service: a title is set and played.
use gmrender_resurrect_silan.Base.{refl, ◌≡◌, false, List, [], ◌∷◌}
use gmrender_resurrect_silan.Base.Int.{ℤ, is_zero}
use gmrender_resurrect_silan.Base.Outcome.{done}
use gmrender_resurrect_silan.Output.{play_stopped, play_started_next_stream}
use gmrender_resurrect_silan.Transport.Model.{Context}
use gmrender_resurrect_silan.Action.{
  get_string, arguments, find_argument, found_argument, first_value,
}
use gmrender_resurrect_silan.Transport.Player.{
  effect, given_instance, body_effect, pause_effect, pause, stop,
}
use gmrender_resurrect_silan.Transport.Simulation.{Runs}
use gmrender_resurrect_silan.Transport.Request.{Step, asked, told, handler, step, steps}
use gmrender_resurrect_silan.Transport.Setup
use gmrender_resurrect_silan.Transport.Consistency.{IsConsistent}
use gmrender_resurrect_silan.Transport.Moves.{Moves}
use gmrender_resurrect_silan.Transport.Refine.Requests.{steps_effect, handler-runs}
use gmrender_resurrect_silan.Transport.Refine.Start.{initial_player, boot-runs}
use gmrender_resurrect_silan.Transport.Session.{IsIdleAs, session-completes}
use gmrender_resurrect_silan.Transport.Reach.{
  Reached, booted, stepped, reached-shows, reached-progress, reached-IsConsistent, reached-Moves,
}
use gmrender_resurrect_silan.Transport.Failure.{failed-stays}
use gmrender_resurrect_silan.Transport.Feedback.{
  HasAdvanced, HasEnded, next_stream-HasAdvanced, ended-HasEnded,
}
use gmrender_resurrect_silan.Examples.{
  example_upnp, example_ixml, example_output, example_event, set_uri_request, play_request,
}

abbrev new_context : Context ℤ
new_context = (boot-runs example_event example_output).0

new_context-Reached : Reached new_context
new_context-Reached =
    booted example_event example_output new_context (boot-runs example_event example_output).1

-- After SetAVTransportURI.
abbrev loaded_context : Context ℤ
loaded_context = (reached-progress new_context new_context-Reached (asked set_uri_request)).0

loaded_context-Reached : Reached loaded_context
loaded_context-Reached =
    stepped (asked set_uri_request) new_context loaded_context new_context-Reached
      (reached-progress new_context new_context-Reached (asked set_uri_request)).1

-- After Play.
abbrev playing_context : Context ℤ
playing_context = (reached-progress loaded_context loaded_context-Reached (asked play_request)).0

playing_context-Reached : Reached playing_context
playing_context-Reached =
    stepped (asked play_request) loaded_context playing_context loaded_context-Reached
      (reached-progress loaded_context loaded_context-Reached (asked play_request)).1

reached-progress_example :
    (next : Context ℤ) × (step (told play_stopped) playing_context ≡ done (tt, next))
reached-progress_example =
    reached-progress playing_context playing_context-Reached (told play_stopped)

reached-IsConsistent_example :
    IsConsistent playing_context.transport_state playing_context.service.values
reached-IsConsistent_example = reached-IsConsistent playing_context playing_context-Reached

-- The handler of Stop, called on the playing service.
stopping :
    Runs false 0
      (handler stop)
      playing_context
      (effect stop (reached-shows playing_context playing_context-Reached).0).0
      (effect stop (reached-shows playing_context playing_context-Reached).0).1
stopping =
    handler-runs stop 0 playing_context _ (reached-shows playing_context playing_context-Reached).1

reached-Moves_example : Moves stop playing_context.transport_state stopping.0.transport_state
reached-Moves_example =
    reached-Moves stop playing_context stopping.0 _ playing_context-Reached stopping.1

abbrev example_steps : List Step
example_steps =
    asked set_uri_request
    ∷ asked play_request
    ∷ told play_started_next_stream
    ∷ told play_stopped
    ∷ []

session-completes_example :
    (start final : Context ℤ) × (Setup.boot example_event example_output ≡ done start)
    × (steps example_steps start ≡ done (tt, final))
    × IsIdleAs final (steps_effect example_steps (initial_player example_event example_output))
session-completes_example = session-completes example_event example_output example_steps

next_stream-HasAdvanced_example :
    (next : Context ℤ) × (step (told play_started_next_stream) playing_context ≡ done (tt, next))
    × HasAdvanced playing_context next
next_stream-HasAdvanced_example = next_stream-HasAdvanced playing_context playing_context-Reached

ended-HasEnded_example :
    (next : Context ℤ) × (step (told play_stopped) playing_context ≡ done (tt, next))
    × HasEnded next
ended-HasEnded_example = ended-HasEnded playing_context playing_context-Reached

-- The handler of Pause, called on the service that has just started.
pausing :
    Runs false 0
      (handler pause)
      new_context
      (effect pause (initial_player example_event example_output)).0
      (effect pause (initial_player example_event example_output)).1
pausing = handler-runs pause 0 new_context _ (boot-runs example_event example_output).2

pausing-fails : is_zero (effect pause (initial_player example_event example_output)).0 ≡ false
unfolding effect given_instance body_effect pause_effect get_string arguments find_argument
    found_argument first_value
pausing-fails = refl

failed-stays_example : pausing.0.transport_state ≡ new_context.transport_state
failed-stays_example =
    failed-stays pause new_context pausing.0 _ new_context-Reached pausing.1 pausing-fails
