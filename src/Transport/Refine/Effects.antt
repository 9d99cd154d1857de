-- ===== src/Transport/Refine/Effects.antt =====
-- The helpers of the handlers of src/upnp_transport.c against their effects on a Player.
use gmrender_resurrect_silan.Base.{
  ℕ, ◌≡◌, refl, Bool, true, false, not, Option, none, some, Text, text_eq, if◌then◌else◌,
}
use gmrender_resurrect_silan.Xml.{Ixml}
use gmrender_resurrect_silan.Transport.Table.{transport_variable_names}
use gmrender_resurrect_silan.Transport.Model
use gmrender_resurrect_silan.Transport.Model.{
  Context, M, ◌>>=◌, ◌>>◌, TransportState, stopped, playing, transitioning, paused_playback,
  paused_recording, recording, state_name, available_actions, replace_var,
  replace_transport_uri_and_meta, replace_current_uri_and_meta, change_transport_state,
}
use gmrender_resurrect_silan.Transport.Player.{Player, put_uri, put_current, put_actions, enter}
use gmrender_resurrect_silan.Transport.Simulation.{
  is_open, Sim, Runs, runs-bind, return-runs, replace_var-runs, set_state-runs, asserted-runs,
}

module _ {S : Type 0} ⦃x : Ixml⦄ where
  pub put_current-runs :
      (h : Bool) (n : ℕ) (uri meta : Option Text) (ctx : Context S) (p : Player S)
      → Sim h n ctx p
      → (b : Bool) × Runs h n (replace_current_uri_and_meta uri meta) ctx b (put_current uri meta p)
  unfolding replace_current_uri_and_meta put_current is_open transport_variable_names
  put_current-runs h n uri meta ctx p v = (
    _,
    runs-bind _ (replace_var-runs h n 14 _ ctx p refl v) λ c w.
        runs-bind _ (replace_var-runs h n 15 uri c _ refl w)
          λ c w. replace_var-runs h n 3 meta c _ refl w,
  )

  pub put_uri-runs :
      (h : Bool) (n : ℕ) (uri : Option Text) (meta : Text) (ctx : Context S) (p : Player S)
      → Sim h n ctx p
      → (b : Bool) × Runs h n
          (replace_transport_uri_and_meta uri (some meta))
          ctx
          b
          (put_uri uri (some meta) p)
  unfolding replace_transport_uri_and_meta put_uri is_open transport_variable_names
  put_uri-runs h n uri meta ctx p v = (
    _,
    runs-bind _ (replace_var-runs h n 18 uri ctx p refl v) λ c w.
        runs-bind _ (replace_var-runs h n 23 (some meta) c _ refl w) λ c w.
          runs-bind _ (replace_var-runs h n 17 _ c _ refl w)
            λ c w. runs-bind _ (return-runs w) λ c w. return-runs w,
  )

  offer-runs :
      (h : Bool) (n : ℕ) (actions : Option Text) (ctx : Context S) (p : Player S)
      → Sim h n ctx p
      → Runs h n (Model.offer actions) ctx tt (put_actions actions p)
  unfolding is_open transport_variable_names
  offer-runs h n none ctx p v = return-runs v
  offer-runs h n (some actions) ctx p v =
      runs-bind _ (replace_var-runs h n 16 (some actions) ctx p refl v) λ c w. return-runs w

  -- The rest of change_transport_state, once TransportState is written.
  offered-runs :
      (h : Bool) (n : ℕ) (new : TransportState) (same : Bool) (ctx : Context S) (p : Player S)
      → Sim h n ctx p
      → Runs h n
          (Model.if_changed (not same) (Model.offer (available_actions new)))
          ctx
          tt
          (if same then p else put_actions (available_actions new) p)
  offered-runs h n new true ctx p v = return-runs v
  offered-runs h n new false ctx p v = offer-runs h n (available_actions new) ctx p v

  -- change_transport_state goes to any state but the one without a medium, which it asserts.
  pub enter-runs :
      (h : Bool) (n : ℕ) (new : TransportState) (ctx : Context S) (p : Player S)
      → Model.is_present new ≡ true
      → Sim h n ctx p
      → Runs h n (change_transport_state new) ctx tt (enter new p)
  unfolding change_transport_state enter is_open transport_variable_names
  enter-runs h n new ctx p e v = runs-bind _ (set_state-runs h n new ctx p v) λ c w.
      runs-bind _ (asserted-runs (Model.is_present new) e w) λ c w.
        runs-bind _ (replace_var-runs h n 28 (some (state_name new)) c _ refl w)
          λ c w. offered-runs h n new (text_eq (state_name new) (p.vars 28)) c _ w
