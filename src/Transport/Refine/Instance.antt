-- ===== src/Transport/Refine/Instance.antt =====
-- How every action of src/upnp_transport.c begins: it wants an InstanceID.
use gmrender_resurrect_silan.Base.{ℕ, Bool, true, false, Option, none, some, Text, codes}
use gmrender_resurrect_silan.Base.Int.{ℤ}
use gmrender_resurrect_silan.Action.{Upnp, get_string, upnp_soap_e_invalid_args}
use gmrender_resurrect_silan.Transport.Model
use gmrender_resurrect_silan.Transport.Model.{
  Context, M, ◌>>=◌, ◌>>◌, TransportState, stopped, playing, transitioning, paused_playback,
  paused_recording, recording, no_media_present, obtain_instanceid, with_instanceid,
}
use gmrender_resurrect_silan.Transport.Player.{Player, complain, instance_given, given_instance}
use gmrender_resurrect_silan.Transport.Simulation.{
  Sim, Runs, runs-bind, return-runs, fetch-runs, raise-runs,
}

-- The call does to every context what `effect` does to the Player that it shows.
abbrev pub Refines : (S : Type 0) → M S ℤ → (Player S → ℤ × Player S) → Type 0
Refines S m effect =
    (n : ℕ) (ctx : Context S) (p : Player S)
    → Sim false n ctx p
    → Runs false n m ctx (effect p).0 (effect p).1

abbrev is_given : Option Text → Bool
is_given none = false
is_given (some value) = true

module _ {S : Type 0} ⦃u : Upnp⦄ where
  abbrev checked : Option Text → Player S → Player S
  checked none p = complain upnp_soap_e_invalid_args (codes "Missing InstanceID") p
  checked (some value) p = p

  check_instance-runs :
      (n : ℕ) (value : Option Text) (ctx : Context S) (p : Player S)
      → Sim false n ctx p
      → Runs false n (Model.check_instance value) ctx (is_given value) (checked value p)
  check_instance-runs n none ctx p v =
      runs-bind _ (raise-runs false n _ _ ctx p v) λ c w. return-runs w
  check_instance-runs n (some value) ctx p v = return-runs v

  -- An action does with its InstanceID what it does, and fails without one.
  if_obtained-runs :
      (n : ℕ) (m : M S ℤ) (body : Player S → ℤ × Player S) (value : Option Text) (ctx : Context S)
      (p : Player S)
      → ((c : Context S) (q : Player S) → Sim false n c q → Runs false n m c (body q).0 (body q).1)
      → Sim false n ctx (checked value p)
      → Runs false n
          (Model.if_obtained (is_given value) m)
          ctx
          (instance_given (value, p) body).0
          (instance_given (value, p) body).1
  if_obtained-runs n m body none ctx p h v = return-runs v
  if_obtained-runs n m body (some value) ctx p h v = h ctx p v

  pub with_instanceid-runs :
      (n : ℕ) (m : M S ℤ) (body : Player S → ℤ × Player S) (ctx : Context S) (p : Player S)
      → ((c : Context S) (q : Player S) → Sim false n c q → Runs false n m c (body q).0 (body q).1)
      → Sim false n ctx p
      → Runs false n (with_instanceid m) ctx (given_instance body p).0 (given_instance body p).1
  unfolding obtain_instanceid given_instance
  with_instanceid-runs n m body ctx p h v =
      let key = codes "InstanceID" in
      let value = (get_string key p.event).0 in
      let q : Player S = record p { event = (get_string key p.event).1 } in
      runs-bind _
        (runs-bind _ (fetch-runs false n key ctx p v) λ c w. check_instance-runs n value c q w)
        λ c w. if_obtained-runs n m body value c q h w
