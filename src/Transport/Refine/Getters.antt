-- ===== src/Transport/Refine/Getters.antt =====
-- The actions of src/upnp_transport.c that answer with variables, against their effects on a Player.
use gmrender_resurrect_silan.Base.{ℕ, ◌+◌, ◌≡◌, refl, true, false, Text, Bool-cases, inl, inr}
use gmrender_resurrect_silan.Base.Int.{ℤ, is_zero}
use gmrender_resurrect_silan.Xml.{Ixml}
use gmrender_resurrect_silan.Action.{Upnp}
use gmrender_resurrect_silan.Output.{output_get_position}
use gmrender_resurrect_silan.Transport.Table.{transport_variable_names}
use gmrender_resurrect_silan.Transport.Model.{Context, M, ◌>>◌, append}
use gmrender_resurrect_silan.Transport.Actions.{
  get_media_info, get_transport_info, get_current_transportactions, get_transport_settings,
  get_device_caps, store_times, update_track_time, get_position_info,
}
use gmrender_resurrect_silan.Transport.Player.{
  Player, reply, clock, update_time, Action, body_effect, effect, media_info_effect,
  transport_info_effect, position_info_effect,
}
use gmrender_resurrect_silan.Transport.Simulation.{
  is_open, Sim, Runs, runs-bind, return-runs, replace_var-runs, on_output-runs, append-runs,
  service_lock-runs, service_unlock-runs,
}
use gmrender_resurrect_silan.Transport.Refine.Instance.{Refines, with_instanceid-runs}

module _ {S : Type 0} ⦃u : Upnp⦄ ⦃x : Ixml⦄ where
  -- Append, then the rest.
  append-then :
      {A : Type 0} {b : A} {q : Player S} {m : M S A} (n i : ℕ) (name : Text) (ctx : Context S)
      (p : Player S)
      → is_open i ≡ true
      → Sim false n ctx p
      → ((c : Context S) → Sim false n c (reply i name p) → Runs false n m c b q)
      → Runs false n (append i name >> m) ctx b q
  append-then n i name ctx p h v next = runs-bind _ (append-runs n i name ctx p h v) next

  pub get_transport_settings-runs :
      Refines S get_transport_settings (effect Action.get_transport_settings)
  unfolding get_transport_settings effect body_effect
  get_transport_settings-runs n ctx p v =
      with_instanceid-runs n _ _ ctx p (λ c q w. return-runs w) v

  pub get_device_caps-runs : Refines S get_device_caps (effect Action.get_device_capabilities)
  unfolding get_device_caps effect body_effect
  get_device_caps-runs n ctx p v = with_instanceid-runs n _ _ ctx p (λ c q w. return-runs w) v

  pub get_current_transportactions-runs :
      Refines S get_current_transportactions (effect Action.get_current_transport_actions)
  unfolding get_current_transportactions effect body_effect is_open transport_variable_names
  get_current_transportactions-runs n ctx p v =
      with_instanceid-runs n _ _ ctx p (λ c q w. append-then n 16 _ c q refl w λ c w. return-runs w)
        v

  pub get_transport_info-runs : Refines S get_transport_info (effect Action.get_transport_info)
  unfolding get_transport_info effect body_effect transport_info_effect is_open
      transport_variable_names
  get_transport_info-runs n ctx p v =
      with_instanceid-runs n _ _ ctx p
        (λ c q w. append-then n 28 _ c _ refl w λ c w.
          append-then n 0 _ c _ refl w λ c w. append-then n 11 _ c _ refl w λ c w. return-runs w)
        v

  pub get_media_info-runs : Refines S get_media_info (effect Action.get_media_info)
  unfolding get_media_info effect body_effect media_info_effect is_open transport_variable_names
  get_media_info-runs n ctx p v =
      with_instanceid-runs n _ _ ctx p
        (λ c q w. append-then n _ _ c _ refl w λ c w. append-then n _ _ c _ refl w λ c w.
          append-then n _ _ c _ refl w λ c w. append-then n _ _ c _ refl w λ c w.
            append-then n _ _ c _ refl w λ c w. append-then n _ _ c _ refl w λ c w.
              append-then n _ _ c _ refl w λ c w.
                append-then n _ _ c _ refl w
                  λ c w. append-then n _ _ c _ refl w λ c w. return-runs w)
        v

  store_times-runs :
      (n : ℕ) (rc duration position : ℤ) (ctx : Context S) (p : Player S)
      → Sim false n ctx p
      → Runs false n
          (store_times (rc, duration, position))
          ctx
          tt
          (clock ((rc, duration, position), p))
  unfolding store_times is_open transport_variable_names
  store_times-runs n rc duration position ctx p v = elim (Bool-cases (is_zero rc)) [
    | inl yes' ↦ rw yes' (
        runs-bind _ (service_lock-runs n ctx p v) λ c w.
          runs-bind _ (replace_var-runs true (n + 1) 27 _ c _ refl w) λ c w.
            runs-bind _ (replace_var-runs true (n + 1) 8 _ c _ refl w)
              λ c w. service_unlock-runs n c _ w)
    | inr no' ↦ rw no' (return-runs v)
  ]

  update_track_time-runs :
      (n : ℕ) (ctx : Context S) (p : Player S)
      → Sim false n ctx p
      → Runs false n update_track_time ctx tt (update_time p)
  unfolding update_track_time update_time
  update_track_time-runs n ctx p v =
      let times = (output_get_position p.output).0 in
      runs-bind _ (on_output-runs false n output_get_position ctx p v)
        λ c w. store_times-runs n times.0 times.1 times.2 c _ w

  pub get_position_info-runs : Refines S get_position_info (effect Action.get_position_info)
  unfolding get_position_info effect body_effect position_info_effect is_open
      transport_variable_names
  get_position_info-runs n ctx p v =
      with_instanceid-runs n _ _ ctx p
        (λ c q w. runs-bind _ (update_track_time-runs n c q w) λ c w.
          append-then n 14 _ c _ refl w λ c w. append-then n 27 _ c _ refl w λ c w.
            append-then n 3 _ c _ refl w λ c w. append-then n 15 _ c _ refl w λ c w.
              append-then n 8 _ c _ refl w λ c w. append-then n 13 _ c _ refl w λ c w.
                append-then n 4 _ c _ refl w
                  λ c w. append-then n 19 _ c _ refl w λ c w. return-runs w)
        v
