-- ===== src/Transport/Simulation.antt =====
-- When a Context shows a Player, and how the functions that the handlers of src/upnp_transport.c
-- are made of run under this relation.
use gmrender_resurrect_silan.Base.{
  ℕ, ◌+◌, ◌≡◌, refl, ap, ◌∙◌, Bool, true, false, not, ◌&&◌, Option, none, some, Text, or_empty,
  text_eq, ltb, Option-cases, inl, inr, ◌==◌, arith,
}
use gmrender_resurrect_silan.Base.Int.{ℤ, pos}
use gmrender_resurrect_silan.Base.Outcome.{Outcome, done}
use gmrender_resurrect_silan.Xml.{Ixml}
use gmrender_resurrect_silan.Variables.Model.{Service, lock, unlock}
use gmrender_resurrect_silan.Variables.Change.{change_var}
use gmrender_resurrect_silan.Variables.Collector
use gmrender_resurrect_silan.Variables.View.{
  Shows, InUse, get-shown, change_var-shown, service_lock-shown, service_unlock-shown,
}
use gmrender_resurrect_silan.Action.{
  Upnp, ActionEvent, get_string, set_error, append_variable, add_response,
}
use gmrender_resurrect_silan.Output.{Output}
use gmrender_resurrect_silan.Transport.Table.{transport_variable_names}
use gmrender_resurrect_silan.Transport.Model.{
  Context, M, ◌>>=◌, return, asserted, on_service, no_result, on_output, on_output_, TransportState,
  get_state, set_state, get_var, fetch, raise, append, service_lock, service_unlock, replace_var,
}
use gmrender_resurrect_silan.Transport.Player.{Player, write}

-- The variables that the actions use: those with a name, but LastChange.
unfoldable pub is_open : ℕ → Bool
is_open i =
    ltb i 31 && not (26 == i) && elim (transport_variable_names i) [ none ↦ false | some n ↦ true ]

is_open-InUse : (i : ℕ) → is_open i ≡ true → InUse 26 31 transport_variable_names i
unfolding is_open
is_open-InUse i h = (
  ground arith,
  elim (Option-cases (transport_variable_names i)) [
    | inl e ↦ absurd (ground arith)
    | inr named ↦ named
  ],
  ground arith,
)

-- The view of a service whose mutex is taken or given back.
pub Shows-lock :
    (before after : Bool) (n : ℕ) (s : Service) (f : ℕ → Text)
    → Shows 26 31 transport_variable_names before n s f
    → Shows 26 31 transport_variable_names after n (record s { locked = after }) f
Shows-lock before after n s f v = record {
  settled = record {
    keeper = v.settled.keeper;
    kept = v.settled.kept;
    number = v.settled.number;
    within = v.settled.within;
    ignored = v.settled.ignored;
  };
  shown_num = v.shown_num;
  shown_names = v.shown_names;
  shown_lock = refl;
  shown_open = v.shown_open;
  shown_values = v.shown_values;
}

lock-free : (s : Service) → s.locked ≡ false → lock s ≡ done (record s { locked = true })
unfolding lock
lock-free s e = rw e

append_variable-shown :
    ⦃u : Upnp⦄ (n i : ℕ) (name : Text) (s : Service) (f : ℕ → Text) (ev : ActionEvent)
    → is_open i ≡ true
    → Shows 26 31 transport_variable_names false n s f
    → append_variable (pos i) name s ev
      ≡ done (record s { locked = false }, add_response name (f i) ev)
unfolding append_variable unlock
append_variable-shown n i name s f ev h v =
    let w = Shows-lock false true n s f v in
    rw (
      lock-free s v.shown_lock,
      get-shown 26 31 transport_variable_names true n i (record s { locked = true }) f
          (is_open-InUse i h) w,
    )

module _ {S : Type 0} where
  pub record Sim (held : Bool) (n : ℕ) (ctx : Context S) (p : Player S) : Type 0 where
    pub shows : Shows 26 31 transport_variable_names held n ctx.service p.vars
    pub same_state : ctx.transport_state ≡ p.state
    pub same_output : ctx.output ≡ p.output
    pub same_event : ctx.event ≡ p.event

  -- The call comes back with `a`, and leaves a context that shows `p`.
  pub record Runs {A : Type 0} (held : Bool) (n : ℕ) (m : M S A) (ctx : Context S) (a : A)
      (p : Player S) : Type 0 where
    pub 0 as final : Context S
    pub 1 as outcome : m ctx ≡ done (a, final)
    pub 2 as shown : Sim held n final p

  bind-done :
      {A B : Type 0} (m : M S A) (f : A → M S B) (ctx c : Context S) (a : A)
      → m ctx ≡ done (a, c)
      → (m >>= f) ctx ≡ f a c
  unfolding ◌>>=◌
  bind-done m f ctx c a e = ground arith

  pub runs-bind :
      {A B : Type 0} {h : Bool} {n : ℕ} {k : Bool} {l : ℕ} {m : M S A} {ctx : Context S} {a : A}
      {b : B} {p q : Player S} (f : A → M S B)
      → Runs h n m ctx a p
      → ((c : Context S) → Sim h n c p → Runs k l (f a) c b q)
      → Runs k l (m >>= f) ctx b q
  runs-bind {m = m} {ctx = ctx} {a = a} f r next =
      let r' = next r.0 r.2 in (r'.0, bind-done m f ctx r.0 a r.1 ∙ r'.1, r'.2)

  pub return-runs :
      {A : Type 0} {h : Bool} {n : ℕ} {a : A} {ctx : Context S} {p : Player S}
      → Sim h n ctx p
      → Runs h n (return a) ctx a p
  return-runs {ctx = ctx} v = (ctx, refl, v)

  pub asserted-runs :
      {h : Bool} {n : ℕ} (b : Bool) {ctx : Context S} {p : Player S}
      → b ≡ true
      → Sim h n ctx p
      → Runs h n (asserted b) ctx tt p
  asserted-runs b {ctx = ctx} e v = (ctx, rw e, v)

  pub on_service-done :
      {A : Type 0} (f : Service → Outcome (A × Service)) (ctx : Context S) (a : A) (s : Service)
      → f ctx.service ≡ done (a, s)
      → on_service f ctx ≡ done (a, record ctx { service = s })
  on_service-done f ctx a s e = rw (e, on_service)

  pub get_state-runs :
      (held : Bool) (n : ℕ) (ctx : Context S) (p : Player S)
      → Sim held n ctx p
      → Runs held n get_state ctx p.state p
  unfolding get_state
  get_state-runs held n ctx p v = (ctx, ap (λ st. done (st, ctx)) v.same_state, v)

  pub set_state-runs :
      (held : Bool) (n : ℕ) (new : TransportState) (ctx : Context S) (p : Player S)
      → Sim held n ctx p
      → Runs held n (set_state new) ctx tt (record p { state = new })
  unfolding set_state
  set_state-runs held n new ctx p v = (
    record ctx { transport_state = new },
    refl,
    record {
      shows = v.shows;
      same_state = refl;
      same_output = v.same_output;
      same_event = v.same_event;
    },
  )

  pub get_var-runs :
      (held : Bool) (n i : ℕ) (ctx : Context S) (p : Player S)
      → is_open i ≡ true
      → Sim held n ctx p
      → Runs held n (get_var i) ctx (some (p.vars i)) p
  unfolding get_var
  get_var-runs held n i ctx p h v = (
    ctx,
    ap (λ r. done (r, ctx))
        (get-shown 26 31 transport_variable_names held n i ctx.service p.vars (is_open-InUse i h)
          v.shows),
    v,
  )

  pub on_output-runs :
      {A : Type 0} (held : Bool) (n : ℕ) (f : Output S → A × Output S) (ctx : Context S)
      (p : Player S)
      → Sim held n ctx p
      → Runs held n (on_output f) ctx (f p.output).0 (record p { output = (f p.output).1 })
  on_output-runs held n f ctx p v = (
    record ctx { output = (f p.output).1 },
    ap (λ o. done ((f o).0, record ctx { output = (f o).1 })) v.same_output,
    record {
      shows = v.shows;
      same_state = v.same_state;
      same_output = refl;
      same_event = v.same_event;
    },
  )

  pub on_output_-runs :
      (held : Bool) (n : ℕ) (f : Output S → Output S) (ctx : Context S) (p : Player S)
      → Sim held n ctx p
      → Runs held n (on_output_ f) ctx tt (record p { output = f p.output })
  on_output_-runs held n f ctx p v = (
    record ctx { output = f p.output },
    ap (λ o. done (tt, record ctx { output = f o })) v.same_output,
    record {
      shows = v.shows;
      same_state = v.same_state;
      same_output = refl;
      same_event = v.same_event;
    },
  )

  module _ ⦃u : Upnp⦄ where
    pub fetch-runs :
        (held : Bool) (n : ℕ) (key : Text) (ctx : Context S) (p : Player S)
        → Sim held n ctx p
        → Runs held n
            (fetch key)
            ctx
            (get_string key p.event).0
            (record p { event = (get_string key p.event).1 })
    unfolding fetch
    fetch-runs held n key ctx p v = (
      record ctx { event = (get_string key p.event).1 },
      ap (λ ev. done ((get_string key ev).0, record ctx { event = (get_string key ev).1 }))
          v.same_event,
      record {
        shows = v.shows;
        same_state = v.same_state;
        same_output = v.same_output;
        same_event = refl;
      },
    )

    pub raise-runs :
        (held : Bool) (n : ℕ) (code : ℤ) (message : Text) (ctx : Context S) (p : Player S)
        → Sim held n ctx p
        → Runs held n
            (raise code message)
            ctx
            tt
            (record p { event = set_error code message p.event })
    unfolding raise
    raise-runs held n code message ctx p v = (
      record ctx { event = set_error code message p.event },
      ap (λ ev. done (tt, record ctx { event = set_error code message ev })) v.same_event,
      record {
        shows = v.shows;
        same_state = v.same_state;
        same_output = v.same_output;
        same_event = refl;
      },
    )

    append-done :
        (i : ℕ) (name : Text) (ctx : Context S) (s : Service) (ev : ActionEvent)
        → append_variable (pos i) name ctx.service ctx.event ≡ done (s, ev)
        → append i name ctx ≡ done (tt, record ctx { service = s; event = ev })
    unfolding append
    append-done i name ctx s ev e = ground arith

    pub append-runs :
        (n i : ℕ) (name : Text) (ctx : Context S) (p : Player S)
        → is_open i ≡ true
        → Sim false n ctx p
        → Runs false n
            (append i name)
            ctx
            tt
            (record p { event = add_response name (p.vars i) p.event })
    append-runs n i name ctx p h v =
        let e = append_variable-shown n i name ctx.service p.vars ctx.event h v.shows in
        (
          record ctx {
            service = record (ctx.service) { locked = false };
            event = add_response name (p.vars i) p.event;
          },
          append-done i name ctx _ _ e
              ∙ ap
                  (λ ev. done (
                    tt,
                    record ctx {
                      service = record (ctx.service) { locked = false };
                      event = add_response name (p.vars i) ev;
                    },
                  ))
                  v.same_event,
          record {
            shows = Shows-lock false false n ctx.service p.vars v.shows;
            same_state = v.same_state;
            same_output = v.same_output;
            same_event = refl;
          },
        )

  module _ ⦃x : Ixml⦄ where
    pub service_lock-runs :
        (n : ℕ) (ctx : Context S) (p : Player S)
        → Sim false n ctx p
        → Runs true (n + 1) service_lock ctx tt p
    unfolding service_lock
    service_lock-runs n ctx p v =
        let (s, e, w) =
          service_lock-shown 26 31 transport_variable_names n ctx.service p.vars v.shows in
        (
          record ctx { service = s },
          on_service-done (λ r. no_result (Collector.service_lock r)) ctx tt s (ap no_result e),
          record {
            shows = w;
            same_state = v.same_state;
            same_output = v.same_output;
            same_event = v.same_event;
          },
        )

    pub service_unlock-runs :
        (n : ℕ) (ctx : Context S) (p : Player S)
        → Sim true (n + 1) ctx p
        → Runs false n service_unlock ctx tt p
    unfolding service_unlock
    service_unlock-runs n ctx p v =
        let (s, e, w) =
          service_unlock-shown 26 31 transport_variable_names n ctx.service p.vars v.shows in
        (
          record ctx { service = s },
          on_service-done (λ r. no_result (Collector.service_unlock r)) ctx tt s (ap no_result e),
          record {
            shows = w;
            same_state = v.same_state;
            same_output = v.same_output;
            same_event = v.same_event;
          },
        )

    pub replace_var-runs :
        (held : Bool) (n i : ℕ) (value : Option Text) (ctx : Context S) (p : Player S)
        → is_open i ≡ true
        → Sim held n ctx p
        → Runs held n
            (replace_var i value)
            ctx
            (not (text_eq (or_empty value) (p.vars i)))
            (write i (or_empty value) p)
    unfolding replace_var
    replace_var-runs held n i value ctx p h v =
        let (s, e, w) =
          change_var-shown 26 31 transport_variable_names held n i value ctx.service p.vars
            (is_open-InUse i h) v.shows in
        (
          record ctx { service = s },
          on_service-done (change_var (pos i) value) ctx _ s e,
          record {
            shows = w;
            same_state = v.same_state;
            same_output = v.same_output;
            same_event = v.same_event;
          },
        )
