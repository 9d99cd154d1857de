-- ===== src/Connmgr/Info.antt =====
-- The text that connmgr_init puts together, and the answers that it shows in.
use gmrender_resurrect_silan.Base.{
  ℕ, ◌+◌, ◌≤◌, ◌≡◌, refl, sym, ap, ◌∙◌, Bool, true, false, none, some, List, [], ◌∷◌, ◌++◌,
  append_assoc, append-nil, Text, or_empty, codes, strlen, strlen-append, text_eq, text_eq→eq, leb,
  Bool-cases, inl, inr, arith,
}
use gmrender_resurrect_silan.Base.Int.{pos}
use gmrender_resurrect_silan.Base.Outcome.{done, fault, overrun, ◌>>=◌}
use gmrender_resurrect_silan.Xml.{Ixml}
use gmrender_resurrect_silan.Action.{Upnp, ActionEvent, add_response, append_value, append_variable}
use gmrender_resurrect_silan.Variables.Model.{Service, update, lock, unlock, get}
use gmrender_resurrect_silan.Variables.Change.{change_var, change_value, call_all}
use gmrender_resurrect_silan.Variables.Collector
use gmrender_resurrect_silan.Connmgr.Service.{
  put, fill, without_last, terminated, sink_protocol_info, connmgr_init, var_count,
  var_sink_proto_info, var_src_proto_info, connmgr_variable_names, connmgr_default_values,
  get_protocol_info, get_service,
}

-- One type in the text.
abbrev pub protocol_info : Text → Text
protocol_info m = codes "http-get:*:" ++ (m ++ codes ":*")

-- The types, with commas between them.
abbrev pub joined : Text → List Text → Text
joined m [] = protocol_info m
joined m (n ∷ types) = protocol_info m ++ (codes "," ++ joined n types)

-- The types, with a comma behind each.
abbrev pub listed : List Text → Text
listed [] = []
listed (m ∷ types) = (codes "http-get:*:" ++ (m ++ codes ":*,")) ++ listed types

-- The bytes that the loop asks for.
abbrev pub asked_for : List Text → ℕ
asked_for [] = 0
asked_for (m ∷ types) = strlen m + 14 + asked_for types

leb-true : (a b : ℕ) → a ≤ b → leb a b ≡ true
leb-true a b h = ground (arith, h)

put-fits : (n : ℕ) (t buf : Text) → strlen buf + strlen t ≤ n → put n t buf ≡ done (buf ++ t)
unfolding put
put-fits n t buf h = rw (leb-true (strlen buf + strlen t) n h) refl

regroup : (b p m s l : Text) → (((b ++ p) ++ m) ++ s) ++ l ≡ b ++ ((p ++ (m ++ s)) ++ l)
regroup b p m s l = simp append_assoc refl

-- If what is in front of `p` fits the buffer so far, the loop never writes behind the buffer.
fill-lists :
    (types : List Text) (n : ℕ) (buf : Text)
    → strlen buf ≤ n
    → fill types n buf ≡ done (n + asked_for types, buf ++ listed types)
unfolding fill
fill-lists [] n buf h =
    ap done (
      ap (λ (k : ℕ). (k, buf)) (omega arith) ∙ ap (λ (t : Text). (n + 0, t)) (sym (append-nil buf)))
fill-lists (m ∷ types) n buf h =
    let size = n + (strlen m + 1 + 8 + 3 + 2) in
    let pre = codes "http-get:*:" in
    let suf = codes ":*," in
    let b₁ = strlen-append buf pre in
    let b₂ = strlen-append (buf ++ pre) m in
    let b₃ = strlen-append ((buf ++ pre) ++ m) suf in
    let first = put-fits size pre buf (omega (arith, h)) in
    let second = put-fits size m (buf ++ pre) (omega (arith, h, b₁)) in
    let third = put-fits size suf ((buf ++ pre) ++ m) (omega (arith, h, b₁, b₂)) in
    let rest = fill-lists types size (((buf ++ pre) ++ m) ++ suf) (omega (arith, h, b₁, b₂, b₃)) in
    rw (first, second, third)
      (rest
        ∙ ap (λ (k : ℕ). done (k, (((buf ++ pre) ++ m) ++ suf) ++ listed types)) (omega arith)
        ∙ ap (λ (t : Text). done (n + asked_for (m ∷ types), t))
            (regroup buf pre m suf (listed types)))

strlen-listed : (types : List Text) → strlen (listed types) ≡ asked_for types
strlen-listed [] = refl
strlen-listed (m ∷ types) = omega (
  arith,
  strlen-append (codes "http-get:*:" ++ (m ++ codes ":*,")) (listed types),
  strlen-append m (codes ":*,"),
  strlen-listed types,
)

without_last-append : (t : Text) (c : ℕ) → without_last (t ++ c ∷ []) ≡ t
without_last-append [] c = refl
without_last-append (a ∷ []) c = refl
without_last-append (a ∷ b ∷ t) c = ap (λ u. a ∷ u) (without_last-append (b ∷ t) c)

listed-joined : (m : Text) (types : List Text) → listed (m ∷ types) ≡ joined m types ++ codes ","
listed-joined m [] = simp (append_assoc, append-nil) refl
listed-joined m (n ∷ types) = rw (listed-joined n types) (simp append_assoc refl)

terminated-runs :
    (n : ℕ) (buf t : Text) → without_last buf ≡ t → strlen t + 1 ≤ n → terminated (n, buf) ≡ done t
unfolding terminated
terminated-runs n buf t e h = rw (e, leb-true (strlen t + 1) n h) refl

-- A list that is not empty is put together without a write behind the buffer, whose size is just
-- what the text and its NUL take up.
sink_protocol_info-joined :
    (m : Text) (types : List Text) → sink_protocol_info (m ∷ types) ≡ done (joined m types)
unfolding sink_protocol_info
sink_protocol_info-joined m types =
    let last = ap without_last (listed-joined m types) ∙ without_last-append (joined m types) 44 in
    let size = strlen-listed (m ∷ types) in
    let split = ap strlen (listed-joined m types) ∙ strlen-append (joined m types) (codes ",") in
    ap (λ r. r >>= terminated) (fill-lists (m ∷ types) 0 [] (omega arith))
    ∙ terminated-runs (0 + asked_for (m ∷ types)) (listed (m ∷ types)) (joined m types) last
        (omega (arith, size, split))

-- The service with its tables, at rest.
abbrev service_with : (ℕ → Text) → Service
service_with values = record {
  variable_num = var_count;
  variable_names = connmgr_variable_names;
  values = values;
  callbacks = [];
  last_change = none;
  locked = false;
  sent = [];
  heard = [];
}

abbrev first_values : ℕ → Text
first_values i = or_empty (connmgr_default_values i)

get_service-fresh : get_service ≡ done (service_with first_values)
unfolding get_service Collector.new_container
get_service-fresh = refl

module _ ⦃x : Ixml⦄ where
  -- A change of the variable leaves it with the text, whether it had it before or not.
  change-stores :
      (text : Text)
      → (b : Bool) × (values : ℕ → Text) × (change_var
            (pos var_sink_proto_info)
            (some text)
            (service_with first_values)
          ≡ done (b, service_with values))
        × (values var_sink_proto_info ≡ text)
        × (values var_src_proto_info ≡ [])
  unfolding change_var change_value call_all connmgr_default_values
  change-stores text = elim (Bool-cases (text_eq text (first_values var_sink_proto_info))) [
    | inl e ↦ (false, first_values, rw e refl, sym (text_eq→eq text _ e), refl)
    | inr e ↦ (true, update first_values var_sink_proto_info text, rw e refl, refl, refl)
  ]

  -- The service starts with any list of types that is not empty, and then answers GetProtocolInfo:
  -- no assertion fails and nothing is written behind the buffer. The Source is empty, and the Sink
  -- has every type, in the order of the list, as "http-get:*:TYPE:*" with commas in between.
  pub protocol_info-advertises :
      ⦃u : Upnp⦄ (m : Text) (types : List Text) (ev : ActionEvent)
      → (s : Service) × ((get_service >>= connmgr_init (m ∷ types)) ≡ done (pos 0, s))
        × (get_protocol_info s ev ≡ (
            let answered =
              add_response (codes "Sink") (joined m types) (add_response (codes "Source") [] ev) in
            done (answered.status, s, answered)))
  unfolding connmgr_init get_protocol_info append_variable append_value lock unlock get
      connmgr_variable_names
  protocol_info-advertises m types ev =
      let text = joined m types in
      let (b, values, runs, sink, source) = change-stores text in
      (
        service_with values,
        rw (get_service-fresh, sink_protocol_info-joined m types, runs) refl,
        rw (source, sink) refl,
      )

  -- Without a registered type the start writes outside of its buffer of 0 bytes.
  pub no_types-overruns : (s : Service) → connmgr_init [] s ≡ fault overrun
  unfolding connmgr_init sink_protocol_info fill terminated
  no_types-overruns s = refl
