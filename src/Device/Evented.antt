-- ===== src/Device/Evented.antt =====
-- The variables that a new subscriber is sent by handle_subscription_request of src/upnp_device.c.
use gmrender_resurrect_silan.Base.{
  ℕ, zero, suc, ◌+◌, ◌<◌, ◌≤◌, ◌≡◌, refl, ap, sym, ◌∙◌, Bool, true, false, not, ◌&&◌, ◌||◌, none,
  some, List, [], ◌∷◌, Text, codes, strlen, starts_with, text_eq, ◌==◌, inl, inr, Bool-cases,
  lt→ltb, Option-cases, if◌then◌else◌, arith,
}
use gmrender_resurrect_silan.Variables.Builder
use gmrender_resurrect_silan.Variables.Model.{Service, get}
use gmrender_resurrect_silan.Device.{is_evented, add_evented, add_all_evented}

-- The variables in use from `i` on, with their names.
abbrev pub used : Service → ℕ → ℕ → List (Text × Text)
used s zero i = []
used s (suc rounds) i =
    let later = used s rounds (suc i) in
    elim (s.variable_names i) [ none ↦ later | some name ↦ (name, s.values i) ∷ later ]

-- The first bytes of a text.
abbrev pub first : ℕ → Text → Text
first zero t = []
first (suc n) [] = []
first (suc n) (c ∷ t) = c ∷ first n t

-- LastChange, and the variables whose names begin with the eleven bytes of A_ARG_TYPE_.
abbrev pub is_hidden : Text → Bool
is_hidden name = text_eq (codes "LastChange") name || text_eq (codes "A_ARG_TYPE_") (first 11 name)

-- The variables that a subscriber is sent.
abbrev pub evented : List (Text × Text) → List (Text × Text)
evented [] = []
evented ((name, value) ∷ rest) =
    let later = evented rest in if is_hidden name then later else (name, value) ∷ later

starts_with-first : (s t : Text) → starts_with s t ≡ text_eq s (first (strlen s) t)
starts_with-first [] t = refl
starts_with-first (a ∷ s) [] = refl
starts_with-first (a ∷ s) (b ∷ t) = ap (λ r. (a == b) && r) (starts_with-first s t)

not-or : (a b : Bool) → not a && not b ≡ not (a || b)
not-or true b = refl
not-or false b = refl

is_evented-hidden : (name : Text) → is_evented name ≡ not (is_hidden name)
is_evented-hidden name =
    ap (λ r. not (text_eq (codes "LastChange") name) && not r)
      (starts_with-first (codes "A_ARG_TYPE_") name)
    ∙ not-or (text_eq (codes "LastChange") name) (text_eq (codes "A_ARG_TYPE_") (first 11 name))

used-unused :
    (s : Service) (rounds i : ℕ)
    → s.variable_names i ≡ none
    → used s (suc rounds) i ≡ used s rounds (suc i)
used-unused s rounds i e = rw (e, used) refl

used-used :
    (s : Service) (rounds i : ℕ) (name : Text)
    → s.variable_names i ≡ some name
    → used s (suc rounds) i ≡ (name, s.values i) ∷ used s rounds (suc i)
used-used s rounds i name e = rw (e, used) refl

pub used-locked :
    (s : Service) (b : Bool) (rounds i : ℕ)
    → used (record s { locked = b }) rounds i ≡ used s rounds i
used-locked s b zero i = refl
used-locked s b (suc rounds) i =
    ap
      (λ later. elim (s.variable_names i) [ none ↦ later | some name ↦ (name, s.values i) ∷ later ])
      (used-locked s b rounds (suc i))

add_evented-unused :
    (s : Service) (i : ℕ) (b : Builder.Builder) → s.variable_names i ≡ none → add_evented s i b ≡ b
unfolding add_evented get
add_evented-unused s i b e = ground (arith, e)

add_evented-named :
    (s : Service) (i : ℕ) (name : Text) (b : Builder.Builder)
    → i < s.variable_num
    → s.variable_names i ≡ some name
    → add_evented s i b ≡ (if is_evented name then Builder.add b name (s.values i) else b)
unfolding add_evented get
add_evented-named s i name b h e = ground (arith, e, lt→ltb i s.variable_num h)

added-if :
    (hidden : Bool) (name value : Text) (b : Builder.Builder)
    → (if not hidden then Builder.add b name value else b)
      ≡ Builder.add_all b (if hidden then [] else (name, value) ∷ [])
added-if true name value b = refl
added-if false name value b = refl

add_evented-used :
    (s : Service) (i : ℕ) (name : Text) (b : Builder.Builder)
    → i < s.variable_num
    → s.variable_names i ≡ some name
    → add_evented s i b ≡ Builder.add_all b (evented ((name, s.values i) ∷ []))
add_evented-used s i name b h e =
    add_evented-named s i name b h e
    ∙ ap (λ (k : Bool). if k then Builder.add b name (s.values i) else b) (is_evented-hidden name)
    ∙ added-if (is_hidden name) name (s.values i) b

evented-first :
    (name value : Text) (rest : List (Text × Text)) (b : Builder.Builder)
    → Builder.add_all (Builder.add_all b (evented ((name, value) ∷ []))) (evented rest)
      ≡ Builder.add_all b (evented ((name, value) ∷ rest))
evented-first name value rest b = elim (Bool-cases (is_hidden name)) [
  | inl yes' ↦ rw yes' refl
  | inr no' ↦ rw no' refl
]

pub add_all_evented-evented :
    (s : Service) (rounds i : ℕ) (b : Builder.Builder)
    → i + rounds ≤ s.variable_num
    → add_all_evented s rounds i b ≡ Builder.add_all b (evented (used s rounds i))
unfolding add_all_evented
add_all_evented-evented s zero i b h = refl
add_all_evented-evented s (suc rounds) i b h =
    add_all_evented-evented s rounds (suc i) (add_evented s i b) (omega arith)
    ∙ elim (Option-cases (s.variable_names i)) [
      | inl e ↦
          ap (λ c. Builder.add_all c (evented (used s rounds (suc i)))) (add_evented-unused s i b e)
          ∙ ap (λ l. Builder.add_all b (evented l)) (sym (used-unused s rounds i e))
      | inr (name, e) ↦
          ap (λ c. Builder.add_all c (evented (used s rounds (suc i))))
            (add_evented-used s i name b (omega arith) e)
          ∙ evented-first name (s.values i) (used s rounds (suc i)) b
          ∙ ap (λ l. Builder.add_all b (evented l)) (sym (used-used s rounds i name e))
    ]
