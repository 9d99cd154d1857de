-- ===== src/Variables/Writes.antt =====
-- The writes of a transaction of src/variable-container.c: what they make of the variables, and what a
-- client is told of them.
use gmrender_resurrect_silan.Base.{
  ℕ, ◌<◌, ◌≡◌, refl, ap, ◌∙◌, inl, inr, Bool, true, not, ◌||◌, Option, some, List, [], ◌∷◌,
  append-nil, Text, or_empty, text_eq, if◌then◌else◌, arith, Bool-cases,
}
use gmrender_resurrect_silan.Base.Int.{pos}
use gmrender_resurrect_silan.Base.Outcome.{Outcome, done, ◌>>=◌}
use gmrender_resurrect_silan.Xml.{Ixml}
use gmrender_resurrect_silan.Variables.Mask.{testbit}
use gmrender_resurrect_silan.Variables.Builder
use gmrender_resurrect_silan.Variables.Model.{Service, Collector, collector, update}
use gmrender_resurrect_silan.Variables.Change.{change_var}
use gmrender_resurrect_silan.Variables.Quiet.{noted, noted_all, heard_all}
use gmrender_resurrect_silan.Variables.Nesting.{changed, change-Quiet}

-- A write that is made only if it changes the value.
abbrev pub assign : (ℕ → Text) → ℕ → Text → ℕ → Text
assign f i value = if text_eq value (f i) then f else update f i value

abbrev pub assign_all : (ℕ → Text) → List (ℕ × Text) → ℕ → Text
assign_all f [] = f
assign_all f ((i, value) ∷ rest) = assign_all (assign f i value) rest

-- The writes that a client is told of: those that change a value and are not ignored.
abbrev pub events : (ℕ → Option Text) → ℕ → (ℕ → Text) → List (ℕ × Text) → List (Text × Text)
events names mask f [] = []
events names mask f ((i, value) ∷ rest) =
    let later = events names mask (assign f i value) rest in
    if text_eq value (f i) || testbit mask i then later else (or_empty (names i), value) ∷ later

-- Every variable of the list is in use.
abbrev pub AllNamed : (ℕ → Option Text) → ℕ → List (ℕ × Text) → Type 0
AllNamed names n [] = Unit
AllNamed names n ((i, value) ∷ rest) =
    (i < n) × ((name : Text) × (names i ≡ some name)) × AllNamed names n rest

-- The state after the writes, as long as the transaction is open.
abbrev pub pending : List (ℕ × Text) → Collector → Service → Service
pending cs c s = record s {
  values = assign_all s.values cs;
  last_change = some (record c {
    builder =
        Builder.add_all c.builder (events s.variable_names c.not_eventable_variables s.values cs);
  });
}

changed-pending :
    (i : ℕ) (value name : Text) (c : Collector) (s : Service)
    → s.variable_names i ≡ some name
    → s.last_change ≡ some c
    → s.callbacks ≡ collector ∷ []
    → changed i value c s ≡ pending ((i, value) ∷ []) c s
unfolding noted noted_all heard_all
changed-pending i value name c s named l e = ground (arith, append-nil s.heard)

-- A write that the collector ignores.
pub changed-ignored :
    (i : ℕ) (value : Text) (c : Collector) (s : Service)
    → testbit c.not_eventable_variables i ≡ true
    → s.last_change ≡ some c
    → s.callbacks ≡ collector ∷ []
    → changed i value c s ≡ record s { values = assign s.values i value }
unfolding noted noted_all heard_all
changed-ignored i value c s g l e = ground (arith, append-nil s.heard)

noted_one : ℕ → Text → Collector → Service → Collector
noted_one i value c s = record c {
  builder =
      Builder.add_all c.builder
        (events s.variable_names c.not_eventable_variables s.values ((i, value) ∷ []));
}

pending-cons :
    (i : ℕ) (value : Text) (rest : List (ℕ × Text)) (c : Collector) (s : Service)
    → pending rest (noted_one i value c s) (pending ((i, value) ∷ []) c s)
      ≡ pending ((i, value) ∷ rest) c s
unfolding noted_one
pending-cons i value rest c s =
    elim (Bool-cases (text_eq value (s.values i) || testbit c.not_eventable_variables i)) [
      | inl silent ↦ rw silent
      | inr told ↦ rw told
    ]

module _ ⦃x : Ixml⦄ where
  -- Calls of VariableContainer_change in a row, as the actions of a service make them.
  unfoldable pub change_each : List (ℕ × Text) → Service → Outcome Service
  change_each [] s = done s
  change_each ((i, value) ∷ rest) s = do
    (b, s') ← change_var (pos i) (some value) s
    change_each rest s'

  -- One write of an open transaction.
  change-pending :
      (i : ℕ) (value name : Text) (c : Collector) (s : Service)
      → i < s.variable_num
      → s.variable_names i ≡ some name
      → s.last_change ≡ some c
      → 0 < c.open_transactions
      → s.callbacks ≡ collector ∷ []
      → (b : Bool) × (change_var (pos i) (some value) s ≡ done (b, pending ((i, value) ∷ []) c s))
  unfolding change_var
  change-pending i value name c s h named l o e = (
    not (text_eq value (s.values i)),
    change-Quiet 1 i (some value) c s h l (inr (o, name, named))
        ∙ ap (λ t. done (not (text_eq value (s.values i)), t))
            (changed-pending i value name c s named l e),
  )

  pub change_each-pending :
      (cs : List (ℕ × Text)) (c : Collector) (s : Service)
      → AllNamed s.variable_names s.variable_num cs
      → s.last_change ≡ some c
      → 0 < c.open_transactions
      → s.callbacks ≡ collector ∷ []
      → change_each cs s ≡ done (pending cs c s)
  unfolding change_each noted_one
  change_each-pending [] c s a l o e = ground arith
  change_each-pending ((i, value) ∷ rest) c s a l o e =
      let (name, named) = a.1 in
      let (b, runs) = change-pending i value name c s a.0 named l o e in
      rw runs (
        change_each-pending rest (noted_one i value c s) (pending ((i, value) ∷ []) c s) a.2 refl o
          e
        ∙ ap done (pending-cons i value rest c s))
