-- ===== src/Scpd/Related.antt =====
-- The tables of a service whose arguments name variables of its own, and its SCPD document.
use gmrender_resurrect_silan.Base.{
  ℕ, zero, suc, ◌+◌, ◌≤◌, ◌<◌, ◌≡◌, refl, sym, ap, ◌∙◌, subst, ◌⊎◌, inl, inr, Bool, true, false,
  ◌||◌, Option, none, some, List, [], ◌∷◌, ◌++◌, Text, text_eq, text_eq_refl, text_eq→eq, or_empty,
  ltb→lt, Bool-cases, ◌==◌, ==_iff, arith,
}
use gmrender_resurrect_silan.Base.Outcome.{done}
use gmrender_resurrect_silan.Xml.{Element}
use gmrender_resurrect_silan.Scpd.{Argument, Described, generate_scpd}
use gmrender_resurrect_silan.Scpd.Whole.{whole_scpd}
use gmrender_resurrect_silan.Scpd.Complete.{
  are_below, list_below, lists_below, is_closed, is_complete, both, generate_scpd-whole,
}
use gmrender_resurrect_silan.Scpd.Reading.{
  declared_variables, related_variables, names_related, action_related, all_related,
  document-related,
}
use gmrender_resurrect_silan.Scpd.Declared.{all_names, document-declares}

abbrev pub is_in : Text → List Text → Bool
is_in t [] = false
is_in t (u ∷ us) = text_eq u t || is_in t us

in-append :
    (t : Text) (us vs : List Text)
    → is_in t (us ++ vs) ≡ true
    → (is_in t us ≡ true) ⊎ (is_in t vs ≡ true)
in-append t [] vs h = inr h
in-append t (u ∷ us) vs h = elim (Bool-cases (text_eq u t)) [
  | inl e ↦ inl (rw e refl)
  | inr e ↦ elim (in-append t us vs (subst (λ b. b || is_in t (us ++ vs) ≡ true) e h)) [
    | inl k ↦ inl (ground (arith, k))
    | inr k ↦ inr k
  ]
]

module _ (srv : Described) where
  -- A text that is the name of a variable of the service.
  abbrev Names : Text → Type 0
  Names t = (j : ℕ) × (j < srv.described_count) × (t ≡ or_empty (srv.described_names j))

  argument-Names :
      (t : Text) (args : List Argument)
      → are_below srv.described_count args ≡ true
      → is_in t (names_related srv args) ≡ true
      → Names t
  argument-Names t [] h k = ground (arith, k)
  argument-Names t (arg ∷ args) h k =
      let (here, later) = both _ _ h in
      elim (Bool-cases (text_eq (or_empty (srv.described_names arg.statevar)) t)) [
        | inl e ↦ (arg.statevar, ltb→lt _ _ here, sym (text_eq→eq _ t e))
        | inr e ↦
            argument-Names t args later
              (subst (λ b. b || is_in t (names_related srv args) ≡ true) e k)
      ]

  action-Names :
      (t : Text) (args : Option (List Argument))
      → list_below srv.described_count args ≡ true
      → is_in t (action_related srv args) ≡ true
      → Names t
  action-Names t none h k = ground (arith, k)
  action-Names t (some args) h k = argument-Names t args h k

  actions-Names :
      (t : Text) (rounds i : ℕ)
      → lists_below srv rounds i ≡ true
      → is_in t (all_related srv rounds i) ≡ true
      → Names t
  unfolding all_related
  actions-Names t zero i h k = ground (arith, k)
  actions-Names t (suc rounds) i h k =
      let (here, later) = both _ _ h in
      elim (in-append t (action_related srv (srv.action_arguments i))
        (all_related srv rounds (suc i)) k) [
          | inl e ↦ action-Names t (srv.action_arguments i) here e
          | inr e ↦ actions-Names t rounds (suc i) later e
        ]

  name-listed :
      (rounds i j : ℕ)
      → i ≤ j
      → j < i + rounds
      → is_in (or_empty (srv.described_names j)) (all_names srv rounds i) ≡ true
  unfolding all_names
  name-listed zero i j le lt = let h : 1 ≤ 0 = omega (arith, le, lt) in elim h [ ]
  name-listed (suc rounds) i j le lt = elim (Bool-cases (i == j)) [
    | inl e ↦
        let same = (==_iff i j).0 e in
        rw
          (ap
              (λ (k : ℕ).
                text_eq (or_empty (srv.described_names k)) (or_empty (srv.described_names j)))
              same
            ∙ text_eq_refl (or_empty (srv.described_names j)))
          refl
    | inr e ↦
        ground (arith, name-listed rounds (suc i) j (ground (arith, le, e)) (omega (arith, lt)))
  ]

  whole-declared :
      (t : Text)
      → is_closed srv ≡ true
      → is_in t (related_variables (whole_scpd srv)) ≡ true
      → is_in t (declared_variables (whole_scpd srv)) ≡ true
  whole-declared t closed h =
      let (j, lt, e) =
        actions-Names t srv.command_count 0 closed
          (ap (is_in t) (sym (document-related srv)) ∙ h) in
      ap (is_in t) (document-declares srv)
      ∙ ap (λ u. is_in u (all_names srv srv.described_count 0)) e
      ∙ name-listed srv.described_count 0 j (omega arith) (omega (arith, lt))

  -- If every argument is related to a variable of the service, every action has a name, and every
  -- variable has a name and a known type, then the SCPD document is generated without a failing
  -- assertion, and in it every relatedStateVariable of an argument of an action is the name of a
  -- stateVariable that the document declares.
  pub related-declared :
      is_closed srv ≡ true
      → is_complete srv ≡ true
      → (doc : Element) × (generate_scpd srv ≡ done doc)
        × ((t : Text)
            → is_in t (related_variables doc) ≡ true
            → is_in t (declared_variables doc) ≡ true)
  related-declared closed complete =
      (whole_scpd srv, generate_scpd-whole srv closed complete, λ t h. whole-declared t closed h)
