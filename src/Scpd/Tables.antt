-- ===== src/Scpd/Tables.antt =====
-- How the tables of the services are written.
pub mod Transport
pub mod Control
pub mod Connmgr
use gmrender_resurrect_silan.Base.{
  ℕ, zero, suc, Bool, false, Option, none, List, [], ◌∷◌, Text, String, codes,
}
use gmrender_resurrect_silan.Scpd.{
  Argument, ParamDir, ParamDatatype, type_unknown, ParamRange, VarMeta,
}

-- A `struct argument`.
abbrev pub argument : String → ParamDir → ℕ → Argument
argument name direction statevar = record {
  arg_name = codes name;
  direction = direction;
  statevar = statevar;
}

-- A `struct var_meta`.
abbrev pub meta :
    Bool → ParamDatatype → Option (List Text) → Option ParamRange → Option Text → VarMeta
meta sendevents datatype allowed_values allowed_range default_value = record {
  sendevents = sendevents;
  datatype = datatype;
  allowed_values = allowed_values;
  allowed_range = allowed_range;
  default_value = default_value;
}

-- The entry of a table, which ends with that of an unknown variable.
abbrev pub meta_at : List VarMeta → ℕ → VarMeta
meta_at [] i = meta false type_unknown none none none
meta_at (m ∷ metas) zero = m
meta_at (m ∷ metas) (suc i) = meta_at metas i
