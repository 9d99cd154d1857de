-- ===== src/Output.antt =====
-- src/output.c and the `struct output_module` of src/output_module.h: the layer between the services
-- and the one output module, here over the state `S` of a module.
use gmrender_resurrect_silan.Base.{Option, none, some, Text, text_eq, if◌then◌else◌, List, [], ◌∷◌}
use gmrender_resurrect_silan.Base.Int.{ℤ, pos, minus_one}

-- enum PlayFeedback of src/output.h
pub data PlayFeedback : Type 0 where
  play_stopped play_started_next_stream : PlayFeedback

-- A function pointer that is NULL is `none`. A getter gives its result code and what it wrote.
pub record OutputModule (S : Type 0) : Type 0 where
  pub shortname : Text
  pub description : Text
  pub init : Option (S → ℤ × S)
  pub set_uri : Option (Option Text → S → S)
  pub set_next_uri : Option (Option Text → S → S)
  pub play : Option (S → ℤ × S)
  pub stop : Option (S → ℤ × S)
  pub pause : Option (S → ℤ × S)
  pub seek : Option (ℤ → S → ℤ × S)
  pub set_transport_callback : Option (S → S)
  pub get_position : Option (S → (ℤ × ℤ × ℤ) × S)
  pub get_volume : Option (S → (ℤ × ℤ) × S)
  pub set_volume : Option (ℤ → S → ℤ × S)
  pub get_mute : Option (S → (ℤ × ℤ) × S)
  pub set_mute : Option (ℤ → S → ℤ × S)

-- The global `output_module`, once it is selected, and the state of its device.
pub record Output (S : Type 0) : Type 0 where
  pub output_module : Option (OutputModule S)
  pub device : S

abbrev pub applied {ℓ κ} : {A : Type ℓ} {B : Type κ} → A → Option (A → B) → Option B
applied a none = none
applied a (some f) = some (f a)

module _ {S : Type 0} where
  -- `output_module && output_module->f`
  abbrev pub pointer {ℓ} :
      {F : Type ℓ} → (OutputModule S → Option F) → Option (OutputModule S) → Option F
  pointer field none = none
  pointer field (some m) = field m

  -- A call that returns -1 if there is no such function.
  abbrev pub call_or_fail : Option (S → ℤ × S) → Output S → ℤ × Output S
  call_or_fail none o = (minus_one, o)
  call_or_fail (some f) o = let (rc, d) = f o.device in (rc, record o { device = d })

  -- A call that does nothing if there is no such function.
  abbrev pub call_or_skip : Option (S → S) → Output S → Output S
  call_or_skip none o = o
  call_or_skip (some f) o = record o { device = f o.device }

  unfoldable pub output_set_uri : Option Text → Output S → Output S
  output_set_uri uri o = call_or_skip (applied uri (pointer (λ m. m.set_uri) o.output_module)) o

  unfoldable pub output_set_next_uri : Option Text → Output S → Output S
  output_set_next_uri uri o =
      call_or_skip (applied uri (pointer (λ m. m.set_next_uri) o.output_module)) o

  unfoldable pub output_play : Output S → ℤ × Output S
  output_play o = call_or_fail (pointer (λ m. m.play) o.output_module) o

  unfoldable pub output_pause : Output S → ℤ × Output S
  output_pause o = call_or_fail (pointer (λ m. m.pause) o.output_module) o

  unfoldable pub output_stop : Output S → ℤ × Output S
  output_stop o = call_or_fail (pointer (λ m. m.stop) o.output_module) o

  unfoldable pub output_seek : ℤ → Output S → ℤ × Output S
  output_seek position o = call_or_fail (applied position (pointer (λ m. m.seek) o.output_module)) o

  unfoldable pub output_set_transport_callback : Output S → Output S
  output_set_transport_callback o =
      call_or_skip (pointer (λ m. m.set_transport_callback) o.output_module) o

  -- Where the call fails, nothing is written to the variables of the caller.
  unfoldable pub output_get_position : Output S → (ℤ × ℤ × ℤ) × Output S
  output_get_position o = elim (pointer (λ m. m.get_position) o.output_module) [
    | none ↦ ((minus_one, pos 0, pos 0), o)
    | some f ↦ let (r, d) = f o.device in (r, record o { device = d })
  ]

  abbrev pub get_or_keep : ℤ → Option (S → (ℤ × ℤ) × S) → Output S → (ℤ × ℤ) × Output S
  get_or_keep before none o = ((minus_one, before), o)
  get_or_keep before (some f) o = let (r, d) = f o.device in (r, record o { device = d })

  unfoldable pub output_get_volume : ℤ → Output S → (ℤ × ℤ) × Output S
  output_get_volume value o = get_or_keep value (pointer (λ m. m.get_volume) o.output_module) o

  unfoldable pub output_set_volume : ℤ → Output S → ℤ × Output S
  output_set_volume value o =
      call_or_fail (applied value (pointer (λ m. m.set_volume) o.output_module)) o

  unfoldable pub output_get_mute : ℤ → Output S → (ℤ × ℤ) × Output S
  output_get_mute value o = get_or_keep value (pointer (λ m. m.get_mute) o.output_module) o

  unfoldable pub output_set_mute : ℤ → Output S → ℤ × Output S
  output_set_mute value o =
      call_or_fail (applied value (pointer (λ m. m.set_mute) o.output_module)) o

  -- The module that output_init selects from the table: the first for NULL, else the one of that
  -- name.
  unfoldable pub select : Option Text → List (OutputModule S) → Option (OutputModule S)
  select shortname [] = none
  select none (m ∷ ms) = some m
  select (some name) (m ∷ ms) = if text_eq m.shortname name then some m else select (some name) ms

  -- The start of the selected module; a module without `init` is ready at once.
  unfoldable pub start_module : Option (OutputModule S) → Output S → ℤ × Output S
  start_module none o = (minus_one, o)
  start_module (some m) o = elim m.init [
    | none ↦ (pos 0, record o { output_module = some m })
    | some f ↦ let (rc, d) = f o.device in (rc, record { output_module = some m; device = d })
  ]

  -- output_init, called once, before any module is selected.
  unfoldable pub output_init : Option Text → List (OutputModule S) → Output S → ℤ × Output S
  unfolding select start_module
  output_init shortname modules o = start_module (select shortname modules) o
