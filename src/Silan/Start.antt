-- ===== src/Silan/Start.antt =====
-- output_silan_init of src/output_silan.c and the settings that it reads.
use gmrender_resurrect_silan.Base.{
  ℕ, zero, suc, ◌+◌, Bool, true, false, ◌&&◌, Option, none, some, List, [], ◌∷◌, ◌++◌, Text, codes,
  strlen, ltb, leb, ◌==◌, if◌then◌else◌,
}
use gmrender_resurrect_silan.Base.Int.{ℤ, pos, minus_one, ltb_ℤ}
use gmrender_resurrect_silan.Base.Outcome.{Outcome, done, fault, assertion, null_pointer, ◌>>=◌}
use gmrender_resurrect_silan.Decimal.{atoi}
use gmrender_resurrect_silan.Connmgr.MimeTypes.{register_mime_type}
use gmrender_resurrect_silan.Silan.Model.{Silan, Ipc, slmp_state_stop, dies, set_amp_power}
use gmrender_resurrect_silan.Silan.Player.{set_spdifin}

abbrev pub lower : ℕ → ℕ
lower c = if leb 65 c && leb c 90 then c + 32 else c

-- `strncasecmp(s, t, strlen(s)) == 0`
unfoldable pub starts_with_nocase : Text → Text → Bool
starts_with_nocase [] t = true
starts_with_nocase (a ∷ s) [] = false
starts_with_nocase (a ∷ s) (b ∷ t) = (lower a == lower b) && starts_with_nocase s t

-- strcasestr: the text from the first place on at which the key stands.
unfoldable pub strcasestr : Text → Text → Option Text
unfolding starts_with_nocase
strcasestr [] key = if starts_with_nocase key [] then some [] else none
strcasestr (b ∷ t) key =
    let later = strcasestr t key in if starts_with_nocase key (b ∷ t) then some (b ∷ t) else later

abbrev pub skip : ℕ → Text → Text
skip zero t = t
skip (suc n) [] = []
skip (suc n) (a ∷ t) = skip n t

-- The number behind a key, if the key is found.
unfoldable pub setting : Text → ℤ → Option Text → ℤ
unfolding strcasestr
setting key before none = before
setting key before (some buf) = elim (strcasestr buf key) [
  | none ↦ before
  | some at ↦ atoi (skip (strlen key) at)
]

-- A file of settings: whether fopen gives a stream, the size that stat gives, and what fread gives.
pub record Stored : Type 0 where
  pub opens : Bool
  pub size : Option ℕ
  pub content : Option Text

abbrev pub read_sized : Option ℕ → Option Text → Option Text
read_sized none content = none
read_sized (some n) content = if ltb 0 n then content else none

-- output_silan_read_file. The test for a failed fopen never holds: a stream is not below 0. So a
-- file that cannot be opened ends in fread or in fclose of NULL.
unfoldable pub read_file : Stored → Outcome (Option Text)
read_file f = if f.opens then done (read_sized f.size f.content) else fault null_pointer

-- What the board answers while the module starts.
pub record Boot : Type 0 where
  pub gpio_fd : ℤ
  pub slmp : Stored
  pub system : Stored
  pub boot_input_fd : ℤ
  pub send_id : ℤ
  pub recv_id : ℤ

-- The buttons are inputs; the line's mute, the power and the mute of the amplifier, which are LED2
-- and LED3, and LED4 are outputs.
abbrev pub board_pins : List (ℕ × Bool)
board_pins = (52, true) ∷ (51, true) ∷ (50, true) ∷ (49, true) ∷ (13, false) ∷ (12, false) ∷ []

abbrev pub assert_open : ℤ → Outcome (Unit {0})
assert_open fd = if ltb_ℤ fd (pos 0) then fault assertion else done tt

-- `silan_data` with its settings; the pins are set up, and all else stays.
abbrev pub configured : ℤ → Option Text → Option Text → Silan → Silan
configured input_fd slmp system s = record s {
  state = slmp_state_stop;
  status = 0;
  input_fd = input_fd;
  uri = none;
  uri_next = none;
  mute = setting (codes "<mute>") (pos 0) system;
  volume = setting (codes "<volume>") (pos 0) system;
  duration = pos 0;
  position = pos 0;
  padmux = setting (codes "<setpadmux>") (pos 0) slmp;
  pin_modes = board_pins ++ s.pin_modes;
}

module _ ⦃ipc : Ipc⦄ where
  -- The end of output_silan_init.
  unfoldable pub bring_up : Silan → Silan
  unfolding set_amp_power set_spdifin register_mime_type
  bring_up s =
      let s = set_spdifin (set_amp_power true s) in
      record s { supported_types = register_mime_type (codes "audio/*") s.supported_types }

  -- output_silan_init
  unfoldable pub init : Boot → Silan → Outcome (ℤ × Silan)
  unfolding read_file setting bring_up
  init boot s = do
    _ ← assert_open boot.gpio_fd
    slmp ← read_file boot.slmp
    system ← read_file boot.system
    _ ← assert_open boot.send_id
    _ ← assert_open boot.recv_id
    done (pos 0, bring_up (configured boot.boot_input_fd slmp system s))

  abbrev pub or_dies : Silan → Outcome (ℤ × Silan) → ℤ × Silan
  or_dies s (done r) = r
  or_dies s (fault e) = (minus_one, dies e s)

  -- output_silan_init as the function of the module: a fault is kept in the state.
  unfoldable pub start : Boot → Silan → ℤ × Silan
  unfolding init
  start boot s = or_dies s (init boot s)
