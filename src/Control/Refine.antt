-- ===== src/Control/Refine.antt =====
-- What the functions of src/upnp_control.c do to the volume and to the mute state.
use gmrender_resurrect_silan.Base.{
  ℕ, zero, suc, ◌+◌, ◌≤◌, ◌≡◌, refl, sym, ap, ◌∙◌, true, false, leb, none, some, Text, [],
  append-nil, codes, if◌then◌else◌, arith,
}
use gmrender_resurrect_silan.Base.Int.{ℤ, pos, negsuc}
use gmrender_resurrect_silan.Base.Outcome.{done}
use gmrender_resurrect_silan.Xml.{Ixml}
use gmrender_resurrect_silan.Decimal.{print_int, atoi, value_or_zero, scan_int}
use gmrender_resurrect_silan.Decimal.RoundTrip.{scan_int-print_int}
use gmrender_resurrect_silan.Variables.Model.{Service, update}
use gmrender_resurrect_silan.Variables.View.{
  Shows, InUse, change_var-shown, service_lock-shown, service_unlock-shown,
}
use gmrender_resurrect_silan.Output.{output_set_volume, output_set_mute}
use gmrender_resurrect_silan.Control.{
  Control, control_variable_names, clamp, mute_text, upnp_control_set_mute, upnp_control_set_volume,
}

-- The number that is set, closed: the requested one, not below 0 and not above 100.
abbrev pub nearest : ℤ → ℕ
nearest (negsuc n) = 0
nearest (pos n) = if leb n 100 then n else 100

nearest-le : (value : ℤ) → nearest value ≤ 100
nearest-le (negsuc n) = omega arith
nearest-le (pos n) = ground arith

clamp-nearest : (value : ℤ) → clamp value ≡ pos (nearest value)
unfolding clamp
clamp-nearest (negsuc n) = ground arith
clamp-nearest (pos n) = ground arith

atoi-print_int : (n : ℕ) → atoi (print_int (pos n)) ≡ pos n
unfolding atoi
atoi-print_int n =
    ap (λ t. value_or_zero (scan_int none t)) (sym (append-nil (print_int (pos n))))
    ∙ ap value_or_zero (scan_int-print_int n [] tt)

volume-InUse : InUse 0 8 control_variable_names 6
unfolding control_variable_names
volume-InUse = (omega arith, (codes "Volume", refl), omega arith)

mute-InUse : InUse 0 8 control_variable_names 5
unfolding control_variable_names
mute-InUse = (omega arith, (codes "Mute", refl), omega arith)

-- What the Mute variable says of a value.
abbrev pub muted_as : ℤ → Text
muted_as (pos zero) = codes "0"
muted_as (pos (suc n)) = codes "1"
muted_as (negsuc n) = codes "1"

mute_text-muted_as : (value : ℤ) → mute_text value ≡ muted_as value
mute_text-muted_as (pos zero) = refl
mute_text-muted_as (pos (suc n)) = ground arith
mute_text-muted_as (negsuc n) = refl

module _ {S : Type 0} ⦃x : Ixml⦄ where
  -- upnp_control_set_volume on a service at rest comes back. It gives the output the number of
  -- 0 to 100 that is nearest to the one asked for, returns what the output answers, and leaves the
  -- service at rest with the Volume variable at a text that reads back as that number, and no other
  -- variable but LastChange touched.
  pub set_volume-stores :
      (value : ℤ) (c : Control S) (n : ℕ) (f : ℕ → Text)
      → Shows 0 8 control_variable_names false n c.service f
      → (text : Text) × (t : Service) × (upnp_control_set_volume value c
          ≡ done (
            (output_set_volume (pos (nearest value)) c.output).0,
            record { service = t; output = (output_set_volume (pos (nearest value)) c.output).1 },
          ))
        × Shows 0 8 control_variable_names false n t (update f 6 text)
        × (atoi text ≡ pos (nearest value))
        × (nearest value ≤ 100)
  unfolding upnp_control_set_volume
  set_volume-stores value c n f v =
      let text = print_int (pos (nearest value)) in
      let (s₁, locked, v₁) = service_lock-shown 0 8 control_variable_names n c.service f v in
      let (s₂, changed, v₂) =
        change_var-shown 0 8 control_variable_names true (n + 1) 6 (some text) s₁ f volume-InUse
          v₁ in
      let (s₃, unlocked, v₃) =
        service_unlock-shown 0 8 control_variable_names n s₂ (update f 6 text) v₂ in
      (
        text,
        s₃,
        rw (locked, clamp-nearest value, changed, unlocked) refl,
        v₃,
        atoi-print_int (nearest value),
        nearest-le value,
      )

  -- upnp_control_set_mute on a service at rest comes back. It gives the output the value, returns what
  -- the output answers, and leaves the service at rest with the Mute variable at "0" for 0 and at
  -- "1" for any other value, and no other variable but LastChange touched.
  pub set_mute-stores :
      (value : ℤ) (c : Control S) (n : ℕ) (f : ℕ → Text)
      → Shows 0 8 control_variable_names false n c.service f
      → (t : Service) × (upnp_control_set_mute value c
          ≡ done (
            (output_set_mute value c.output).0,
            record { service = t; output = (output_set_mute value c.output).1 },
          ))
        × Shows 0 8 control_variable_names false n t (update f 5 (muted_as value))
  unfolding upnp_control_set_mute
  set_mute-stores value c n f v =
      let text = muted_as value in
      let (s₁, locked, v₁) = service_lock-shown 0 8 control_variable_names n c.service f v in
      let (s₂, changed, v₂) =
        change_var-shown 0 8 control_variable_names true (n + 1) 5 (some text) s₁ f mute-InUse v₁ in
      let (s₃, unlocked, v₃) =
        service_unlock-shown 0 8 control_variable_names n s₂ (update f 5 text) v₂ in
      (s₃, rw (locked, mute_text-muted_as value, changed, unlocked) refl, v₃)
