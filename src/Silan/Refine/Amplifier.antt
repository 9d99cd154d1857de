-- ===== src/Silan/Refine/Amplifier.antt =====
-- The switches of the amplifier on a state that is safe.
use gmrender_resurrect_silan.Base.{
  ℕ, ◌≡◌, ◌≢◌, refl, ap, ◌∙◌, subst, Bool, true, false, not, ◌||◌, Option, some, List, ◌∷◌, Text,
  Bool-cases, inl, inr, if◌then◌else◌, arith,
}
use gmrender_resurrect_silan.Base.Int.{ℤ}
use gmrender_resurrect_silan.Base.Outcome.{Fault}
use gmrender_resurrect_silan.Variables.Mask.{testbit, testbit-set_bit, testbit-clear_bit}
use gmrender_resurrect_silan.Silan.Model.{
  Silan, status_amp_mute, status_amp_power, gpio_amp_power, gpio_amp_mute, has, put_bit, level,
  differ, gpio_write, set_amp_mute, set_amp_power,
}
use gmrender_resurrect_silan.Silan.Refine.Safe.{last_written, Quiet, Safe, IsSafe}

-- A switched status bit is the one that was asked for.
pub put_bit-here : (b : Bool) (i st : ℕ) → testbit (put_bit b i st) i ≡ b
put_bit-here true i st = ground (arith, testbit-set_bit st i i)
put_bit-here false i st = ground (arith, testbit-clear_bit st i i)

-- The other one stays.
pub put_bit-elsewhere : (b : Bool) (i j st : ℕ) → i ≢ j → testbit (put_bit b i st) j ≡ testbit st j
put_bit-elsewhere true i j st ne = ground (arith, testbit-set_bit st i j)
put_bit-elsewhere false i j st ne = ground (arith, testbit-clear_bit st i j)

apart : gpio_amp_mute ≢ gpio_amp_power
apart = omega arith

-- The writes to the mute pin.
abbrev pub mute_writes : Bool → Bool → List (ℕ × ℤ) → List (ℕ × ℤ)
mute_writes m before pins = if differ m before then (gpio_amp_mute, level m) ∷ pins else pins

mute_writes-Safe :
    (m before powered : Bool) {died : Option Fault} {uri next : Option Text} {pins : List (ℕ × ℤ)}
    → powered || m ≡ true
    → Safe died uri next pins before powered
    → Safe died uri next (mute_writes m before pins) m powered
unfolding last_written Quiet
mute_writes-Safe true true powered h v = v
mute_writes-Safe true false powered h v = record {
  alive = v.alive;
  uri_Fits = v.uri_Fits;
  uri_next_Fits = v.uri_next_Fits;
  mute_pin = refl;
  power_pin = v.power_pin;
  off_muted = h;
  quiet = (λ e. elim (apart e) [ ], v.quiet);
}
mute_writes-Safe false true powered h v = record {
  alive = v.alive;
  uri_Fits = v.uri_Fits;
  uri_next_Fits = v.uri_next_Fits;
  mute_pin = refl;
  power_pin = v.power_pin;
  off_muted = h;
  quiet = (λ e. elim (apart e) [ ], v.quiet);
}
mute_writes-Safe false false powered h v = v

pub set_amp_mute-writes :
    (m : Bool) (s : Silan)
    → set_amp_mute m s ≡ record s {
      pins = mute_writes m (has s status_amp_mute) s.pins;
      status = put_bit m status_amp_mute s.status;
    }
unfolding set_amp_mute
set_amp_mute-writes m s = elim (Bool-cases (differ m (has s status_amp_mute))) [
  | inl e ↦ rw e refl
  | inr e ↦ rw e refl
]

pub set_amp_mute-IsSafe :
    (m : Bool) (s : Silan)
    → has s status_amp_power || m ≡ true
    → IsSafe s
    → IsSafe (set_amp_mute m s)
set_amp_mute-IsSafe m s h v =
    rw
      (
        set_amp_mute-writes m s,
        put_bit-here m status_amp_mute s.status,
        put_bit-elsewhere m status_amp_mute status_amp_power s.status (omega arith),
      )
      (mute_writes-Safe m (has s status_amp_mute) (has s status_amp_power) h v)

-- The write to the power pin, when the amplifier is muted.
power_write-Safe :
    (m before muted : Bool) {died : Option Fault} {uri next : Option Text} {pins : List (ℕ × ℤ)}
    → differ m before ≡ true
    → muted ≡ true
    → Safe died uri next pins muted before
    → Safe died uri next ((gpio_amp_power, level (not m)) ∷ pins) muted m
unfolding last_written Quiet
power_write-Safe m before muted h e v = record {
  alive = v.alive;
  uri_Fits = v.uri_Fits;
  uri_next_Fits = v.uri_next_Fits;
  mute_pin = v.mute_pin;
  power_pin = refl;
  off_muted = ground (arith, e);
  quiet = (λ _. v.mute_pin ∙ ap (λ b. some (level b)) e, v.quiet);
}

set_amp_mute-bits :
    (s : Silan)
    → (has (set_amp_mute true s) status_amp_mute ≡ true)
      × (has (set_amp_mute true s) status_amp_power ≡ has s status_amp_power)
set_amp_mute-bits s = (
  rw (set_amp_mute-writes true s) (put_bit-here true status_amp_mute s.status),
  rw (set_amp_mute-writes true s)
      (put_bit-elsewhere true status_amp_mute status_amp_power s.status (omega arith)),
)

-- The power bit over a state whose pin was written or did not have to be.
power_bit-Safe :
    (m : Bool) (t : Silan) (pins : List (ℕ × ℤ))
    → Safe t.died t.uri t.uri_next pins (has t status_amp_mute) m
    → IsSafe (record t { pins = pins; status = put_bit m status_amp_power t.status })
power_bit-Safe m t pins v =
    rw
      (
        put_bit-here m status_amp_power t.status,
        put_bit-elsewhere m status_amp_power status_amp_mute t.status (omega arith),
      )
      v

differ-same : (m b : Bool) → differ m b ≡ false → b ≡ m
differ-same m b h = ground (arith, h)

pub set_amp_power-IsSafe : (m : Bool) (s : Silan) → IsSafe s → IsSafe (set_amp_power m s)
unfolding set_amp_power gpio_write
set_amp_power-IsSafe m s v = elim (Bool-cases (differ m (has s status_amp_power))) [
  | inl e ↦
      let t = set_amp_mute true s in
      let (on, power) = set_amp_mute-bits s in
      rw e (
        power_bit-Safe m t ((gpio_amp_power, level (not m)) ∷ t.pins) (
          power_write-Safe m (has t status_amp_power) (has t status_amp_mute) (rw power e) on
            (set_amp_mute-IsSafe true s (ground arith) v)))
  | inr e ↦ rw e (
      power_bit-Safe m s s.pins (
        subst (λ b. Safe s.died s.uri s.uri_next s.pins (has s status_amp_mute) b)
          (differ-same m (has s status_amp_power) e) v))
]
