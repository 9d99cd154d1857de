-- ===== src/Connmgr/Registered.antt =====
-- The list of supported types under registrations.
use gmrender_resurrect_silan.Base.{
  ◌≡◌, refl, Bool, true, false, List, [], ◌∷◌, Text, codes, text_eq, text_eq_refl, Bool-cases, inl,
  inr, if◌then◌else◌, arith,
}
use gmrender_resurrect_silan.Connmgr.MimeTypes.{
  is_supported, register_mime_type_internal, register_alias, register_without_x, l16,
  register_other, register_mime_type,
}

-- No type stands twice.
unfoldable pub Distinct : List Text → Type 0
Distinct [] = Unit {0}
Distinct (t ∷ ts) = (is_supported t ts ≡ false) × Distinct ts

-- What a registration does with a list: it adds no duplicate and drops nothing.
pub record Grows (before after : List Text) : Type 0 where
  pub distinct : Distinct before → Distinct after
  pub keeps : (t : Text) → is_supported t before ≡ true → is_supported t after ≡ true

Grows-refl : (ts : List Text) → Grows ts ts
Grows-refl ts = record { distinct = λ h. h; keeps = λ t h. h }

Grows-trans : {a b c : List Text} → Grows a b → Grows b c → Grows a c
Grows-trans g h = record {
  distinct = λ d. h.distinct (g.distinct d);
  keeps = λ t e. h.keeps t (g.keeps t e);
}

internal-Grows : (m : Text) (ts : List Text) → Grows ts (register_mime_type_internal m ts)
unfolding register_mime_type_internal is_supported Distinct
internal-Grows m ts = elim (Bool-cases (is_supported m ts)) [
  | inl e ↦ rw e (Grows-refl ts)
  | inr e ↦ rw e (record { distinct = λ d. (e, d); keeps = λ t h. ground (arith, h) })
]

internal-registers :
    (m : Text) (ts : List Text) → is_supported m (register_mime_type_internal m ts) ≡ true
unfolding register_mime_type_internal is_supported
internal-registers m ts = elim (Bool-cases (is_supported m ts)) [
  | inl e ↦ rw e e
  | inr e ↦ rw (e, text_eq_refl m) refl
]

if-Grows : (c : Bool) (a b ts : List Text) → Grows ts a → Grows ts b → Grows ts (if c then a else b)
if-Grows true a b ts g h = g
if-Grows false a b ts g h = h

alias-Grows : (name alias m : Text) (ts : List Text) → Grows ts (register_alias name alias m ts)
unfolding register_alias
alias-Grows name alias m ts =
    if-Grows (text_eq name m) _ _ ts (internal-Grows alias ts) (Grows-refl ts)

without_x-Grows : (m : Text) (ts : List Text) → Grows ts (register_without_x m ts)
unfolding register_without_x
without_x-Grows m ts = Grows-trans (alias-Grows (codes "audio/x-alac") (codes "audio/alac") m ts) (
    Grows-trans (alias-Grows (codes "audio/x-aiff") (codes "audio/aiff") m _) (
      Grows-trans (alias-Grows (codes "audio/x-m4a") (codes "audio/m4a") m _)
        (alias-Grows (codes "audio/x-m4a") (codes "audio/mp4") m _)))

other-Grows : (m : Text) (ts : List Text) → Grows ts (register_other m ts)
unfolding register_other
other-Grows m ts = Grows-trans (internal-Grows m ts) (without_x-Grows m _)

-- What follows the registration of the type itself.
rest-Grows :
    (m : Text) (ts : List Text)
    → Grows ts (
        register_without_x m (
          if text_eq (codes "audio/mpeg") m
          then register_other l16 (
              register_mime_type_internal
                (codes "audio/x-scpls")
                (register_mime_type_internal (codes "audio/x-mpeg") ts))
          else ts))
rest-Grows m ts =
    Grows-trans
      (if-Grows (text_eq (codes "audio/mpeg") m) _ _ ts
        (Grows-trans (internal-Grows (codes "audio/x-mpeg") ts)
          (Grows-trans (internal-Grows (codes "audio/x-scpls") _) (other-Grows l16 _)))
        (Grows-refl ts))
      (without_x-Grows m _)

-- register_mime_type leaves the type registered, every type that was registered before as well, and
-- no type twice, if none was.
pub register-Distinct :
    (m : Text) (ts : List Text)
    → Distinct ts
    → Distinct (register_mime_type m ts)
      × (is_supported m (register_mime_type m ts) ≡ true)
      × ((t : Text) → is_supported t ts ≡ true → is_supported t (register_mime_type m ts) ≡ true)
unfolding register_mime_type
register-Distinct m ts d =
    let first = internal-Grows m ts in
    let rest = rest-Grows m (register_mime_type_internal m ts) in
    (
      rest.distinct (first.distinct d),
      rest.keeps m (internal-registers m ts),
      λ t h. rest.keeps t (first.keeps t h),
    )
