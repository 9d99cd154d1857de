-- ===== src/Webserver/Slices.antt =====
-- The bytes of a text from a position on.
use gmrender_resurrect_silan.Base.{
  ℕ, zero, suc, ◌+◌, ◌≤◌, ◌≡◌, refl, sym, ap, ◌∙◌, [], ◌∷◌, ◌++◌, Text, strlen, arith,
}
use gmrender_resurrect_silan.Webserver.{take, drop}

pub take-nil : (n : ℕ) → take n [] ≡ []
take-nil zero = refl
take-nil (suc n) = refl

pub suc-+ : (a b : ℕ) → suc (a + b) ≡ suc a + b
suc-+ a b = omega arith

pub take-drop : (a b : ℕ) (t : Text) → take a t ++ take b (drop a t) ≡ take (a + b) t
take-drop zero b t = ap (λ (n : ℕ). take n t) (omega arith)
take-drop (suc a) b [] = take-nil b ∙ sym (take-nil (suc a + b))
take-drop (suc a) b (c ∷ t) =
    ap (λ u. c ∷ u) (take-drop a b t) ∙ ap (λ (n : ℕ). take n (c ∷ t)) (suc-+ a b)

pub drop-nil : (n : ℕ) → drop n [] ≡ []
drop-nil zero = refl
drop-nil (suc n) = refl

pub drop-drop : (a b : ℕ) (t : Text) → drop (a + b) t ≡ drop b (drop a t)
drop-drop zero b t = ap (λ (n : ℕ). drop n t) (omega arith)
drop-drop (suc a) b [] = drop-nil (suc a + b) ∙ sym (drop-nil b)
drop-drop (suc a) b (c ∷ t) = ap (λ (n : ℕ). drop n (c ∷ t)) (sym (suc-+ a b)) ∙ drop-drop a b t

pub take-whole : (n : ℕ) (t : Text) → strlen t ≤ n → take n t ≡ t
take-whole zero [] h = refl
take-whole zero (c ∷ t) h = elim h [ ]
take-whole (suc n) [] h = refl
take-whole (suc n) (c ∷ t) h = ap (λ u. c ∷ u) (take-whole n t (omega (arith, h)))
