-- ===== src/Webserver/Reading.antt =====
-- An opened file under reads and seeks.
use gmrender_resurrect_silan.Base.{
  ℕ, ◌+◌, ◌-◌, ◌^◌, ◌≤◌, ◌<◌, ◌≡◌, refl, ap, List, [], ◌∷◌, strlen, ltb, Bool-cases, inl, inr,
  if◌then◌else◌, arith,
}
use gmrender_resurrect_silan.Base.Int.{ℤ, pos, negsuc}
use gmrender_resurrect_silan.Base.Outcome.{Outcome, Ends, done, ◌>>=◌}
use gmrender_resurrect_silan.Webserver.{
  WebServerFile, to_int, minimum, take, drop, copy_out, read, seek, moved, new_position,
}

-- The position is in the file, and the file is of a size that an `int` holds.
pub record IsInside (f : WebServerFile) : Type 0 where
  pub whole : f.file_len ≡ strlen f.file_contents
  pub within : f.position ≤ f.file_len
  pub small : f.file_len < 2 ^ 31

abbrev pub least : ℕ → ℕ → ℕ
least a b = if ltb a b then a else b

to_int-small : (n : ℕ) → n < 2 ^ 31 → to_int n ≡ pos n
to_int-small n h = ground (arith, h)

minimum-least : (a b : ℕ) → minimum (pos a) (pos b) ≡ pos (least a b)
minimum-least a b = ground arith

pub least-le : (a b : ℕ) → (least a b ≤ a) × (least a b ≤ b)
least-le a b = (ground arith, ground arith)

-- The next bytes, as many as were asked for or as are left.
pub read-takes :
    (n : ℕ) (f : WebServerFile)
    → n < 2 ^ 31
    → IsInside f
    → read n f
      ≡ done (
        pos (least n (f.file_len - f.position)),
        take (least n (f.file_len - f.position)) (drop f.position f.file_contents),
        record f { position = f.position + least n (f.file_len - f.position) },
      )
unfolding read
read-takes n f h v =
    let left = f.file_len - f.position in
    rw (to_int-small n h, to_int-small left (omega (arith, v.small)))
      (ap (λ (k : ℤ). copy_out k f) (minimum-least n left))

pub step-IsInside :
    (k : ℕ) (f : WebServerFile)
    → k ≤ f.file_len - f.position
    → IsInside f
    → IsInside (record f { position = f.position + k })
step-IsInside k f h v = record {
  whole = v.whole;
  within = omega (arith, h, v.within);
  small = v.small;
}

moved-IsInside : (n : ℤ) (f : WebServerFile) → IsInside f → IsInside (moved n f).1
moved-IsInside (negsuc n) f v = v
moved-IsInside (pos n) f v = elim (Bool-cases (ltb f.file_len n)) [
  | inl e ↦ rw e v
  | inr e ↦ rw e (record { whole = v.whole; within = ground (arith, e); small = v.small })
]

-- A read of a number of bytes, or a seek by an offset from an origin.
pub data Access : Type 0 where
  reading : ℕ → Access
  seeking : ℤ → ℕ → Access

abbrev pub access : Access → WebServerFile → Outcome WebServerFile
access (reading n) f = read n f >>= λ r. done r.2
access (seeking offset origin) f = done (seek offset origin f).1

abbrev pub accesses : List Access → WebServerFile → Outcome WebServerFile
accesses [] f = done f
accesses (a ∷ all) f = access a f >>= accesses all

-- The buffers are of sizes that an `int` holds.
abbrev pub AllSmall : List Access → Type 0
AllSmall [] = Unit {0}
AllSmall (reading n ∷ all) = (n < 2 ^ 31) × AllSmall all
AllSmall (seeking offset origin ∷ all) = AllSmall all

-- Any sequence of reads and seeks of a file below 2 GB comes back without a copy from outside of the
-- file, if the buffers are below 2 GB as well, and leaves the position in the file.
pub accesses-IsInside :
    (all : List Access) (f : WebServerFile)
    → AllSmall all
    → IsInside f
    → Ends IsInside (accesses all f)
unfolding seek
accesses-IsInside [] f h v = (f, refl, v)
accesses-IsInside (reading n ∷ all) f (h, hs) v =
    let k = least n (f.file_len - f.position) in
    let g : WebServerFile = record f { position = f.position + k } in
    let (final, e, w) =
      accesses-IsInside all g hs (step-IsInside k f (least-le n (f.file_len - f.position)).1 v) in
    (final, rw (read-takes n f h v) e, w)
accesses-IsInside (seeking offset origin ∷ all) f hs v =
    accesses-IsInside all (seek offset origin f).1 hs
      (moved-IsInside (new_position offset origin f) f v)
