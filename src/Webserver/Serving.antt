-- ===== src/Webserver/Serving.antt =====
-- A file that is registered, found and read to its end.
use gmrender_resurrect_silan.Base.{
  ℕ, ◌+◌, ◌-◌, ◌^◌, ◌≤◌, ◌<◌, ◌≡◌, refl, ap, ◌∙◌, true, false, some, List, [], ◌∷◌, ◌++◌, Text,
  strlen, text_eq_refl, arith,
}
use gmrender_resurrect_silan.Base.Int.{pos}
use gmrender_resurrect_silan.Base.Outcome.{Outcome, done, ◌>>=◌}
use gmrender_resurrect_silan.Webserver.{
  VirtualFile, WebServerFile, FileInfo, take, drop, read, find_file, get_info, open_file,
  register_buf,
}
use gmrender_resurrect_silan.Webserver.Reading.{
  IsInside, least, least-le, read-takes, step-IsInside,
}
use gmrender_resurrect_silan.Webserver.Slices.{take-drop, drop-drop, take-whole}

-- Reads one after the other, with buffers of these sizes, and all that they put into them.
abbrev pub reads : List ℕ → WebServerFile → Outcome (Text × WebServerFile)
reads [] f = done ([], f)
reads (n ∷ ns) f = do (rc, t, f) ← read n f; (u, f) ← reads ns f; done (t ++ u, f)

abbrev pub total : List ℕ → ℕ
total [] = 0
total (n ∷ ns) = n + total ns

abbrev pub Small : List ℕ → Type 0
Small [] = Unit {0}
Small (n ∷ ns) = (n < 2 ^ 31) × Small ns

least-zero : (b : ℕ) → least 0 b ≡ 0
least-zero b = ground arith

least-split : (n m left : ℕ) → least n left + least m (left - least n left) ≡ least (n + m) left
least-split n m left = ground arith

reads-take :
    (ns : List ℕ) (f : WebServerFile)
    → Small ns
    → IsInside f
    → reads ns f
      ≡ done (
        take (least (total ns) (f.file_len - f.position)) (drop f.position f.file_contents),
        record f { position = f.position + least (total ns) (f.file_len - f.position) },
      )
reads-take [] f h v =
    rw (least-zero (f.file_len - f.position))
      (ap (λ (p : ℕ). done ([], record f { position = p })) (omega arith))
reads-take (n ∷ ns) f (h, hs) v =
    let left = f.file_len - f.position in
    let k = least n left in
    let t = drop f.position f.file_contents in
    let g : WebServerFile = record f { position = f.position + k } in
    let more = least (total ns) (g.file_len - g.position) in
    let rest = reads-take ns g hs (step-IsInside k f (least-le n left).1 v) in
    let sum : k + more ≡ least (n + total ns) left =
      ap (λ (m : ℕ). k + least (total ns) m) (omega arith) ∙ least-split n (total ns) left in
    rw (read-takes n f h v, rest)
      (ap (λ u. done (take k t ++ take more u, record g { position = g.position + more }))
          (drop-drop f.position k f.file_contents)
        ∙ ap (λ u. done (u, record g { position = g.position + more }))
            (take-drop k more t ∙ ap (λ (m : ℕ). take m t) sum)
        ∙ ap (λ (p : ℕ). done (take (least (n + total ns) left) t, record f { position = p }))
            (omega (arith, sum)))

least-right : (a b : ℕ) → b ≤ a → least a b ≡ b
least-right a b h = ground (arith, h)

-- A text below 2 GB that is registered under a path can be opened by that path at once, whatever was
-- registered before: webserver_get_info gives its length, and reads with buffers below 2 GB that
-- come to that length or more give the text, byte for byte, and leave the position at its end.
pub registered-served :
    (path contents content_type : Text) (files : List VirtualFile) (ns : List ℕ)
    → strlen contents < 2 ^ 31
    → Small ns
    → strlen contents ≤ total ns
    → (info : FileInfo) × (f : WebServerFile) × (get_info path
          (register_buf path contents content_type files).1
        ≡ (pos 0, some info))
      × (info.file_length ≡ strlen contents)
      × (open_file path true (register_buf path contents content_type files).1 ≡ some f)
      × (reads ns f ≡ done (contents, record f { position = strlen contents }))
unfolding get_info open_file register_buf find_file
registered-served path contents content_type files ns small smalls enough =
    let f : WebServerFile = record {
      position = 0;
      file_contents = contents;
      file_len = strlen contents;
    } in
    let all : least (total ns) (strlen contents - 0) ≡ strlen contents =
      least-right (total ns) (strlen contents - 0) (omega (arith, enough)) ∙ omega arith in
    let inside : IsInside f = record { whole = refl; within = omega arith; small = small } in
    (
      record {
        file_length = strlen contents;
        last_modified = 0;
        is_directory = false;
        is_readable = true;
        info_content_type = content_type;
      },
      f,
      rw (text_eq_refl path) refl,
      refl,
      rw (text_eq_refl path) refl,
      reads-take ns f smalls inside
          ∙ ap (λ (m : ℕ). done (take m contents, record f { position = 0 + m })) all
          ∙ ap (λ (p : ℕ). done (take (strlen contents) contents, record f { position = p }))
              (omega arith)
          ∙ ap (λ (t : Text). done (t, record f { position = strlen contents }))
              (take-whole (strlen contents) contents (omega arith)),
    )
