-- ===== src/Variables/View.antt =====
-- What a service's variables look like from its actions: a function from variables to values, a
-- mutex and a number of open transactions. The functions of src/variable-container.c that the
-- actions call act on this view; LastChange, variable `k`, is outside of it.
use gmrender_resurrect_silan.Base.{
  ℕ, ◌+◌, ◌<◌, ◌≡◌, refl, ap, ◌∙◌, ◌≢◌, Bool, true, false, not, Option, some, Text, or_empty,
  text_eq, lt→ltb, ◌==◌, if◌then◌else◌, arith,
}
use gmrender_resurrect_silan.Base.Int.{pos}
use gmrender_resurrect_silan.Base.Outcome.{done}
use gmrender_resurrect_silan.Xml.{Ixml}
use gmrender_resurrect_silan.Variables.Model.{
  Service, Collector, update, with_collector, get, unlock,
}
use gmrender_resurrect_silan.Variables.Change.{change_var}
use gmrender_resurrect_silan.Variables.Collector.{start, service_lock, service_unlock}
use gmrender_resurrect_silan.Variables.Locking.{
  one_fewer, service_lock-opens, service_unlock-finishes,
}
use gmrender_resurrect_silan.Variables.Frame.{IsSettled, open_count}
use gmrender_resurrect_silan.Variables.Nesting.{change-settles, notify-Settles}

pub record Shows (k num : ℕ) (names : ℕ → Option Text) (held : Bool) (n : ℕ) (s : Service)
    (f : ℕ → Text) : Type 0 where
  pub settled : IsSettled k s
  pub shown_num : s.variable_num ≡ num
  pub shown_names : s.variable_names ≡ names
  pub shown_lock : s.locked ≡ held
  pub shown_open : open_count s ≡ n
  pub shown_values : (j : ℕ) → k ≢ j → s.values j ≡ f j

open_count-kept :
    (c : Collector) (s : Service) → s.last_change ≡ some c → c.open_transactions ≡ open_count s
open_count-kept c s l = ground arith

module _ (k num : ℕ) (names : ℕ → Option Text) where
  -- A variable that the view shows.
  abbrev pub InUse : ℕ → Type 0
  InUse i = (i < num) × ((name : Text) × (names i ≡ some name)) × (k ≢ i)

  pub get-shown :
      (held : Bool) (n i : ℕ) (s : Service) (f : ℕ → Text)
      → InUse i
      → Shows k num names held n s f
      → get s (pos i) ≡ some (f i)
  unfolding get
  get-shown held n i s f ((lt, (name, e), ne)) v =
      rw
        (
          lt→ltb i s.variable_num (rw v.shown_num lt),
          ap (λ (g : ℕ → Option Text). g i) v.shown_names ∙ e,
        )
        (ap some (v.shown_values i ne))

  module _ ⦃x : Ixml⦄ where
    pub change_var-shown :
        (held : Bool) (n i : ℕ) (value : Option Text) (s : Service) (f : ℕ → Text)
        → InUse i
        → Shows k num names held n s f
        → (t : Service) × (change_var (pos i) value s
            ≡ done (not (text_eq (or_empty value) (f i)), t))
          × Shows k num names held n t (update f i (or_empty value))
    unfolding change_var
    change_var-shown held n i value s f (lt, (name, e), ne) v =
        let (t, runs, settled, framed) =
          change-settles k i value name s v.settled (rw v.shown_num lt)
            (ap (λ (g : ℕ → Option Text). g i) v.shown_names ∙ e) in
        (
          t,
          runs 0 ∙ ap (λ w. done (not (text_eq (or_empty value) w), t)) (v.shown_values i ne),
          record {
            settled = settled;
            shown_num = framed.same_num ∙ v.shown_num;
            shown_names = framed.same_names ∙ v.shown_names;
            shown_lock = framed.same_lock ∙ v.shown_lock;
            shown_open = framed.same_open ∙ v.shown_open;
            shown_values = λ j nj.
                framed.same_values j nj
                ∙ ap (λ w. if i == j then or_empty value else w) (v.shown_values j nj);
          },
        )

    pub service_lock-shown :
        (n : ℕ) (s : Service) (f : ℕ → Text)
        → Shows k num names false n s f
        → (t : Service) × (service_lock s ≡ done t) × Shows k num names true (n + 1) t f
    unfolding start
    service_lock-shown n s f v =
        let c = v.settled.keeper in
        (
          record s { locked = true; last_change = some (start c) },
          service_lock-opens c s v.settled.kept v.shown_lock,
          record {
            settled = record {
              keeper = start c;
              kept = refl;
              number = v.settled.number;
              within = v.settled.within;
              ignored = v.settled.ignored;
            };
            shown_num = v.shown_num;
            shown_names = v.shown_names;
            shown_lock = refl;
            shown_open = ap (λ m. m + 1) (open_count-kept c s v.settled.kept ∙ v.shown_open);
            shown_values = v.shown_values;
          },
        )

    pub service_unlock-shown :
        (n : ℕ) (s : Service) (f : ℕ → Text)
        → Shows k num names true (n + 1) s f
        → (t : Service) × (service_unlock s ≡ done t) × Shows k num names false n t f
    unfolding change_var unlock
    service_unlock-shown n s f v =
        let c = v.settled.keeper in
        let counted = open_count-kept c s v.settled.kept ∙ v.shown_open in
        let (t, runs, settled, framed) =
          notify-Settles k (one_fewer c) (with_collector s (one_fewer c)) refl v.settled.number
            v.settled.within v.settled.ignored in
        (
          unlock t,
          service_unlock-finishes c s t v.settled.kept (omega (arith, counted)) (runs 1),
          record {
            settled = record {
              keeper = settled.keeper;
              kept = settled.kept;
              number = settled.number;
              within = settled.within;
              ignored = settled.ignored;
            };
            shown_num = framed.same_num ∙ v.shown_num;
            shown_names = framed.same_names ∙ v.shown_names;
            shown_lock = refl;
            shown_open = framed.same_open ∙ omega (arith, counted);
            shown_values = λ j nj. framed.same_values j nj ∙ v.shown_values j nj;
          },
        )
