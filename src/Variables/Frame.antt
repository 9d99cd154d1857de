-- ===== src/Variables/Frame.antt =====
-- What a call of the listeners of src/variable-container.c leaves alone.
use gmrender_resurrect_silan.Base.{ℕ, ◌<◌, ◌≡◌, refl, ◌∙◌, ◌≢◌, true, none, some}
use gmrender_resurrect_silan.Base.Int.{pos}
use gmrender_resurrect_silan.Base.Outcome.{Outcome, done}
use gmrender_resurrect_silan.Variables.Mask.{testbit}
use gmrender_resurrect_silan.Variables.Model.{Service, Collector}

-- The collector is at hand, knows the LastChange variable and ignores its changes.
pub record IsSettled (k : ℕ) (s : Service) : Type 0 where
  pub keeper : Collector
  pub kept : s.last_change ≡ some keeper
  pub number : keeper.last_change_variable_num ≡ pos k
  pub within : k < s.variable_num
  pub ignored : testbit keeper.not_eventable_variables k ≡ true

-- How many transactions are open.
abbrev pub open_count : Service → ℕ
open_count s = elim s.last_change [ none ↦ 0 | some c ↦ c.open_transactions ]

-- The variables that the collector ignores.
abbrev pub ignored_set : Service → ℕ
ignored_set s = elim s.last_change [ none ↦ 0 | some c ↦ c.not_eventable_variables ]

-- What listeners leave alone: everything but the LastChange variable and what is sent, heard and
-- collected.
pub record Frame (k : ℕ) (s t : Service) : Type 0 where
  pub same_num : t.variable_num ≡ s.variable_num
  pub same_names : t.variable_names ≡ s.variable_names
  pub same_callbacks : t.callbacks ≡ s.callbacks
  pub same_lock : t.locked ≡ s.locked
  pub same_open : open_count t ≡ open_count s
  pub same_ignored : ignored_set t ≡ ignored_set s
  pub same_values : (j : ℕ) → k ≢ j → t.values j ≡ s.values j

pub Frame-refl : (k : ℕ) (s : Service) → Frame k s s
Frame-refl k s = record {
  same_num = refl;
  same_names = refl;
  same_callbacks = refl;
  same_lock = refl;
  same_open = refl;
  same_ignored = refl;
  same_values = λ j n. refl;
}

pub Frame-trans : (k : ℕ) (s t u : Service) → Frame k s t → Frame k t u → Frame k s u
Frame-trans k s t u f g = record {
  same_num = g.same_num ∙ f.same_num;
  same_names = g.same_names ∙ f.same_names;
  same_callbacks = g.same_callbacks ∙ f.same_callbacks;
  same_lock = g.same_lock ∙ f.same_lock;
  same_open = g.same_open ∙ f.same_open;
  same_ignored = g.same_ignored ∙ f.same_ignored;
  same_values = λ j n. g.same_values j n ∙ f.same_values j n;
}

-- One outcome at every depth of nesting, which stays settled and within the frame.
abbrev pub Settles : ℕ → Service → (ℕ → Outcome Service) → Type 0
Settles k s m = (t : Service) × ((d : ℕ) → m d ≡ done t) × IsSettled k t × Frame k s t
