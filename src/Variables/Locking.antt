-- ===== src/Variables/Locking.antt =====
-- `service_lock` and `service_unlock` on a service that has a collector.
use gmrender_resurrect_silan.Base.{◌-◌, ◌<◌, ◌≡◌, ◌∙◌, false, true, some, lt→ltb, arith}
use gmrender_resurrect_silan.Base.Outcome.{done}
use gmrender_resurrect_silan.Xml.{Ixml}
use gmrender_resurrect_silan.Variables.Model.{Service, Collector, with_collector, lock, unlock}
use gmrender_resurrect_silan.Variables.Change.{notify, change_var}
use gmrender_resurrect_silan.Variables.Collector.{
  start, finish, start_open, finish_open, service_lock, service_unlock,
}

abbrev pub one_fewer : Collector → Collector
one_fewer c = record c { open_transactions = c.open_transactions - 1 }

module _ ⦃x : Ixml⦄ where
  pub service_lock-opens :
      (c : Collector) (s : Service)
      → s.last_change ≡ some c
      → s.locked ≡ false
      → service_lock s ≡ done (record s { locked = true; last_change = some (start c) })
  unfolding service_lock lock start_open
  service_lock-opens c s l free = ground arith

  finish-notifies :
      (c : Collector) (s : Service)
      → 0 < c.open_transactions
      → finish c s ≡ notify change_var (one_fewer c) (with_collector s (one_fewer c))
  unfolding finish
  finish-notifies c s o = rw (lt→ltb 0 c.open_transactions o)

  finish_open-finishes :
      (c : Collector) (s : Service) → s.last_change ≡ some c → finish_open s ≡ finish c s
  unfolding finish_open
  finish_open-finishes c s l = ground arith

  pub service_unlock-finishes :
      (c : Collector) (s t : Service)
      → s.last_change ≡ some c
      → 0 < c.open_transactions
      → notify change_var (one_fewer c) (with_collector s (one_fewer c)) ≡ done t
      → service_unlock s ≡ done (unlock t)
  unfolding service_unlock
  service_unlock-finishes c s t l o runs =
      rw (finish_open-finishes c s l ∙ finish-notifies c s o ∙ runs)
