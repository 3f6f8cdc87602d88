-- ===== src/Notifier/Interval.antt =====
-- The interval of the scans: its registration at the end of `onApplicationBootstrap`, and
-- `onApplicationShutdown`.
use account_service.Common.{
  ℕ, ◌*◌, ◌≡◌, refl, ap, ◌∙◌, String, ◌<>◌, none, some, arith, ==_refl, string_eq, if◌then◌else◌,
}
use account_service.Js.{Outcome, resolved, rejected}
use account_service.Redis.{Keyspace}
use account_service.Redis.WatchList.{WatchList}
use account_service.Scheduler.{Scheduler, IsScheduler, is_some}
use account_service.Notifier.{Notifier, Chain, on_application_bootstrap, milliseconds_per_second}

-- `this.constructor.name` with the suffix.
abbrev pub interval_name : String
interval_name = "TxnNotifierService" <> ":blockchainScan"

-- The registry here is the one of the intervals.
module _ (K : Keyspace) (H : WatchList) (S : Scheduler) where
  pub record Scheduled : Type 0 where
    pub notifier : Notifier K H
    pub intervals : S.State

  abbrev registered :
      Outcome (Unit {0}) × Notifier K H → Outcome S.State → S.State → Outcome (Unit {0}) × Scheduled
  registered (rejected e, n) added before =
      (rejected e, record { notifier = n; intervals = before })
  registered (resolved u, n) (rejected e) before =
      (rejected e, record { notifier = n; intervals = before })
  registered (resolved u, n) (resolved after) before =
      (resolved tt, record { notifier = n; intervals = after })

  unfoldable pub bootstrap_interval : Chain → ℕ → Scheduled → Outcome (Unit {0}) × Scheduled
  bootstrap_interval chain blockchain_scan_interval_seconds s =
      registered (on_application_bootstrap K H chain s.notifier)
        (S.add_timeout s.intervals interval_name
          (blockchain_scan_interval_seconds * milliseconds_per_second))
        s.intervals

  unfoldable pub on_application_shutdown : Scheduled → Outcome (Unit {0}) × Scheduled
  on_application_shutdown s =
      if S.does_exist s.intervals interval_name
      then (elim (S.delete_timeout s.intervals interval_name) [
        | rejected e ↦ (rejected e, s)
        | resolved after ↦ (resolved tt, record s { intervals = after })
      ])
      else (resolved tt, s)

  module _ (L : IsScheduler S) where
    on_application_shutdown-clears :
        (s : Scheduled) (delay : ℕ)
        → S.timeout s.intervals interval_name ≡ some delay
        → ((on_application_shutdown s).0 ≡ resolved tt)
          × (S.timeout (on_application_shutdown s).1.intervals interval_name ≡ none)
    unfolding on_application_shutdown
    on_application_shutdown-clears s delay present =
        let there = L.does_exist-timeout s.intervals interval_name ∙ ap is_some present in
        let (t, e, removed) = L.delete_present s.intervals interval_name delay present in
        let gone = removed interval_name ∙ rw (==_refl interval_name) in
        rw there (rw (e, on_application_shutdown) (refl, gone))

    bootstrap_interval-eq :
        (chain : Chain) (seconds : ℕ) (s : Scheduled) (after : S.State)
        → (on_application_bootstrap K H chain s.notifier).0 ≡ resolved tt
        → S.add_timeout s.intervals interval_name (seconds * milliseconds_per_second)
          ≡ resolved after
        → bootstrap_interval chain seconds s ≡ (
          resolved tt,
          record {
            notifier = (on_application_bootstrap K H chain s.notifier).1;
            intervals = after;
          },
        )
    unfolding bootstrap_interval
    bootstrap_interval-eq chain seconds s after started e = ground arith

    -- A service that has started, with no interval of its name before, scans every so many seconds;
    -- its shutdown is resolved and leaves no interval of its name.
    pub bootstrap_interval-shutdown :
        (chain : Chain) (seconds : ℕ) (s : Scheduled)
        → S.timeout s.intervals interval_name ≡ none
        → (on_application_bootstrap K H chain s.notifier).0 ≡ resolved tt
        → let (out, started) = bootstrap_interval chain seconds s in
          (out ≡ resolved tt)
          × (S.timeout started.intervals interval_name ≡ some (seconds * 1000))
          × ((on_application_shutdown started).0 ≡ resolved tt)
          × (S.timeout (on_application_shutdown started).1.intervals interval_name ≡ none)
    bootstrap_interval-shutdown chain seconds s fresh started =
        let delay = seconds * milliseconds_per_second in
        let (t, e, added) = L.add_fresh s.intervals interval_name delay fresh in
        let registered_at = added interval_name ∙ rw (==_refl interval_name) in
        let after : Scheduled = record {
          notifier = (on_application_bootstrap K H chain s.notifier).1;
          intervals = t;
        } in
        let (stopped, cleared) = on_application_shutdown-clears after delay registered_at in
        rw (bootstrap_interval-eq chain seconds s t started e)
          (refl, registered_at, stopped, cleared)
