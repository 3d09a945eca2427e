-- ===== src/Lifecycle.antt =====
-- brokr.go, engine/lifecycle.go and internal/store/store.go: the one engine of a process, from New
-- over Boot to Shutdown.
pub mod Sessions
pub mod Refusals
pub mod Overlap
use brokr.Common.{
  ℕ, String, Bool, true, false, Option, none, some, [], ◌==◌, ◌<>◌, if◌then◌else◌, same, trim,
}
use brokr.Engine.Activities.{stop_all_timers, stop_all_do_activities}
use brokr.Engine.Effects.{Process}

-- The errors that New, Migrate, Boot and Shutdown return.
pub data Fault : Type 0 where
  db_required : Fault
  no_handle : Fault
  already_booted : Fault
  another_booted : Fault
  not_booted : Fault
  -- an error of gorm, that Boot wraps, and the one of a context
  gorm : String → Fault
  auto_migrate_failed : Fault → Fault
  context : String → Fault
  timed_out : String → Fault

-- `H` stands for the handles *gorm.DB.
pub record Config (H : Type 0) : Type 0 where
  pub db : Option H
  pub route_prefix : String
  pub auto_migrate : Bool

-- A *Brokr: its address, by which Boot and Shutdown compare it, and what it points to.
pub record Brokr (H : Type 0) : Type 0 where
  pub address : ℕ
  pub cfg : Config H

-- The package state: the engine's, the handle of package store, `live`, and whether poolOnce has run.
pub record Global (H X : Type 0) : Type 0 where
  pub process : Process X
  pub store : Option H
  pub live : Option (Brokr H)
  pub pool_started : Bool

-- The prefix "/" + strings.Trim(prefix, "/"), or none.
unfoldable pub normalize : String → String
normalize prefix = if prefix == "" then "" else "/" <> trim prefix "/"

pub data Made (H : Type 0) : Type 0 where
  made : Brokr H → Made H
  refused : Fault → Made H

configured : {H : Type 0} → Option H → ℕ → Config H → Made H
unfolding normalize
configured none address cfg = refused db_required
configured (some db) address cfg =
    made
      (record { address = address; cfg = record cfg { route_prefix = normalize cfg.route_prefix } })

-- New, which allocates at the address
unfoldable pub new : {H : Type 0} → ℕ → Config H → Made H
unfolding configured
new address cfg = configured cfg.db address cfg

-- engine.Start and model.StartAsyncPool
unfoldable pub start : {X : Type 0} → Process X → Process X
start p = record p { hooks_wired = true }

module _ {H X : Type 0} (gorm_migrate : H → X → Option String × X) where
  -- Migrate
  unfoldable pub migrate : Option H → X → Option Fault × X
  migrate none x = (some no_handle, x)
  migrate (some db) x =
      let (e, x') = gorm_migrate db x in (elim e [ none ↦ none | some s ↦ some (gorm s) ], x')

  migration : Brokr H → X → Option Fault × X
  unfolding migrate
  migration b x =
      let migrated = migrate b.cfg.db x in if b.cfg.auto_migrate then migrated else (none, x)

  -- What Boot does once no engine is live; nil is `none`.
  boot_after : Option Fault × X → Brokr H → Global H X → Option Fault × Global H X
  boot_after (some e, x) b g = (
    some (auto_migrate_failed e),
    record g { store = none; process = record g.process { world = x } },
  )
  boot_after (none, x) b g = (
    none,
    record g {
      store = b.cfg.db;
      process = start (record g.process { world = x });
      pool_started = true;
      live = some b;
    },
  )

  boot_under : Option (Brokr H) → Brokr H → Global H X → Option Fault × Global H X
  unfolding boot_after migration
  boot_under (some a) b g =
      (some (if same a.address b.address then already_booted else another_booted), g)
  boot_under none b g = boot_after (migration b g.process.world) b g

  -- Boot, with the error of its context if there is one
  unfoldable pub boot : Option String → Brokr H → Global H X → Option Fault × Global H X
  unfolding boot_under
  boot (some e) b g = (some (context e), g)
  boot none b g = boot_under g.live b g

unfoldable pub is_live : {H : Type 0} → Option (Brokr H) → Brokr H → Bool
is_live none b = false
is_live (some a) b = same a.address b.address

module _ {H X : Type 0} where
  -- The first part of Shutdown, which holds bootMu: an error, or nil and `live` is reset.
  unfoldable pub release : Brokr H → Global H X → Option Fault × Global H X
  unfolding is_live
  release b g = if is_live g.live b then (none, record g { live = none }) else (some not_booted, g)

  -- StopAllTimers and StopAllDoActivities
  unfoldable pub stop_background : Global H X → Global H X
  stop_background g = record g {
    process = (stop_all_do_activities (stop_all_timers g.process).1).1;
  }

  -- engine.Drain and model.DrainAsyncPool wait; meanwhile the commands, auto-joins and jobs that are under
  -- way go on, and `work` is what they do to the process until the wait ends: a transition that commits
  -- in it arms timers and a do-activity again.
  unfoldable pub drain : (Process X → Process X) → Global H X → Global H X
  drain work g = record g { process = work g.process }

  -- The select at the end: the drain is over, or the context is done first, with its error.
  unfoldable pub settle : Option String → Global H X → Option Fault × Global H X
  settle none g = (none, record g { store = none })
  settle (some e) g = (some (timed_out e), g)

  shutdown_after :
      (Process X → Process X)
      → Option String
      → Option Fault × Global H X
      → Option Fault × Global H X
  unfolding settle drain stop_background
  shutdown_after work ended (some e, g) = (some e, g)
  shutdown_after work ended (none, g) = settle ended (drain work (stop_background g))

  -- Shutdown, with no other call of package brokr between its parts
  unfoldable pub shutdown :
      (Process X → Process X) → Option String → Brokr H → Global H X → Option Fault × Global H X
  unfolding shutdown_after release
  shutdown work ended b g = shutdown_after work ended (release b g)
