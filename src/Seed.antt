-- ===== src/Seed.antt =====
-- seed.go and persistence/workflow_definition.go: the definition files of a directory, read, checked
-- and registered under their names.
pub mod Loaded
pub mod Registered
pub mod Refused
use brokr.Common.{
  ℕ, String, Bool, true, false, not, ◌==◌, ◌&&◌, Option, none, some, List, [], ◌∷◌, length, ext,
  if◌then◌else◌,
}
use brokr.Model.Defaults.{apply_defaults}
use brokr.Model.Workflow.{Workflow, workflow, States, nil, cons, WorkflowFields}
use brokr.Engine.Instance.{workflow_fields}
use brokr.Engine.Effects.{Host, Error, Result, ok, err}

pub record Entry : Type 0 where
  pub name : String
  pub is_dir : Bool

-- The errors of loadDefinitions and SeedDefinitions, with the file or the definition that they name.
pub data SeedError : Type 0 where
  needs_handle : SeedError
  directory_unreadable : String → SeedError
  file_unreadable : String → SeedError
  not_parsed : String → SeedError
  missing_id : String → SeedError
  no_states : String → SeedError
  upsert_failed : String → Error → SeedError

pub data Seeded (A : Type 0) : Type 0 where
  done : A → Seeded A
  refused : SeedError → Seeded A

-- The files behind package os, `B` for their contents, and json.Unmarshal into a model.Workflow.
pub record Files (B : Type 0) : Type 0 where
  pub read_dir : String → Option (List Entry)
  pub read_file : String → String → Option B
  pub unmarshal : B → Option Workflow

-- !entry.IsDir() && filepath.Ext(entry.Name()) == ".json"
unfoldable pub is_definition_file : Entry → Bool
is_definition_file entry = not entry.is_dir && ext entry.name == ".json"

module _ {C : Type 0} where
  -- append(defs, wf), unless the rest of the loop returns an error
  keep : Workflow → Seeded (List Workflow) × C → Seeded (List Workflow) × C
  keep wf (done defs, c) = (done (wf ∷ defs), c)
  keep wf (refused e, c) = (refused e, c)

  then_rest : Seeded Workflow × C → (C → Seeded (List Workflow) × C) → Seeded (List Workflow) × C
  unfolding keep
  then_rest (done wf, c) rest = keep wf (rest c)
  then_rest (refused e, c) rest = (refused e, c)

module _ {B C : Type 0} (files : Files B) (tick : C → String × C) where
  -- len(wf.States) == 0, else ApplyDefaults
  with_states : String → Workflow → C → Seeded Workflow × C
  with_states name (workflow f nil ts cs) c = (refused (no_states name), c)
  with_states name (workflow f (cons s ss) ts cs) c =
      let (wf, c') = apply_defaults tick (workflow f (cons s ss) ts cs) c in (done wf, c')

  checked : String → Option Workflow → C → Seeded Workflow × C
  unfolding with_states
  checked name none c = (refused (not_parsed name), c)
  checked name (some wf) c =
      let rest = with_states name wf c in
      if (workflow_fields wf).id == "" then (refused (missing_id name), c) else rest

  parsed : String → Option B → C → Seeded Workflow × C
  unfolding checked
  parsed name none c = (refused (file_unreadable name), c)
  parsed name (some data') c = checked name (files.unmarshal data') c

  -- The loop of loadDefinitions.
  load_entries : String → List Entry → C → Seeded (List Workflow) × C
  unfolding then_rest parsed
  load_entries dir [] c = (done [], c)
  load_entries dir (entry ∷ entries) c =
      let rest = load_entries dir entries in
      if is_definition_file entry
      then then_rest (parsed entry.name (files.read_file dir entry.name) c) rest
      else rest c

  load_listing : String → Option (List Entry) → C → Seeded (List Workflow) × C
  unfolding load_entries
  load_listing dir none c = (refused (directory_unreadable dir), c)
  load_listing dir (some entries) c = load_entries dir entries c

  -- loadDefinitions
  unfoldable pub load_definitions : String → C → Seeded (List Workflow) × C
  unfolding load_listing
  load_definitions dir c = load_listing dir (files.read_dir dir) c

module _ {F X : Type 0} (host : Host F X) where
  -- upsert
  unfoldable pub upsert : Workflow → X → Result (Unit {0}) × X
  upsert wf x = host.upsert_definition (workflow_fields wf).id wf x

  upserted : Workflow → Result (Unit {0}) × X → (X → Seeded (Unit {0}) × X) → Seeded (Unit {0}) × X
  upserted wf (ok u, x) rest = rest x
  upserted wf (err e, x) rest = (refused (upsert_failed (workflow_fields wf).id e), x)

  -- The loop of SeedDefinitions.
  unfoldable pub upsert_all : List Workflow → X → Seeded (Unit {0}) × X
  unfolding upserted
  upsert_all [] x = (done tt, x)
  upsert_all (wf ∷ defs) x = upserted wf (upsert wf x) (upsert_all defs)

  counted : List Workflow → Seeded (Unit {0}) × X → Seeded ℕ × X
  counted defs (done u, x) = (done (length defs), x)
  counted defs (refused e, x) = (refused e, x)

  seed_loaded : Seeded (List Workflow) → X → Seeded ℕ × X
  unfolding counted
  seed_loaded (refused e) x = (refused e, x)
  seed_loaded (done defs) x = counted defs (upsert_all defs x)

module _ {B C F X : Type 0} (files : Files B) (tick : C → String × C) (host : Host F X) where
  -- SeedDefinitions, with whether the handle is not nil
  unfoldable pub seed_definitions : Bool → String → C → X → Seeded ℕ × X
  unfolding seed_loaded
  seed_definitions false dir c x = (refused needs_handle, x)
  seed_definitions true dir c x = seed_loaded host (load_definitions files tick dir c).0 x
