-- ===== src/Tests/Seeding.antt =====
-- A directory with two definitions, and the theorems on seeding it.
use mathlib.Core.List.{Memᴰ}
use brokr.Common.{
  ℕ, String, Bool, true, false, Option, none, some, List, [], ◌∷◌, length, select, lookup, insert,
  ext, lookup-insert, if◌then◌else◌, ◌==◌, ◌≡◌, refl, ap, sym, ◌∙◌, inr,
}
use brokr.Model.Workflow.{Workflow, workflow, nil, nil_transitions, nil_common}
use brokr.Model.Defaults.{apply_defaults, fill_workflow}
use brokr.Engine.Effects.{Result, ok}
use brokr.Seed.{
  Entry, SeedError, done, refused, Files, is_definition_file, load_definitions, upsert, upsert_all,
  seed_definitions,
}
use brokr.Seed.Refused.{IsBad, seed_definitions-bad}
use brokr.Seed.Registered.{Table, registered, seed_definitions-registered}
use brokr.Tests.Fixture.{Database, desk, order, shop, process}

abbrev clock : ℕ → String × ℕ
clock n = ("2024-01-01T00:00:00Z", n)

abbrev listing : List Entry
listing =
    record { name = "order.json"; is_dir = false }
    ∷ record { name = "notes.txt"; is_dir = false }
    ∷ []

abbrev bad_listing : List Entry
bad_listing =
    record { name = "order.json"; is_dir = false }
    ∷ record { name = "empty.json"; is_dir = false }
    ∷ []

abbrev empty : Workflow
empty = workflow order nil nil_transitions nil_common

-- The contents of a file are the definition itself.
abbrev files : Files Workflow
files = record {
  read_dir = λ dir.
      if dir == "workflows"
      then some listing
      else if dir == "broken"
      then some bad_listing
      else none;
  read_file = λ dir name.
      if name == "order.json" then some shop else if name == "empty.json" then some empty else none;
  unmarshal = λ def. some def;
}

abbrev filled : Workflow
filled = (apply_defaults clock shop 0).0

is_json : is_definition_file (record { name = "empty.json"; is_dir = false }) ≡ true
unfolding is_definition_file ext
is_json = refl

seed_definitions-bad_example :
    (e : SeedError) × (seed_definitions files clock desk true "broken" 0 process.world
      ≡ (refused e, process.world))
seed_definitions-bad_example =
    seed_definitions-bad files clock "broken" desk 0 process.world refl (Memᴰ.tail (Memᴰ.head refl))
      is_json (IsBad.incomplete empty empty refl refl (inr refl))

ok_if : (b : Bool) (x y : Option Workflow) → ok (if b then x else y) ≡ (if b then ok x else ok y)
ok_if true x y = refl
ok_if false x y = refl

abbrev known : Result (Unit {0}) × Database → String → Option Workflow
known r wanted = lookup wanted r.1.definitions

desk-Table : Table desk
desk-Table = record {
  written = λ name def {x} e wanted.
      ap ok (sym (ap (λ r. known r wanted) e) ∙ lookup-insert name wanted def x.definitions)
      ∙ ok_if (name == wanted) (some def) (lookup wanted x.definitions);
}

abbrev seeded : Database
seeded = record process.world { definitions = ("order", filled) ∷ [] }

seeds : seed_definitions files clock desk true "workflows" 0 process.world ≡ (done 1, seeded)
unfolding seed_definitions load_definitions is_definition_file ext upsert_all upsert insert
    apply_defaults fill_workflow
seeds = refl

seed_definitions-registered_example :
    (defs : List Workflow) × ((load_definitions files clock "workflows" 0).0 ≡ done defs)
    × (1 ≡ length (select is_definition_file listing))
    × ((wanted : String)
        → (desk.first_definition wanted seeded).0
          ≡ registered wanted defs (desk.first_definition wanted process.world).0)
seed_definitions-registered_example =
    seed_definitions-registered files clock desk desk-Table "workflows" 0 process.world refl seeds
