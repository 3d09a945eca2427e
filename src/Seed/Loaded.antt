-- ===== src/Seed/Loaded.antt =====
-- What a directory of definitions loads.
use mathlib.Core.List.{Memᴰ}
use text.Mathlib.TextEquality.{eq_iff}
use brokr.Common.{
  String, ◌==◌, Option, none, some, List, [], ◌∷◌, ◌≡◌, ◌≢◌, refl, sym, subst, arith, Bool-cases,
  inl, inr,
}
use brokr.Model.Defaults.{apply_defaults, fill_workflow}
use brokr.Model.Workflow.{State, Workflow, workflow, nil, cons}
use brokr.Engine.Children.{first_state}
use brokr.Engine.Instance.{workflow_fields, workflow_states}
use brokr.Engine.Effects.{ok}
use brokr.Seed.{
  Entry, Seeded, done, refused, Files, is_definition_file, with_states, checked, parsed, keep,
  then_rest, load_entries, load_listing, load_definitions,
}

-- A definition that can be registered and has a state to start in.
abbrev pub IsStartable : Workflow → Type 0
IsStartable def =
    ((workflow_fields def).id ≢ "") × ((s : State) × (first_state (workflow_states def) ≡ ok s))

abbrev All : {A : Type 0} → (A → Type 0) → Seeded A → Type 0
All P (done a) = P a
All P (refused e) = Unit

abbrev AllStartable : List Workflow → Type 0
AllStartable defs = (def : Workflow) → Memᴰ def defs → IsStartable def

module _ {B C : Type 0} (files : Files B) (tick : C → String × C) where
  with_states-IsStartable :
      (name : String) (wf : Workflow) (c : C)
      → (workflow_fields wf).id ≢ ""
      → All IsStartable (with_states files tick name wf c).0
  unfolding with_states apply_defaults first_state fill_workflow
  with_states-IsStartable name (workflow f nil ts cs) c named = tt
  with_states-IsStartable name (workflow f (cons s ss) ts cs) c named = (named, (_, refl))

  checked-IsStartable :
      (name : String) (wf : Option Workflow) (c : C)
      → All IsStartable (checked files tick name wf c).0
  unfolding checked
  checked-IsStartable name none c = tt
  checked-IsStartable name (some wf) c = elim (Bool-cases ((workflow_fields wf).id == "")) [
    | inl e ↦ rw e tt
    | inr e ↦
        rw e (with_states-IsStartable name wf c (ground (arith, eq_iff (workflow_fields wf).id "")))
  ]

  parsed-IsStartable :
      (name : String) (data' : Option B) (c : C)
      → All IsStartable (parsed files tick name data' c).0
  unfolding parsed
  parsed-IsStartable name none c = tt
  parsed-IsStartable name (some data') c = checked-IsStartable name (files.unmarshal data') c

  keep-AllStartable :
      (wf : Workflow) (r : Seeded (List Workflow) × C)
      → IsStartable wf
      → All AllStartable r.0
      → All AllStartable (keep wf r).0
  unfolding keep
  keep-AllStartable wf (done defs, c) h hs =
      λ def m. elim m [ Memᴰ.head e ↦ subst IsStartable (sym e) h | Memᴰ.tail m' ↦ hs def m' ]
  keep-AllStartable wf (refused e, c) h hs = tt

  then_rest-AllStartable :
      (r : Seeded Workflow × C) (rest : C → Seeded (List Workflow) × C)
      → All IsStartable r.0
      → ((c : C) → All AllStartable (rest c).0)
      → All AllStartable (then_rest r rest).0
  unfolding then_rest
  then_rest-AllStartable (done wf, c) rest h hs = keep-AllStartable wf (rest c) h (hs c)
  then_rest-AllStartable (refused e, c) rest h hs = tt

  load_entries-AllStartable :
      (dir : String) (entries : List Entry) (c : C)
      → All AllStartable (load_entries files tick dir entries c).0
  unfolding load_entries
  load_entries-AllStartable dir [] c = λ def m. elim m [ ]
  load_entries-AllStartable dir (entry ∷ entries) c = elim (Bool-cases (is_definition_file entry)) [
    | inl e ↦ rw e (
        then_rest-AllStartable _ _
          (parsed-IsStartable entry.name (files.read_file dir entry.name) c)
          (load_entries-AllStartable dir entries))
    | inr e ↦ rw e (load_entries-AllStartable dir entries c)
  ]

  load_listing-AllStartable :
      (dir : String) (listing : Option (List Entry)) (c : C)
      → All AllStartable (load_listing files tick dir listing c).0
  unfolding load_listing
  load_listing-AllStartable dir none c = tt
  load_listing-AllStartable dir (some entries) c = load_entries-AllStartable dir entries c

  -- Every definition of a directory that loads has an id, and a first state to start in.
  pub load_definitions-IsStartable :
      (dir : String) (c : C) {defs : List Workflow} {def : Workflow}
      → (load_definitions files tick dir c).0 ≡ done defs
      → Memᴰ def defs
      → IsStartable def
  unfolding load_definitions
  load_definitions-IsStartable dir c {def = def} e =
      subst (All AllStartable) e (load_listing-AllStartable dir (files.read_dir dir) c) def
