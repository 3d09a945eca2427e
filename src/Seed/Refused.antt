-- ===== src/Seed/Refused.antt =====
-- A directory with a bad file.
use mathlib.Core.List.{Memᴰ}
use brokr.Common.{
  String, true, ◌==◌, none, some, List, [], ◌∷◌, ◌≡◌, refl, ap, sym, ◌∙◌, subst, arith, Bool-cases,
  inl, inr, ◌⊎◌,
}
use brokr.Model.Workflow.{Workflow, workflow, nil, cons}
use brokr.Engine.Instance.{workflow_fields, workflow_states}
use brokr.Engine.Effects.{Host}
use brokr.Seed.{
  Entry, SeedError, Seeded, done, refused, Files, is_definition_file, with_states, checked, parsed,
  keep, then_rest, load_entries, load_listing, load_definitions, seed_loaded, seed_definitions,
}

-- A file that cannot be read or parsed, or whose definition has no id or no states.
pub data IsBad {B : Type 0} (files : Files B) (dir name : String) : Type 0 where
  unreadable : files.read_file dir name ≡ none → IsBad files dir name
  unparsed :
      (b : B) → files.read_file dir name ≡ some b → files.unmarshal b ≡ none → IsBad files dir name
  incomplete :
      (b : B) (wf : Workflow)
      → files.read_file dir name ≡ some b
      → files.unmarshal b ≡ some wf
      → (((workflow_fields wf).id == "") ≡ true) ⊎ (workflow_states wf ≡ [])
      → IsBad files dir name

abbrev Fails : {A : Type 0} → Seeded A → Type 0
Fails {A} r = (e : SeedError) × (r ≡ refused e)

module _ {B C : Type 0} (files : Files B) (tick : C → String × C) (dir : String) where
  incomplete-Fails :
      (name : String) (wf : Workflow) (c : C)
      → (((workflow_fields wf).id == "") ≡ true) ⊎ (workflow_states wf ≡ [])
      → Fails (checked files tick name (some wf) c).0
  unfolding checked with_states
  incomplete-Fails name wf c (inl e) = rw e (_, refl)
  incomplete-Fails name (workflow f nil ts cs) c (inr e) = elim (Bool-cases (f.id == "")) [
    | inl n ↦ rw n (_, refl)
    | inr n ↦ rw n (_, refl)
  ]
  incomplete-Fails name (workflow f (cons s ss) ts cs) c (inr e) = ground arith

  parsed-Fails :
      (name : String) (c : C)
      → IsBad files dir name
      → Fails (parsed files tick name (files.read_file dir name) c).0
  unfolding parsed checked
  parsed-Fails name c (IsBad.unreadable r) = rw r (_, refl)
  parsed-Fails name c (IsBad.unparsed b r u) = rw (r, u) (_, refl)
  parsed-Fails name c (IsBad.incomplete b wf r u i) = rw (r, u) (incomplete-Fails name wf c i)

  keep-Fails : (wf : Workflow) (r : Seeded (List Workflow) × C) → Fails r.0 → Fails (keep wf r).0
  unfolding keep
  keep-Fails wf (done ds, c) (e, h) = ground arith
  keep-Fails wf (refused f, c) h = (f, refl)

  head-Fails :
      (r : Seeded Workflow × C) (rest : C → Seeded (List Workflow) × C)
      → Fails r.0
      → Fails (then_rest r rest).0
  unfolding then_rest
  head-Fails (done wf, c) rest (e, h) = ground arith
  head-Fails (refused f, c) rest h = (f, refl)

  tail-Fails :
      (r : Seeded Workflow × C) (rest : C → Seeded (List Workflow) × C)
      → ((c : C) → Fails (rest c).0)
      → Fails (then_rest r rest).0
  unfolding then_rest
  tail-Fails (done wf, c) rest h = keep-Fails wf (rest c) (h c)
  tail-Fails (refused f, c) rest h = (f, refl)

  load_entries-Fails :
      (entries : List Entry) (c : C) {entry : Entry}
      → Memᴰ entry entries
      → is_definition_file entry ≡ true
      → IsBad files dir entry.name
      → Fails (load_entries files tick dir entries c).0
  unfolding load_entries
  load_entries-Fails [] c m d b = elim m [ ]
  load_entries-Fails (x ∷ entries) c (Memᴰ.head e) d b =
      let is_file = ap is_definition_file (sym e) ∙ d in
      let bad = subst (λ entry. IsBad files dir entry.name) e b in
      rw is_file (head-Fails _ _ (parsed-Fails x.name c bad))
  load_entries-Fails (x ∷ entries) c (Memᴰ.tail m) d b = elim (Bool-cases (is_definition_file x)) [
    | inl e ↦ rw e (tail-Fails _ _ (λ c'. load_entries-Fails entries c' m d b))
    | inr e ↦ rw e (load_entries-Fails entries c m d b)
  ]

  -- Where some definition file of the directory is bad, the seeding returns an error, and writes nothing.
  pub seed_definitions-bad :
      {F X : Type 0} (host : Host F X) (c : C) (x : X) {entries : List Entry} {entry : Entry}
      → files.read_dir dir ≡ some entries
      → Memᴰ entry entries
      → is_definition_file entry ≡ true
      → IsBad files dir entry.name
      → (e : SeedError) × (seed_definitions files tick host true dir c x ≡ (refused e, x))
  unfolding seed_definitions load_definitions load_listing seed_loaded
  seed_definitions-bad host c x listing m d b =
      let (e, fails) = load_entries-Fails _ c m d b in
      (
        e,
        ap (λ l. seed_loaded host (load_listing files tick dir l c).0 x) listing
            ∙ ap (λ l. seed_loaded host l x) fails,
      )
