-- ===== src/Seed/Registered.antt =====
-- What a directory of definitions leaves in the table.
use brokr.Common.{
  ℕ, suc, String, true, ◌==◌, Option, some, List, [], ◌∷◌, length, select, if◌then◌else◌, ◌≡◌, refl,
  ap, sym, ◌∙◌, arith, Bool-cases, inl, inr,
}
use brokr.Model.Workflow.{Workflow}
use brokr.Engine.Instance.{workflow_fields}
use brokr.Engine.Effects.{Host, Result, ok, err}
use brokr.Seed.{
  Entry, Seeded, done, refused, Files, is_definition_file, keep, then_rest, load_entries,
  load_listing, load_definitions, upsert, upserted, upsert_all, counted, seed_loaded,
  seed_definitions,
}

-- The table of definitions: a row that is written is the one that is read, under its name only.
pub record Table {F X : Type 0} (host : Host F X) : Type 0 where
  pub written :
      (name : String) (def : Workflow) {x y : X}
      → host.upsert_definition name def x ≡ (ok tt, y)
      → (wanted : String)
      → (host.first_definition wanted y).0
        ≡ (if name == wanted then ok (some def) else (host.first_definition wanted x).0)

-- What is registered under a name after the definitions, one after the other.
unfoldable pub registered :
    String → List Workflow → Result (Option Workflow) → Result (Option Workflow)
registered wanted [] old = old
registered wanted (def ∷ defs) old =
    registered wanted defs (if (workflow_fields def).id == wanted then ok (some def) else old)

module _ {F X : Type 0} (host : Host F X) where
  upserted-done :
      (def : Workflow) (r : Result (Unit {0}) × X) (rest : X → Seeded (Unit {0}) × X) {u : Unit {0}}
      {y : X}
      → upserted host def r rest ≡ (done u, y)
      → (x : X) × (r ≡ (ok tt, x)) × (rest x ≡ (done u, y))
  unfolding upserted
  upserted-done def (ok tt, x) rest e = (x, refl, e)
  upserted-done def (err f, x) rest e = ground arith

  counted-done :
      (defs : List Workflow) (r : Seeded (Unit {0}) × X) {n : ℕ} {y : X}
      → counted host defs r ≡ (done n, y)
      → (n ≡ length defs) × (r ≡ (done tt, y))
  unfolding counted
  counted-done defs (done tt, x) e = (ground arith, ground arith)
  counted-done defs (refused f, x) e = ground arith

  module _ (table : Table host) (wanted : String) where
    upsert_all-registered :
        (defs : List Workflow) (x : X) {u : Unit {0}} {y : X}
        → upsert_all host defs x ≡ (done u, y)
        → (host.first_definition wanted y).0
          ≡ registered wanted defs (host.first_definition wanted x).0
    unfolding upsert_all registered upsert
    upsert_all-registered [] x e = ap (λ r. (host.first_definition wanted r.1).0) (sym e)
    upsert_all-registered (def ∷ defs) x e =
        let (x', written, rest) = upserted-done def _ _ e in
        upsert_all-registered defs x' rest
        ∙ ap (registered wanted defs) (table.written (workflow_fields def).id def written wanted)

abbrev size : Seeded (List Workflow) → ℕ
size (done defs) = length defs
size (refused e) = 0

module _ {B C F X : Type 0} (files : Files B) (tick : C → String × C) (host : Host F X) where
  keep-length :
      (wf : Workflow) (r : Seeded (List Workflow) × C) {defs : List Workflow} (n : ℕ)
      → ((ds : List Workflow) → r.0 ≡ done ds → length ds ≡ n)
      → (keep wf r).0 ≡ done defs
      → length defs ≡ suc n
  unfolding keep
  keep-length wf (done ds, c) n h e = ap size (sym e) ∙ ap suc (h ds refl)
  keep-length wf (refused f, c) n h e = ground arith

  then_rest-length :
      (r : Seeded Workflow × C) (rest : C → Seeded (List Workflow) × C) {defs : List Workflow}
      (n : ℕ)
      → ((c : C) (ds : List Workflow) → (rest c).0 ≡ done ds → length ds ≡ n)
      → (then_rest r rest).0 ≡ done defs
      → length defs ≡ suc n
  unfolding then_rest
  then_rest-length (done wf, c) rest n h e = keep-length wf (rest c) n (h c) e
  then_rest-length (refused f, c) rest n h e = ground arith

  load_entries-length :
      (dir : String) (entries : List Entry) (c : C) {defs : List Workflow}
      → (load_entries files tick dir entries c).0 ≡ done defs
      → length defs ≡ length (select is_definition_file entries)
  unfolding load_entries select
  load_entries-length dir [] c = λ e. ap size (sym e)
  load_entries-length dir (entry ∷ entries) c = elim (Bool-cases (is_definition_file entry)) [
    | inl e ↦ rw e (then_rest-length _ _ _ (λ c' ds. load_entries-length dir entries c'))
    | inr e ↦ rw e (load_entries-length dir entries c)
  ]

  seed_loaded-done :
      (l : Seeded (List Workflow)) (x : X) {n : ℕ} {y : X}
      → seed_loaded host l x ≡ (done n, y)
      → (defs : List Workflow) × (l ≡ done defs)
        × (n ≡ length defs)
        × (upsert_all host defs x ≡ (done tt, y))
  unfolding seed_loaded
  seed_loaded-done (done defs) x e = let (m, u) = counted-done host defs _ e in (defs, refl, m, u)
  seed_loaded-done (refused f) x e = ground arith

  -- Where the table keeps what is written, a seeding that returns a number has loaded the directory,
  -- the number is that of its definition files, and under each name the table has the last definition
  -- with that id, or what it had before if there is none.
  pub seed_definitions-registered :
      (table : Table host) (dir : String) (c : C) (x : X) {entries : List Entry} {n : ℕ} {y : X}
      → files.read_dir dir ≡ some entries
      → seed_definitions files tick host true dir c x ≡ (done n, y)
      → (defs : List Workflow) × ((load_definitions files tick dir c).0 ≡ done defs)
        × (n ≡ length (select is_definition_file entries))
        × ((wanted : String)
            → (host.first_definition wanted y).0
              ≡ registered wanted defs (host.first_definition wanted x).0)
  unfolding seed_definitions load_definitions load_listing
  seed_definitions-registered table dir c x listing e =
      let (defs, loads, counts, writes) = seed_loaded-done _ x e in
      (
        defs,
        loads,
        counts
            ∙ load_entries-length dir _ c
                (ap (λ l. (load_listing files tick dir l c).0) (sym listing) ∙ loads),
        λ wanted. upsert_all-registered host table wanted defs x writes,
      )
