-- ===== src/Engine/Children/Batch.antt =====
-- A batch of children.
use brokr.Common.{suc, String, List, [], ◌∷◌, length, ◌≡◌, refl, ap, subst}
use brokr.Model.Workflow.{Workflow}
use brokr.Engine.Children.{create_child_workflow_instances_batch}
use brokr.Engine.Effects.{Host, Result, ok, err, Process, Exec, both, paired, index_out_of_range}
use brokr.Engine.Effects.Returns.{Returns, Returns-pure, Returns-bind, ok-injective}

module _ {A B : Type 0} {Q : B → Type 0} where
  second_ok :
      (r : Result A) (s : Result B) {c : A × B}
      → ((b : B) → s ≡ ok b → Q b)
      → paired r s ≡ ok c
      → Q c.1
  unfolding paired
  second_ok (ok a) (ok b) h e = subst (λ c. Q c.1) (ok-injective e) (h b refl)
  second_ok (ok a) (err x) h e = cc
  second_ok (err x) (ok b) h e = cc
  second_ok (err x) (err index_out_of_range) h e = cc
  second_ok (err x) (err y) h e = cc

  both-Returns :
      {X : Type 0} (m : Exec X A) (n : Exec X B) → Returns Q n → Returns (λ c. Q c.1) (both m n)
  unfolding both
  both-Returns m n h = record { at = λ p c e. second_ok (m p).0 (n (m p).1).0 (h.at (m p).1) e }

module _ {F X : Type 0} (host : Host F X) where
  batch-Returns :
      (parent_id : String) (defs : List Workflow) (generation : String)
      → Returns
          (λ ids. length ids ≡ length defs)
          (create_child_workflow_instances_batch host parent_id defs generation)
  unfolding create_child_workflow_instances_batch
  batch-Returns parent_id [] generation = Returns-pure _ refl
  batch-Returns parent_id (def ∷ defs) generation =
      Returns-bind (λ c. length c.1 ≡ length defs) _ _
        (both-Returns _ _ (batch-Returns parent_id defs generation))
        λ c e. Returns-pure _ (ap suc e)

  -- A batch that succeeds has one id for each definition.
  pub length-create_child_workflow_instances_batch :
      (parent_id : String) (defs : List Workflow) (generation : String) (p : Process X)
      {ids : List String}
      → (create_child_workflow_instances_batch host parent_id defs generation p).0 ≡ ok ids
      → length ids ≡ length defs
  length-create_child_workflow_instances_batch parent_id defs generation p {ids} e =
      (batch-Returns parent_id defs generation).at p ids e
