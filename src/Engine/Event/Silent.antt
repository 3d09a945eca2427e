-- ===== src/Engine/Event/Silent.antt =====
-- What processEvent tells the rest of the process: one published event and at most one attempt of
-- an auto-join when it succeeds, nothing when it fails.
use brokr.Common.{
  String, Bool, true, false, not, ◌&&◌, subst, Option, none, some, List, [], ◌∷◌, ◌++◌, ◌≡◌, refl,
  ◌∙◌, sym, ap, if◌then◌else◌, Bool-cases, inl, inr,
}
use brokr.Model.State.{get_id}
use brokr.Engine.Activities.{arm_state_activities}
use brokr.Engine.Activities.Kept.{arm-Keeps, arm_ok}
use brokr.Engine.Effects.{
  Host, Error, Result, ok, err, Process, Exec, WorkflowTransitionEvent, ◌>>=◌, continue, pure,
}
use brokr.Engine.Effects.Returns.{bind_ok, bind_err, ok-injective, ok≢err}
use brokr.Engine.Effects.Keeps.{Keeps, Keeps-if, Keeps-pure}
use brokr.Engine.Event.{
  Outcome, transact, transaction, after_commit, process_event, publish_transition, spawn_auto_join,
}
use brokr.Engine.Instance.{WorkflowInstance}
use brokr.Engine.Event.Recorded.{IsWritten, transact-Recorded, transaction_ok}
use brokr.Engine.Event.Heard.{Heard, Same-IsBackground, transact-Same, transaction-Same}

-- What is published for a saved row, and the parents that are to be joined after it.
abbrev pub announcement : String → String → WorkflowInstance → WorkflowTransitionEvent
announcement id event row = record {
  workflow_instance_id = id;
  event = event;
  last_transition = row.last_transition;
  current_state = row.current_state.state;
  substate = row.current_state.substate;
}

abbrev pub parents : Bool → Option String → List String
parents true (some parent) = parent ∷ []
parents _ _ = []

module _ {F X : Type 0} (host : Host F X) (id event : String) where
  spawn-parents :
      (done : Bool) (parent : Option String) (p : Process X)
      → spawn_auto_join done parent p
        ≡ (ok tt, record p { auto_joins = parents done parent ++ p.auto_joins })
  unfolding spawn_auto_join
  spawn-parents true (some parent) p = refl
  spawn-parents true none p = refl
  spawn-parents false _ p = refl

  armed : Outcome → Exec X (Unit {0})
  armed o = if o.moved then arm_state_activities host id o.row o.row.context_map else pure tt

  armed_ok : (o : Outcome) (p : Process X) → (armed o p).0 ≡ ok tt
  unfolding armed pure
  armed_ok o p = elim (Bool-cases o.moved) [
    | inl e ↦ rw e (arm_ok host id o.row o.row.context_map p)
    | inr e ↦ rw e
  ]

  armed-Same :
      (o : Outcome) (events : List WorkflowTransitionEvent) (joins : List String)
      (commands : List (String × String))
      → Keeps (Heard events joins commands) (armed o)
  unfolding armed
  armed-Same o events joins commands =
      Keeps-if o.moved _ _
        (arm-Keeps host (Same-IsBackground host events joins commands) id o.row o.row.context_map)
        (Keeps-pure tt)

  told :
      (o : Outcome) (p q : Process X)
      → Heard p.published p.auto_joins p.dispatched q
      → ((publish_transition id event o.row >>= λ _.
              spawn_auto_join o.just_completed o.row.parent_id)
            q).0
          ≡ ok tt
        × Heard
            (announcement id event o.row ∷ p.published)
            (parents o.just_completed o.row.parent_id ++ p.auto_joins)
            p.dispatched
            ((publish_transition id event o.row >>= λ _.
                spawn_auto_join o.just_completed o.row.parent_id)
              q).1
  unfolding publish_transition ◌>>=◌ continue
  told o p q (e, j, c) = rw spawn-parents (
    refl,
    (
      ap (λ es. announcement id event o.row ∷ es) e,
      ap (λ js. parents o.just_completed o.row.parent_id ++ js) j,
      c,
    ),
  )

  after_commit_lem :
      (o : Outcome) (p : Process X)
      → ((after_commit host id event o p).0 ≡ ok tt)
        × Heard
            (announcement id event o.row ∷ p.published)
            (parents o.just_completed o.row.parent_id ++ p.auto_joins)
            p.dispatched
            (after_commit host id event o p).1
  unfolding after_commit armed
  after_commit_lem o p = rw (bind_ok (armed o) _ p (armed_ok o p)) (
      told o p (armed o p).1
        ((armed-Same o p.published p.auto_joins p.dispatched).at p (refl, refl, refl)))

  transaction-Heard :
      (p : Process X)
      → Heard p.published p.auto_joins p.dispatched (transaction host (transact host id event) p).1
  transaction-Heard p =
      (transaction-Same host p.published p.auto_joins p.dispatched (transact host id event)
          (transact-Same host p.published p.auto_joins p.dispatched id event)).at
        p (refl, refl, refl)

  committed :
      (p : Process X) (o : Outcome)
      → (transaction host (transact host id event) p).0 ≡ ok o
      → process_event host id event p ≡ (
        ok (get_id o.row.current_state.state),
        (after_commit host id event o (transaction host (transact host id event) p).1).1,
      )
  unfolding process_event pure
  committed p o h =
      bind_ok _ _ p h ∙ bind_ok (after_commit host id event o) _ _ (after_commit_lem o _).0

  rolled_back :
      (p : Process X) (x : Error)
      → (transaction host (transact host id event) p).0 ≡ err x
      → process_event host id event p ≡ (err x, (transaction host (transact host id event) p).1)
  unfolding process_event
  rolled_back p x h = bind_err _ _ p h

  failed_case :
      (p : Process X) (r : Result Outcome) (e : Error)
      → (transaction host (transact host id event) p).0 ≡ r
      → (process_event host id event p).0 ≡ err e
      → (process_event host id event p).1 ≡ (transaction host (transact host id event) p).1
  failed_case p (ok o) e h failed = absurd (ok≢err (sym (ap (λ q. q.0) (committed p o h)) ∙ failed))
  failed_case p (err x) e h failed = ap (λ q. q.1) (rolled_back p x h)

  -- An event that fails leaves the process as its transaction left it.
  pub process_event_failed :
      (p : Process X) (e : Error)
      → (process_event host id event p).0 ≡ err e
      → (process_event host id event p).1 ≡ (transaction host (transact host id event) p).1
  process_event_failed p e failed = failed_case p _ e refl failed

  announced_case :
      (p : Process X) (r : Result Outcome) (s : String)
      → (transaction host (transact host id event) p).0 ≡ r
      → (process_event host id event p).0 ≡ ok s
      → (o : Outcome) × ((transaction host (transact host id event) p).0 ≡ ok o)
        × (s ≡ get_id o.row.current_state.state)
        × Heard
            (announcement id event o.row ∷ p.published)
            (parents o.just_completed o.row.parent_id ++ p.auto_joins)
            p.dispatched
            (process_event host id event p).1
  announced_case p (err x) s h done = absurd (ok≢err (sym done ∙ ap (λ q. q.0) (rolled_back p x h)))
  announced_case p (ok o) s h done =
      let (events, joins, commands) = transaction-Heard p in
      let (e, j, c) = (after_commit_lem o (transaction host (transact host id event) p).1).1 in
      (
        o,
        h,
        ok-injective (sym done ∙ ap (λ q. q.0) (committed p o h)),
        rw (committed p o h) (
          e ∙ ap (λ es. announcement id event o.row ∷ es) events,
          j ∙ ap (λ js. parents o.just_completed o.row.parent_id ++ js) joins,
          c ∙ commands,
        ),
      )

  -- An event that fails is heard of nowhere: nothing is published, no auto-join is attempted, and no
  -- command is dispatched.
  pub process_event_silent :
      (p : Process X) (e : Error)
      → (process_event host id event p).0 ≡ err e
      → Heard p.published p.auto_joins p.dispatched (process_event host id event p).1
  process_event_silent p e failed = rw (process_event_failed p e failed) (transaction-Heard p)

  -- An event that succeeds has committed its transaction.
  pub committed_outcome :
      (p : Process X) (s : String)
      → (process_event host id event p).0 ≡ ok s
      → (o : Outcome) × ((transaction host (transact host id event) p).0 ≡ ok o)
  committed_outcome p s done =
      let (o, ended, same, heard) = announced_case p _ s refl done in (o, ended)

  -- What an event that leads from `p` to `q` and answers `s` has done: it opened a transaction and read a
  -- row in it, wrote a row and committed that write; it published that row once, and began an auto-join
  -- of its parent if the row that was read was not complete and the one that was written is.
  pub record Announced (p q : Process X) (s : String) : Type 0 where
    pub old : WorkflowInstance
    pub row : WorkflowInstance
    pub written_in : X
    pub begun : (host.begin p.world).0 ≡ ok tt
    pub read : (host.first_instance id (host.begin p.world).1).0 ≡ ok old
    pub written : IsWritten host row written_in
    pub committed : (host.commit written_in).0 ≡ ok tt
    pub answer : s ≡ get_id row.current_state.state
    pub heard :
        Heard
          (announcement id event row ∷ p.published)
          (parents (not old.complete && row.complete) row.parent_id ++ p.auto_joins)
          p.dispatched
          q

  -- An event that succeeds has read a row, and has written and committed one; it publishes one event,
  -- for the row that was written and whose state is returned; it attempts an auto-join of that row's
  -- parent exactly if the row that was read was not complete and the one that was written is.
  pub process_event_announces :
      (p : Process X) (s : String)
      → (process_event host id event p).0 ≡ ok s
      → Announced p (process_event host id event p).1 s
  process_event_announces p s done =
      let (o, ended, same, heard) = announced_case p _ s refl done in
      let (begin, ran, commit) = transaction_ok host (transact host id event) p o ended in
      let (wf, read, recorded) =
        transact-Recorded host id event (record p { world = (host.begin p.world).1 }) o ran in
      record {
        old = wf;
        row = o.row;
        written_in = _;
        begun = begin;
        read = read;
        written = recorded.written;
        committed = commit;
        answer = same;
        heard =
            subst
              (λ b.
                Heard (announcement id event o.row ∷ p.published)
                  (parents b o.row.parent_id ++ p.auto_joins) p.dispatched
                  (process_event host id event p).1)
              recorded.just_completed heard;
      }
