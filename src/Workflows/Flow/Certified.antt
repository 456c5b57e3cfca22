-- ===== src/Workflows/Flow/Certified.antt =====
-- backend/app/services/workflows.py: what `publish` and `activate` have checked when they succeed.
use appbi_integration.Base.{
  ℕ, String, ◌≡◌, refl, sym, ap, ◌∙◌, subst, Bool, true, false, not, ◌||◌, Option, none, some, List,
  [], ◌∷◌, ◌++◌, map, ◌==◌, Bool-cases, inl, inr, arith,
}
use appbi_integration.Base.Lists.{find_first, select, any, any-append}
use appbi_integration.Json.{Fields}
use appbi_integration.Graph.Issue.{Issue, is_error, is_ok, errors, is_nil}
use appbi_integration.Graph.Validate.{validate_graph}
use appbi_integration.Permissions.{Module, Action}
use appbi_integration.Context.{RequestContext, require_context}
use appbi_integration.Errors.{
  AppError, ok, err, demand, bind-ok, ok-injective, workflow_invalid, credential_invalid,
}
use appbi_integration.Workflows.Flow.{
  Found, in_graph, from_engine, EngineState, EngineAnswer, out_of_reach, answered, Draft, Flow,
  FlowVersion, Flows, Tools, Report, CredentialRow, is_flow, get_flow, draft_of, write_flow,
  first_trigger,
}
use appbi_integration.Workflows.Flow.Edit.{refuse_if, is_active_flow}
use appbi_integration.Workflows.Flow.Publish.{
  credential_issues, is_blocking, examine, validate_draft, revision_if_given, is_unavailable,
  with_dry_run, engine_outcome, certify, new_version, add_version, publish, wanted_version,
  trigger_or_refuse, next_if_schedule, switch_on, activate,
}
use appbi_integration.Workflows.Flow.Requests.{get_flow-find}
use appbi_integration.Workflows.Flow.Revisions.{find-write_flow_row, first_is}
use appbi_integration.Workflows.Flow.Served.{validate_draft-versions}

certified :
    (report : Report)
    → certify report ≡ ok tt
    → (report.passed ≡ true) × (is_unavailable report.engine ≡ false)
certified report h = elim (Bool-cases report.passed) [
  | inl p ↦ elim (Bool-cases (is_unavailable report.engine)) [
    | inl q ↦ cc (rw q at (rw p at h))
    | inr q ↦ (p, q)
  ]
  | inr p ↦ cc (rw p at h)
]

no_error :
    (issues : List Issue)
    → any is_blocking (map (λ i. in_graph i) issues) ≡ false
    → is_nil (select is_error issues) ≡ true
no_error [] h = refl
no_error (i ∷ rest) h = elim (Bool-cases (is_error i)) [
  | inl j ↦ cc (rw j at h)
  | inr j ↦ rw j (no_error rest (rw j at h))
]

either_none :
    (b c : List Found)
    → any is_blocking (b ++ c) ≡ false
    → (any is_blocking b ≡ false) × (any is_blocking c ≡ false)
either_none b c h =
    split (any is_blocking b) (any is_blocking c) (sym (any-append is_blocking b c) ∙ h)
  where
    split : (x y : Bool) → (x || y) ≡ false → (x ≡ false) × (y ≡ false)
    split x y h = (ground arith, ground arith)

-- A dry run that leaves nothing that blocks was made, and had nothing to say that blocks.
ran :
    (issues : List Found) (outcome : EngineState × List Found)
    → any is_blocking (issues ++ (with_dry_run (not (any is_blocking issues)) outcome).1) ≡ false
    → (any is_blocking issues ≡ false)
      × (with_dry_run (not (any is_blocking issues)) outcome ≡ outcome)
      × (any is_blocking outcome.1 ≡ false)
ran issues outcome h =
    let (before, after) = either_none issues _ h in
    let made = ap (λ (b : Bool). with_dry_run (not b) outcome) before in
    (before, made, ap (λ (o : EngineState × List Found). any is_blocking o.1) (sym made) ∙ after)

-- The engine was in reach, and none of its diagnostics is an error.
abbrev pub Runs : EngineAnswer → Type 0
Runs answer =
    (fits : Bool) × (found : List (String × Bool)) × (answer ≡ answered fits found)
    × (any (λ d. d.1) found ≡ false)

outcome-Runs :
    (answer : EngineAnswer)
    → is_unavailable (engine_outcome answer).0 ≡ false
    → any is_blocking (engine_outcome answer).1 ≡ false
    → Runs answer
outcome-Runs (out_of_reach code) h k = cc
outcome-Runs (answered fits found) h k = (fits, found, refl, sym (severe found) ∙ k)
  where
    severe :
        (l : List (String × Bool))
        → any is_blocking (map (λ d. from_engine d.0 d.1) l) ≡ any (λ d. d.1) l
    severe [] = refl
    severe ((code, b) ∷ l) = rw (severe l) refl

-- What a passing report with an engine in reach says of the graph, by each of the three checks.
abbrev pub PassesChecks : Tools → RequestContext → List CredentialRow → Fields → Type 0
PassesChecks tools ctx credentials graph =
    (is_ok (validate_graph graph tools.definitions true) ≡ true)
    × (any is_blocking
          (credential_issues tools ctx credentials (validate_graph graph tools.definitions true)).0
        ≡ false)
    × Runs (
        tools.dry_run graph
          (credential_issues tools ctx credentials (validate_graph graph tools.definitions true)).1)

examine-PassesChecks :
    (tools : Tools) (ctx : RequestContext) (credentials : List CredentialRow) (graph : Fields)
    → (examine tools ctx credentials true graph).passed ≡ true
    → is_unavailable (examine tools ctx credentials true graph).engine ≡ false
    → PassesChecks tools ctx credentials graph
unfolding examine is_ok errors
examine-PassesChecks tools ctx credentials graph h reached =
    let result = validate_graph graph tools.definitions true in
    let (unusable, rows) = credential_issues tools ctx credentials result in
    let issues = map (λ i. in_graph i) result.issues ++ unusable in
    let (none_before, made, none_after) =
      ran issues (engine_outcome (tools.dry_run graph rows)) (un_not _ h) in
    let (valid, usable) = either_none (map (λ i. in_graph i) result.issues) unusable none_before in
    (
      no_error result.issues valid,
      usable,
      outcome-Runs (tools.dry_run graph rows)
          (ap (λ (o : EngineState × List Found). is_unavailable o.0) (sym made) ∙ reached)
          none_after,
    )
  where
    un_not : (b : Bool) → not b ≡ true → b ≡ false
    un_not b h = ground arith

-- The report of a validation is the one of the draft that is stored.
reported :
    (tools : Tools) (ctx : RequestContext) (id : ℕ) (s d : Flows) (report : Report) (f : Flow)
    (draft : Draft)
    → get_flow s ctx id ≡ ok f
    → draft_of f.draft ≡ ok draft
    → validate_draft tools ctx id true s ≡ ok (report, d)
    → report ≡ examine tools ctx s.credentials true draft.graph
unfolding validate_draft
reported tools ctx id s d report f draft found has h =
    let (a, p, h1) = bind-ok (demand (require_context ctx Module.workflows Action.view)) _ h in
    ap (λ (x : Report × Flows). x.0) (sym (ok-injective (rw has at (rw found at h1))))

-- What is published was a draft of the workspace whose graph is valid by the registry, names no credential that
-- cannot be used, and was given to the engine, which answered with no diagnostic that is an error; the
-- new version is its graph, and it comes after all the others. Whether the engine calls the graph
-- compiled is not asked.
pub publish-certified :
    (tools : Tools) (ctx : RequestContext) (id : ℕ) (expected : Option ℕ) (s d : Flows) (number : ℕ)
    → publish tools ctx id expected s ≡ ok (number, d)
    → (f : Flow) × (draft : Draft) × (v : FlowVersion) × (find_first
          (is_flow ctx.workspace_id id)
          s.flows
        ≡ some f)
      × (f.draft ≡ some draft)
      × PassesChecks tools ctx s.credentials draft.graph
      × (v.graph ≡ draft.graph)
      × (v.version_number ≡ number)
      × (d.versions ≡ s.versions ++ v ∷ [])
unfolding publish new_version add_version
publish-certified tools ctx id expected s d number h =
    let (a, p, h1) = bind-ok (demand (require_context ctx Module.workflows Action.publish)) _ h in
    let (f, found, h2) = bind-ok (get_flow s ctx id) _ h1 in
    let (draft, has, h3) = bind-ok (draft_of f.draft) _ h2 in
    let (b, same, h4) = bind-ok (revision_if_given expected draft.revision) _ h3 in
    let (outcome, examined, h5) = bind-ok (validate_draft tools ctx id true s) _ h4 in
    let (c, passes, h6) = bind-ok (certify outcome.0) _ h5 in
    let (row, again, h7) = bind-ok (get_flow outcome.1 ctx id) _ h6 in
    let report = reported tools ctx id s outcome.1 outcome.0 f draft found has examined in
    let (passed, reached) = certified outcome.0 passes in
    let v = new_version outcome.1.next_id row draft outcome.1.versions in
    (
      f,
      draft,
      v,
      get_flow-find s ctx id f found,
      draft_some f.draft draft has,
      examine-PassesChecks tools ctx s.credentials draft.graph
          (subst (λ (r : Report). r.passed ≡ true) report passed)
          (subst (λ (r : Report). is_unavailable r.engine ≡ false) report reached),
      refl,
      ap (λ (x : ℕ × Flows). x.0) (ok-injective h7),
      ap (λ (x : ℕ × Flows). x.1.versions) (sym (ok-injective h7))
          ∙ ap (λ (l : List FlowVersion). l ++ v ∷ [])
              (validate_draft-versions tools ctx id true s outcome.1 outcome.0 examined),
    )
  where
    draft_some : (o : Option Draft) (x : Draft) → draft_of o ≡ ok x → o ≡ some x
    draft_some none x h = cc
    draft_some (some y) x h = cc

passed_by : (b : Bool) (e : AppError) → refuse_if b (err e) ≡ ok tt → b ≡ false
passed_by true e h = cc
passed_by false e h = refl

-- What an activation leaves active is the version that was asked for, or the latest published one; its
-- graph is valid by the registry of that moment and it names no credential that cannot be used.
pub activate-checked :
    (tools : Tools) (ctx : RequestContext) (id : ℕ) (number : Option ℕ) (now : ℕ) (s d : Flows)
    → activate tools ctx id number now s ≡ ok d
    → (f : Flow) × (v : FlowVersion) × (f' : Flow) × (find_first
          (is_flow ctx.workspace_id id)
          s.flows
        ≡ some f)
      × (wanted_version f number f.published_version_id s.versions ≡ ok v)
      × (is_ok (validate_graph v.graph tools.definitions true) ≡ true)
      × (any is_blocking
            (credential_issues tools ctx s.credentials
              (validate_graph v.graph tools.definitions true)).0
          ≡ false)
      × (find_first (is_flow ctx.workspace_id id) d.flows ≡ some f')
      × (f'.active_version_id ≡ some v.id)
      × (is_active_flow f'.status ≡ true)
unfolding activate write_flow
activate-checked tools ctx id number now s d h =
    let (a, p, h1) = bind-ok (demand (require_context ctx Module.workflows Action.publish)) _ h in
    let (f, found, h2) = bind-ok (get_flow s ctx id) _ h1 in
    let (v, chosen, h3) =
      bind-ok (wanted_version f number f.published_version_id s.versions) _ h2 in
    let result = validate_graph v.graph tools.definitions true in
    let (b, valid, h4) =
      bind-ok (refuse_if (not (is_ok result)) (err (workflow_invalid result.issues))) _ h3 in
    let (c, usable, h5) =
      bind-ok
        (refuse_if (any is_blocking (credential_issues tools ctx s.credentials result).0)
          (err credential_invalid))
        _ h4 in
    let (binding, there, h6) = bind-ok (trigger_or_refuse (first_trigger f.triggers)) _ h5 in
    let (next, fires, h7) = bind-ok (next_if_schedule tools now binding) _ h6 in
    let was = get_flow-find s ctx id f found in
    let here = first_is (is_flow ctx.workspace_id id) s.flows f was in
    (
      f,
      v,
      switch_on v next binding f,
      was,
      chosen,
      un_not (is_ok result) (passed_by (not (is_ok result)) (workflow_invalid result.issues) valid),
      passed_by _ credential_invalid usable,
      subst
          (λ (x : Flows).
            find_first (is_flow ctx.workspace_id id) x.flows ≡ some (switch_on v next binding f))
          (ok-injective h7)
          (find-write_flow_row ctx.workspace_id id (switch_on v next binding f) f s.flows here
            (row_id ctx.workspace_id id f here) was),
      refl,
      refl,
    )
  where
    un_not : (b : Bool) → not b ≡ false → b ≡ true
    un_not b h = ground arith

    row_id : (w id : ℕ) (f : Flow) → is_flow w id f ≡ true → (f.id == id) ≡ true
    row_id w id f h = ground arith
