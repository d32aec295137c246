-- ===== src/Apps/Repos/Laws.antt =====
-- What a request to add a repo leaves in the table.
use bandolier.Prelude.{
  ℕ, String, Bool, true, false, ◌≡◌, refl, List, [], ◌∷◌, Option, none, some, ◌||◌, ◌==◌, arith,
}
use bandolier.Text.{trim_space}
use bandolier.Response.{Response, created}
use bandolier.Result.{Error, ok, err, is_ok}
use bandolier.Store.Tables.{Db, Repo, Action, Outcome, Details}
use bandolier.Store.Audits.{Entry, insert_audit_entry}
use bandolier.World.{Ctx, Env, World, helm}
use bandolier.World.Calls.{statement, tick}
use bandolier.World.Triples.{Ends-by, Spec, Spec-ignore, Spec-modify}
use bandolier.World.Returns.{
  Returns, SpecR, Never, SpecR-bind, SpecR-pure, if-SpecR, statement_ok-Spec,
}
use bandolier.World.Attempts.{SpecR-attempt}
use bandolier.World.Rules.{Ends-always}
use bandolier.Deployments.Effects.{audit, emit}
use bandolier.Deployments.Stable.{Stable}
use bandolier.Apps.Helm.{repo_add, combined_output}
use bandolier.Apps.Helm.Specs.{helm_factory_for-Spec}
use bandolier.Apps.Store.{has_repo, create_repo}
use bandolier.Apps.Store.Laws.{create_repo-has_repo, create_repo-err}
use bandolier.Apps.Repos.{answered, on_row, on_added, on_helm, add_checked, add_repo_handler}

abbrev pub add_args : String → String → List String
add_args name url = "repo" ∷ "add" ∷ "--force-update" ∷ name ∷ url ∷ []

-- The table of repos holds these rows.
record Holds (rs : List Repo) (w : World) : Type 0 where
  repos : w.db.repos ≡ rs

-- helm has accepted the repo.
abbrev pub IsAccepted : Env → String → String → Type 0
IsAccepted env name url = (n : ℕ) × (env.outcome (helm (add_args name url)) n ≡ none)

-- The repo is new, helm has accepted it, and it is in the table.
pub record Added (env : Env) (cluster_id name url : String) (rs : List Repo) (w : World)
    : Type 0 where
  pub accepted : IsAccepted env name url
  pub new : has_repo cluster_id name rs ≡ false
  pub stored : has_repo cluster_id name w.db.repos ≡ true

abbrev pub is_created : Response → Bool
is_created (created id) = true
is_created _ = false

abbrev pub AddedIf : Env → String → String → String → World → World → Bool → Type 0
AddedIf env cluster_id name url w₀ w true = Added env cluster_id name url w₀.db.repos w
AddedIf env cluster_id name url w₀ w false = w.db.repos ≡ w₀.db.repos

Holds-Stable : (dep : String) (rs : List Repo) → Stable dep (Holds rs)
unfolding emit
Holds-Stable dep rs = record {
  on_emit = λ e w early h. record { repos = h.repos };
  on_call = λ v w h. record { repos = h.repos };
}

insert_audit_entry-repos :
    (now : ℕ) (e : Entry) (db : Db) → (insert_audit_entry now e db).1.repos ≡ db.repos
unfolding insert_audit_entry
insert_audit_entry-repos now e db = ground arith

accepted_outcome :
    (o : Option String) (f : String → Error)
    → is_ok {A = Unit {0}} (elim o [ none ↦ ok tt | some e ↦ err (f e) ]) ≡ true
    → o ≡ none
accepted_outcome none f h = refl
accepted_outcome (some e) f h = cc

module _ (env : Env) (ctx : Ctx) (actor : ℕ) (cluster_id : String) where
  -- An audit row touches no repo.
  audit-Spec :
      {P E : World → Type 0} (action : Action) (o : Outcome) (d : Details)
      → ((w v : World) → v.db.repos ≡ w.db.repos → P w → P v)
      → Spec P P E (audit env ctx actor action cluster_id o d)
  unfolding audit
  audit-Spec {P} action o d keeps = Spec-ignore _ (
      statement_ok-Spec env ctx _ (λ w p. keeps w _ refl p)
        (λ w p. Ends-always P _ _ (keeps w _ (insert_audit_entry-repos w.clock _ w.db) p)))

  module _ (name url : String) (w₀ : World) where
    abbrev Answer : Response → World → Type 0
    Answer r w = AddedIf env cluster_id name url w₀ w (is_created r)

    abbrev Before : World → Type 0
    Before = Holds w₀.db.repos

    refused-SpecR :
        (action : Action) (o : Outcome) (d : Details) (r : Response)
        → is_created r ≡ false
        → SpecR Before Answer Never (answered env ctx actor cluster_id action o d r)
    refused-SpecR action o d r e =
        SpecR-bind _ _
          (audit-Spec action o d (λ w v same h. record { repos = rw (same, h.repos) refl }))
          (λ _. SpecR-pure r (λ w h. rw e h.repos))

    abbrev After : World → Type 0
    After = Added env cluster_id name url w₀.db.repos

    on_row-SpecR :
        (id : ℕ) → SpecR After Answer Never (on_row env ctx actor cluster_id name url (ok id))
    on_row-SpecR id =
        SpecR-bind {Q = After} _ _
          (Spec-modify _ (λ w a. record { accepted = a.accepted; new = a.new; stored = a.stored }))
          (λ _.
            SpecR-bind _ _
              (audit-Spec _ _ _ (λ w v same a. record {
                accepted = a.accepted;
                new = a.new;
                stored = rw same a.stored;
              }))
              (λ _. SpecR-pure (created id) (λ w a. a)))

    record Willing (w : World) : Type 0 where
      accepted : IsAccepted env name url
      repos : w.db.repos ≡ w₀.db.repos

    create-Spec :
        (by : Option ℕ)
        → Spec Willing After Before
            (statement env ctx λ now. create_repo now cluster_id name url by)
    create-Spec by =
        statement_ok-Spec env ctx _ (λ w p. record { repos = p.repos })
          (λ w p.
            Ends-by After Before _ _
              (λ o.
                let (new, stored) = create_repo-has_repo w.clock cluster_id name url by w.db o in
                record { accepted = p.accepted; new = rw (← p.repos) new; stored = stored })
              (λ o. record {
                repos = rw (create_repo-err w.clock cluster_id name url by w.db o) p.repos;
              }))

    repo_add-Spec : Spec Before Willing Before (repo_add env name url)
    unfolding repo_add combined_output
    repo_add-Spec = record {
      at = λ w h.
          Ends-by Willing Before _ (tick w)
            (λ o. record { accepted = (w.clock, accepted_outcome _ _ o); repos = h.repos })
            (λ o. record { repos = h.repos });
    }

    on_added-SpecR : SpecR Willing Answer Never (on_added env ctx actor cluster_id name url (ok tt))
    on_added-SpecR =
        SpecR-attempt After Before _ (on_row env ctx actor cluster_id name url) (create-Spec _)
          on_row-SpecR (λ e. refused-SpecR _ _ _ _ refl)

    on_helm-SpecR :
        (kubeconfig : String)
        → SpecR Before Answer Never (on_helm env ctx actor cluster_id name url (ok kubeconfig))
    on_helm-SpecR kubeconfig =
        SpecR-attempt Willing Before _ (on_added env ctx actor cluster_id name url) repo_add-Spec
          (λ u. on_added-SpecR) (λ e. refused-SpecR _ _ _ _ refl)

    add_checked-SpecR : SpecR Before Answer Never (add_checked env ctx actor cluster_id name url)
    unfolding add_checked
    add_checked-SpecR =
        if-SpecR (name == "" || url == "") _ _ (λ e. refused-SpecR _ _ _ _ refl)
          (λ e.
            SpecR-attempt Before Before _ (on_helm env ctx actor cluster_id name url)
              (helm_factory_for-Spec (Holds-Stable "" w₀.db.repos) env ctx cluster_id) on_helm-SpecR
              (λ x. refused-SpecR _ _ _ _ refl))

-- The name and the url of a body, trimmed; a body that is no JSON has neither.
abbrev pub body_name : Option (String × String) → String
body_name none = ""
body_name (some b) = trim_space b.0

abbrev pub body_url : Option (String × String) → String
body_url none = ""
body_url (some b) = trim_space b.1

-- The request to add a repo is answered with its id only if helm has accepted the repo, the cluster
-- had none of that name, and it is now in the table. With any other answer the table of repos is as
-- it was.
pub add_repo-AddedIf :
    (env : Env) (ctx : Ctx) (actor : ℕ) (id : String) (body : Option (String × String)) (w : World)
    → Returns
        (λ r v. AddedIf env id (body_name body) (body_url body) w v (is_created r))
        Never
        (add_repo_handler env ctx actor id body w).0
        (add_repo_handler env ctx actor id body w).1
unfolding add_repo_handler
add_repo-AddedIf env ctx actor id none w =
    (refused-SpecR env ctx actor id "" "" w _ _ _ _ refl).at w (record { repos = refl })
add_repo-AddedIf env ctx actor id (some b) w =
    (add_checked-SpecR env ctx actor id (trim_space b.0) (trim_space b.1) w).at w
      (record { repos = refl })
