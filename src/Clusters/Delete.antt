-- ===== src/Clusters/Delete.antt =====
-- The handler of DELETE /api/clusters/{id} in clusters/handlers.go. `destroyExec` is set, as
-- httpserver/server.go does.
pub mod Laws
pub mod Removal
use Prim.Native.String
use Prim.Native.String.{count}
use Prim.Native.Char.{code}
use bandolier.Prelude.{
  ℕ, String, Bool, true, false, not, ◌&&◌, ◌||◌, List, [], ◌∷◌, ◌==◌, if◌then◌else◌, leb, eqb,
}
use bandolier.Text.{error_text, status_name}
use bandolier.Status.{Status, pending, initialized, destroyed, error, ready, degraded}
use bandolier.Store.Tables.{Cluster, Outcome, Detail, cluster_delete}
use bandolier.Store.Clusters.{get_cluster, set_pending_forget}
use bandolier.Result.{Error, Result, ok, err, not_found, invalid_transition, locked}
use bandolier.Response.{
  Response, no_content, accepted, bad_request, not_found_answer, conflict, server_error,
}
use bandolier.World.{Ctx, Env, World}
use bandolier.World.Exec.{Exec, pure, ignore, attempt, ◌>>=◌, ◌>>◌}
use bandolier.World.Calls.{statement, query}
use bandolier.Clusters.Forget.{forget_cluster}
use bandolier.Deployments.Effects.{audit}
use bandolier.Deployments.Start.{destroy}

abbrev is_hex_digit : ℕ → Bool
is_hex_digit c = leb 48 c && leb c 57 || leb 97 c && leb c 102

unfoldable all_hex : String → Bool
all_hex String.[] = true
all_hex (String.◌∷◌ c s) = is_hex_digit (code c) && all_hex s

-- `isValidClusterID`: 32 lowercase hexadecimal digits. A text of digits has one byte for each.
unfoldable pub is_valid_cluster_id : String → Bool
unfolding all_hex
is_valid_cluster_id id = eqb (count id) 32 && all_hex id

-- `directDeletableStatuses`
abbrev pub direct_deletable : Status → Bool
direct_deletable pending = true
direct_deletable initialized = true
direct_deletable destroyed = true
direct_deletable error = true
direct_deletable _ = false

-- `cascadeDeletableStatuses`
abbrev pub cascade_deletable : Status → Bool
cascade_deletable ready = true
cascade_deletable degraded = true
cascade_deletable _ = false

-- Whether the request of a delete is in order for a cluster with that status.
abbrev pub deletable : Bool → Status → Bool
deletable cascade s = direct_deletable s || cascade && cascade_deletable s

abbrev pub kickoff_answer : Error → Response
kickoff_answer invalid_transition = conflict "cluster cannot be destroyed in current state"
kickoff_answer locked = conflict "deployment in progress"
kickoff_answer _ = server_error "destroy kickoff failed"

module _ (env : Env) (ctx : Ctx) (uid : ℕ) (id : String) where
  abbrev pub kicked : Result String → Exec Response
  kicked (err e) = do
    ignore (statement env ctx λ now. set_pending_forget now id false)
    audit env ctx uid cluster_delete id Outcome.failure
        (("reason", Detail.text "destroy_kickoff") ∷ ("error", Detail.text (error_text e)) ∷ [])
    pure (kickoff_answer e)
  kicked (ok dep) = do
    audit env ctx uid cluster_delete id Outcome.started (
        ("phase", Detail.text "destroy")
        ∷ ("deployment_id", Detail.text dep)
        ∷ ("cascade", Detail.text "destroy")
        ∷ [])
    pure (accepted dep)

  abbrev pub latched : Result (Unit {0}) → Exec Response
  latched (err e) = pure (server_error (error_text e))
  latched (ok _) = do r ← attempt (destroy env ctx uid id); kicked r

  unfoldable pub cascade_delete : Exec Response
  cascade_delete = do
    r ← attempt (statement env ctx λ now. set_pending_forget now id true)
    latched r

  abbrev pub forgotten : Result (Unit {0}) → Exec Response
  forgotten (ok _) = pure no_content
  forgotten (err e) = pure (server_error (error_text e))

  unfoldable pub refuse_delete : Cluster → Exec Response
  refuse_delete c = do
    audit env ctx uid cluster_delete id Outcome.failure (
        ("reason", Detail.text "invalid_status")
        ∷ ("status", Detail.text (status_name c.status))
        ∷ [])
    pure (
        if cascade_deletable c.status
        then conflict "cluster is live; pass ?cascade=destroy to destroy and forget"
        else conflict
            "cluster is in a transient state; wait for it to settle or cancel the running deployment")

  unfoldable pub direct_delete : Cluster → Exec Response
  unfolding refuse_delete
  direct_delete c =
      if direct_deletable c.status
      then (do r ← attempt (forget_cluster env ctx id c.name c.status uid); forgotten r)
      else refuse_delete c

  abbrev pub delete_found : Bool → Result Cluster → Exec Response
  delete_found cascade (err not_found) = do
    audit env ctx uid cluster_delete id Outcome.failure (("reason", Detail.text "not_found") ∷ [])
    pure (not_found_answer "cluster not found")
  delete_found cascade (err e) = pure (server_error (error_text e))
  delete_found cascade (ok c) =
      if cascade && cascade_deletable c.status then cascade_delete else direct_delete c

  unfoldable pub delete_cluster_handler : Bool → Exec Response
  unfolding is_valid_cluster_id cascade_delete direct_delete
  delete_cluster_handler cascade =
      if is_valid_cluster_id id
      then (do found ← attempt (query env ctx (get_cluster id)); delete_found cascade found)
      else pure (bad_request "invalid cluster id")
