-- ===== src/Apps/Store.antt =====
-- api/internal/apps/store.go: the statements on apps_repos and apps_installs, with the keys and
-- references of api/internal/store/migrations/004_apps_tables.up.sql.
pub mod Laws
use Prim.Native.Nat.{Ordering}
use Prim.Native.String
use bandolier.Prelude.{
  ℕ, suc, ◌+◌, String, Bool, true, false, not, ◌&&◌, ◌||◌, List, [], ◌∷◌, ◌++◌, Option, none, some,
  ◌==◌, eqb, leb, ltb, if◌then◌else◌, keep, reverse, find_row, update_rows, length,
}
use bandolier.Result.{of_apps, Result, ok, err, repo_not_found, failure}
use bandolier.Store.Tables.{Repo, Install, DeploymentStatus, Db}
use bandolier.Store.Clusters.{has_row}
use bandolier.Store.Deployments.{take}
use bandolier.Store.Audits.{nullable_string}

abbrev pub same_repo : String → String → Repo → Bool
same_repo cluster_id name r = r.cluster_id == cluster_id && r.name == name

abbrev pub has_repo : String → String → List Repo → Bool
has_repo cluster_id name [] = false
has_repo cluster_id name (r ∷ rs) = same_repo cluster_id name r || has_repo cluster_id name rs

-- `UNIQUE(cluster_id, name)`, the reference to the cluster, and `LastInsertId`.
unfoldable pub create_repo : ℕ → String → String → String → Option ℕ → Db → Result ℕ × Db
create_repo now cluster_id name url added_by db =
    let id = suc db.last_repo_id in
    if has_repo cluster_id name db.repos
    then (err (failure "UNIQUE constraint failed: apps_repos.cluster_id, apps_repos.name"), db)
    else (if has_row (λ c. c.id) cluster_id db.clusters
        then (
          ok id,
          record db {
            repos =
                db.repos
                ++ record {
                  id = id;
                  cluster_id = cluster_id;
                  name = name;
                  url = url;
                  added_at = now;
                  added_by = added_by;
                }
                  ∷ [];
            last_repo_id = id;
          },
        )
        else (err (failure "FOREIGN KEY constraint failed"), db))

-- The order of texts by their bytes.
abbrev pub leb_text : String → String → Bool
leb_text s t = elim (String.compare s t) [ Ordering.gt ↦ false | _ ↦ true ]

abbrev pub name_before : Repo → Repo → Bool
name_before a b = leb_text a.name b.name

unfoldable pub insert_by_name : Repo → List Repo → List Repo
insert_by_name r [] = r ∷ []
insert_by_name r (s ∷ ss) =
    let rest = insert_by_name r ss in if name_before r s then r ∷ s ∷ ss else s ∷ rest

unfoldable pub order_by_name : List Repo → List Repo
unfolding insert_by_name
order_by_name [] = []
order_by_name (r ∷ rs) = insert_by_name r (order_by_name rs)

-- `ORDER BY name`
unfoldable pub list_repos : String → Db → List Repo
unfolding order_by_name
list_repos cluster_id db = order_by_name (keep (λ r. r.cluster_id == cluster_id) db.repos)

unfoldable pub delete_repo : String → String → Db → Result (Unit {0}) × Db
delete_repo cluster_id name db =
    if has_repo cluster_id name db.repos
    then (ok tt, record db { repos = keep (λ r. not (same_repo cluster_id name r)) db.repos })
    else (err (of_apps repo_not_found), db)

-- The statement names twelve columns; `started_at` is the time, the others are NULL or 0.
unfoldable pub create_install : ℕ → Install → Db → Result (Unit {0}) × Db
create_install now i db =
    if has_row (λ r. r.id) i.id db.installs
    then (err (failure "UNIQUE constraint failed: apps_installs.id"), db)
    else (if has_row (λ c. c.id) i.cluster_id db.clusters
        then (
          ok tt,
          record db {
            installs =
                db.installs
                ++ record i {
                  started_at = now;
                  finished_at = none;
                  error_message = none;
                  hostname_unclaimed = false;
                }
                  ∷ [];
          },
        )
        else (err (failure "FOREIGN KEY constraint failed"), db))

unfoldable pub get_install : String → Db → Result Install
get_install id db = elim (find_row (λ i. i.id) id db.installs) [
  | none ↦ err (of_apps repo_not_found)
  | some i ↦ ok i
]

-- A limit of the query is not above 200, and 50 stands for one that is out of range.
abbrev pub clamp_limit : ℕ → ℕ
clamp_limit limit = if eqb limit 0 || ltb 200 limit then 50 else limit

-- `ORDER BY started_at DESC LIMIT ?`; rows are kept in the order of their insertion.
unfoldable pub list_installs_for_cluster : String → ℕ → Db → List Install
list_installs_for_cluster cluster_id limit db =
    take (clamp_limit limit) (reverse (keep (λ i. i.cluster_id == cluster_id) db.installs))

unfoldable pub mark_hostname_unclaimed : String → Bool → Db → Result (Unit {0}) × Db
mark_hostname_unclaimed id unclaimed db = (
  ok tt,
  record db {
    installs =
        update_rows (λ i. i.id) id (λ i. record i { hostname_unclaimed = unclaimed }) db.installs;
  },
)

abbrev pub with_finish : ℕ → DeploymentStatus → String → Install → Install
with_finish now status msg i = record i {
  status = status;
  finished_at = some now;
  error_message = nullable_string msg;
}

unfoldable pub finish_install : ℕ → String → DeploymentStatus → String → Db → Result (Unit {0}) × Db
finish_install now id status msg db = (
  ok tt,
  record db { installs = update_rows (λ i. i.id) id (with_finish now status msg) db.installs },
)
