-- ===== src/Clusters/Reconcile/Names.antt =====
-- The names that `ListRepos` returns, and what an added repo changes.
use bandolier.Prelude.{
  ℕ, suc, String, true, ◌||◌, ◌≡◌, refl, List, [], ◌∷◌, ◌++◌, Option, ◌==◌, keep, arith, ◌∙◌,
  eq_refl,
}
use bandolier.Store.Tables.{Db, Repo}
use bandolier.Store.Clusters.{has_row}
use bandolier.Apps.Store.{
  insert_by_name, order_by_name, list_repos, has_repo, same_repo, create_repo,
}
use bandolier.Clusters.Reconcile.{has_existing}

has_existing-insert :
    (n : String) (r : Repo) (rs : List Repo)
    → has_existing n (insert_by_name r rs) ≡ (r.name == n || has_existing n rs)
unfolding insert_by_name
has_existing-insert n r [] = refl
has_existing-insert n r (s ∷ ss) = ground (arith, has_existing-insert n r ss)

has_existing-order :
    (n : String) (rs : List Repo) → has_existing n (order_by_name rs) ≡ has_existing n rs
unfolding order_by_name
has_existing-order n [] = refl
has_existing-order n (r ∷ rs) =
    ground (arith, has_existing-insert n r (order_by_name rs), has_existing-order n rs)

has_existing-keep :
    (id n : String) (rs : List Repo)
    → has_existing n (keep (λ r. r.cluster_id == id) rs) ≡ has_repo id n rs
has_existing-keep id n [] = refl
has_existing-keep id n (r ∷ rs) = ground (arith, has_existing-keep id n rs)

pub has_existing-list_repos :
    (id n : String) (db : Db) → has_existing n (list_repos id db) ≡ has_repo id n db.repos
unfolding list_repos
has_existing-list_repos id n db =
    has_existing-order n (keep (λ r. r.cluster_id == id) db.repos) ∙ has_existing-keep id n db.repos

has_repo-append :
    (id n : String) (r : Repo) (rs : List Repo)
    → has_repo id n (rs ++ r ∷ []) ≡ (has_repo id n rs || same_repo id n r)
has_repo-append id n r [] = ground arith
has_repo-append id n r (s ∷ rs) = ground (arith, has_repo-append id n r rs)

pub create_repo-adds :
    (now : ℕ) (id n url : String) (by : Option ℕ) (db : Db)
    → has_row (λ c. c.id) id db.clusters ≡ true
    → has_repo id n (create_repo now id n url by db).1.repos ≡ true
unfolding create_repo
create_repo-adds now id n url by db h =
    let r : Repo = record {
      id = suc db.last_repo_id;
      cluster_id = id;
      name = n;
      url = url;
      added_at = now;
      added_by = by;
    } in
    ground (arith, eq_refl id, eq_refl n, has_repo-append id n r db.repos)

pub create_repo-keeps :
    (now : ℕ) (id n url : String) (by : Option ℕ) (db : Db) (j m : String)
    → has_repo j m db.repos ≡ true
    → has_repo j m (create_repo now id n url by db).1.repos ≡ true
unfolding create_repo
create_repo-keeps now id n url by db j m h =
    let r : Repo = record {
      id = suc db.last_repo_id;
      cluster_id = id;
      name = n;
      url = url;
      added_at = now;
      added_by = by;
    } in
    ground (arith, has_repo-append j m r db.repos)

pub create_repo-clusters :
    (now : ℕ) (id n url : String) (by : Option ℕ) (db : Db)
    → (create_repo now id n url by db).1.clusters ≡ db.clusters
unfolding create_repo
create_repo-clusters now id n url by db = ground arith
