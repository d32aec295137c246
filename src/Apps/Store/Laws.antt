-- ===== src/Apps/Store/Laws.antt =====
-- What the statements on apps_repos and apps_installs do to what is read afterwards.
use bandolier.Prelude.{
  ℕ, suc, ◌≤◌, String, true, false, not, ◌≡◌, refl, List, [], ◌∷◌, ◌++◌, Option, none, ◌==◌,
  if◌then◌else◌, keep, reverse, find_row, length, All, arith, eq_iff, eq_refl, find_row-append,
  find_row-update_rows,
}
use bandolier.Result.{ok, err, is_ok}
use bandolier.Store.Tables.{Repo, Install, DeploymentStatus, Db}
use bandolier.Store.Clusters.{has_row}
use bandolier.Store.Deployments.{take}
use bandolier.Apps.Store.{
  same_repo, has_repo, create_repo, delete_repo, create_install, get_install, clamp_limit,
  list_installs_for_cluster, finish_install, with_finish,
}

length-take : {A : Type 0} (n : ℕ) (xs : List A) → length (take n xs) ≤ n
length-take ℕ.zero xs = omega arith
length-take (suc n) [] = omega arith
length-take (suc n) (x ∷ xs) = omega (arith, length-take n xs)

clamp_limit-le : (limit : ℕ) → clamp_limit limit ≤ 200
clamp_limit-le limit = ground arith

module _ {A : Type 0} (P : A → Type 0) where
  All-take : (n : ℕ) (xs : List A) → All P xs → All P (take n xs)
  All-take ℕ.zero xs h = tt
  All-take (suc n) [] h = tt
  All-take (suc n) (x ∷ xs) h = (h.0, All-take n xs h.1)

-- However many installs a cluster has had, and whatever limit is asked for, at most 200 rows are
-- listed.
pub list_installs_for_cluster-le :
    (id : String) (limit : ℕ) (db : Db) → length (list_installs_for_cluster id limit db) ≤ 200
unfolding list_installs_for_cluster
list_installs_for_cluster-le id limit db = omega (
  arith,
  clamp_limit-le limit,
  length-take (clamp_limit limit) (reverse (keep (λ i. i.cluster_id == id) db.installs)),
)

absent_row :
    {A : Type 0} (key : A → String) (k : String) (rs : List A)
    → has_row key k rs ≡ false
    → find_row key k rs ≡ none
unfolding find_row
absent_row key k [] h = refl
absent_row key k (r ∷ rs) h = ground (arith, absent_row key k rs)

-- The row as `CreateInstall` leaves it in the table.
abbrev pub stored : ℕ → Install → Install
stored now i = record i {
  started_at = now;
  finished_at = none;
  error_message = none;
  hostname_unclaimed = false;
}

find_row-append_other :
    (k : String) (rs : List Install) (r : Install)
    → (r.id == k) ≡ false
    → find_row (λ i. i.id) k (rs ++ r ∷ []) ≡ find_row (λ i. i.id) k rs
unfolding find_row
find_row-append_other k [] r h = ground arith
find_row-append_other k (s ∷ rs) r h = ground (arith, find_row-append_other k rs r)

-- An install that was created is read back with every column that the request gave, its start, no
-- end, and no claim about its hostname; the other installs are read as before.
pub get_install-create_install :
    (now : ℕ) (i : Install) (db : Db) (id : String)
    → is_ok (create_install now i db).0 ≡ true
    → get_install id (create_install now i db).1
      ≡ (if i.id == id then ok (stored now i) else get_install id db)
unfolding create_install get_install
get_install-create_install now i db id h = ground (
  arith,
  eq_iff i.id id,
  absent_row (λ (r : Install). r.id) i.id db.installs,
  find_row-append (λ (r : Install). r.id) i.id db.installs (stored now i),
  find_row-append_other id db.installs (stored now i),
)

drop_created :
    (c n : String) (r : Repo) (rs : List Repo)
    → same_repo c n r ≡ true
    → has_repo c n rs ≡ false
    → keep (λ s. not (same_repo c n s)) (rs ++ r ∷ []) ≡ rs
drop_created c n r [] e h = ground arith
drop_created c n r (s ∷ rs) e h = ground (arith, drop_created c n r rs e)

has_created :
    (c n : String) (r : Repo) (rs : List Repo)
    → same_repo c n r ≡ true
    → has_repo c n (rs ++ r ∷ []) ≡ true
has_created c n r [] e = ground arith
has_created c n r (s ∷ rs) e = ground (arith, has_created c n r rs e)

-- A repo that was added can be removed again, and the table of repos is then what it was.
pub delete_repo-create_repo :
    (now : ℕ) (c n url : String) (by : Option ℕ) (db : Db)
    → is_ok (create_repo now c n url by db).0 ≡ true
    → ((delete_repo c n (create_repo now c n url by db).1).0 ≡ ok tt)
      × ((delete_repo c n (create_repo now c n url by db).1).1.repos ≡ db.repos)
unfolding create_repo delete_repo
delete_repo-create_repo now c n url by db h =
    let r : Repo = record {
      id = suc db.last_repo_id;
      cluster_id = c;
      name = n;
      url = url;
      added_at = now;
      added_by = by;
    } in
    ground (arith, eq_refl c, eq_refl n, has_created c n r db.repos, drop_created c n r db.repos)

-- A repo that was added is there, and was not before.
pub create_repo-has_repo :
    (now : ℕ) (c n url : String) (by : Option ℕ) (db : Db)
    → is_ok (create_repo now c n url by db).0 ≡ true
    → (has_repo c n db.repos ≡ false)
      × (has_repo c n (create_repo now c n url by db).1.repos ≡ true)
unfolding create_repo
create_repo-has_repo now c n url by db h =
    let r : Repo = record {
      id = suc db.last_repo_id;
      cluster_id = c;
      name = n;
      url = url;
      added_at = now;
      added_by = by;
    } in
    ground (arith, eq_refl c, eq_refl n, has_created c n r db.repos)

pub create_repo-err :
    (now : ℕ) (c n url : String) (by : Option ℕ) (db : Db)
    → is_ok (create_repo now c n url by db).0 ≡ false
    → (create_repo now c n url by db).1.repos ≡ db.repos
unfolding create_repo
create_repo-err now c n url by db h = ground arith

-- The end of an install is written to its own row only, and its end is read back: the status, the
-- time, and the error unless its text is empty.
pub get_install-finish_install :
    (now : ℕ) (id j : String) (s : DeploymentStatus) (msg : String) (db : Db)
    → get_install j (finish_install now id s msg db).1 ≡ (
        if id == j
        then elim (get_install j db) [ err e ↦ err e | ok i ↦ ok (with_finish now s msg i) ]
        else get_install j db)
unfolding finish_install get_install
get_install-finish_install now id j s msg db = ground (
  arith,
  find_row-update_rows (λ (r : Install). r.id) (with_finish now s msg) (λ i. refl) id j db.installs,
)
