-- ===== src/Deployments/Recover/Rows.antt =====
-- What the three statements of a recovery do to the tables.
use bandolier.Prelude.{
  ℕ, String, Bool, true, false, not, ◌≡◌, refl, ◌==◌, ◌||◌, ◌&&◌, eq_iff, eq_refl, arith, List, [],
  ◌∷◌, All, keep, if◌then◌else◌, update_rows, Bool-cases, inl, inr,
}
use bandolier.Status.{error, same_status}
use bandolier.Store.Tables.{Db, Cluster, Deployment, failed}
use bandolier.Store.Clusters.{
  has_row, update_cluster_status, set_pending_forget, update_cluster, with_status, with_latch,
}
use bandolier.Store.Deployments.{finish_deployment, is_running, with_end}

-- A row that is running is among those still to close.
abbrev is_pending : List Deployment → Deployment → Bool
is_pending ds r = not (is_running r.status) || has_row (λ d. d.id) r.id ds

abbrev pub Pending : List Deployment → Db → Type 0
Pending ds db = All (λ r. is_pending ds r ≡ true) db.deployments

-- The cluster `id`, if it is there, is in `error`, and its latch is open.
abbrev is_errored : String → Cluster → Bool
is_errored id c = not (c.id == id) || same_status c.status error

abbrev is_closed : String → Cluster → Bool
is_closed id c = not (c.id == id) || same_status c.status error && not c.pending_forget

abbrev pub Errored : String → Db → Type 0
Errored id db = All (λ c. is_errored id c ≡ true) db.clusters

abbrev pub Closed : String → Db → Type 0
Closed id db = All (λ c. is_closed id c ≡ true) db.clusters

is_pending-cons :
    (d r : Deployment) (ds : List Deployment)
    → is_pending ds r ≡ true
    → is_pending (d ∷ ds) r ≡ true
is_pending-cons d r ds h = ground (arith, eq_iff d.id r.id)

All-cons :
    (d : Deployment) (ds rs : List Deployment)
    → All (λ r. is_pending ds r ≡ true) rs
    → All (λ r. is_pending (d ∷ ds) r ≡ true) rs
All-cons d ds [] h = tt
All-cons d ds (r ∷ rs) h = (is_pending-cons d r ds h.0, All-cons d ds rs h.1)

start-row :
    (b : Bool) (r : Deployment) (ds rs : List Deployment)
    → is_running r.status ≡ b
    → All (λ x. is_pending ds x ≡ true) rs
    → All (λ x. is_pending (if b then r ∷ ds else ds) x ≡ true) (r ∷ rs)
start-row true r ds rs e h = (ground (arith, eq_refl r.id), All-cons r ds rs h)
start-row false r ds rs e h = (ground arith, h)

pub Pending-start :
    (rs : List Deployment) → All (λ r. is_pending (keep (λ d. is_running d.status) rs) r ≡ true) rs
Pending-start [] = tt
Pending-start (r ∷ rs) =
    start-row (is_running r.status) r (keep (λ d. is_running d.status) rs) rs refl
      (Pending-start rs)

pub Pending-end :
    (rs : List Deployment)
    → All (λ r. is_pending [] r ≡ true) rs
    → keep (λ d. is_running d.status) rs ≡ []
Pending-end [] h = refl
Pending-end (r ∷ rs) h = ground (arith, Pending-end rs h.1, h.0)

finish-rows :
    (now : ℕ) (msg : String) (d : Deployment) (ds rs : List Deployment)
    → All (λ r. is_pending (d ∷ ds) r ≡ true) rs
    → All (λ r. is_pending ds r ≡ true) (update_rows (λ r. r.id) d.id (with_end failed now msg) rs)
unfolding update_rows
finish-rows now msg d ds [] h = tt
finish-rows now msg d ds (r ∷ rs) h =
    (ground (arith, eq_iff r.id d.id, eq_iff d.id r.id, h.0), finish-rows now msg d ds rs h.1)

pub finish-Pending :
    (now : ℕ) (msg : String) (d : Deployment) (ds : List Deployment) (db : Db)
    → Pending (d ∷ ds) db
    → Pending ds (finish_deployment now d.id failed msg db).1
unfolding finish_deployment
finish-Pending now msg d ds db h = finish-rows now msg d ds db.deployments h

module _ (f : Cluster → Cluster) (same : (c : Cluster) → (f c).id ≡ c.id) (j : String) where
  update-All :
      (p q : Cluster → Bool)
      → ((c : Cluster) → p c ≡ true → q (if c.id == j then f c else c) ≡ true)
      → (cs : List Cluster) → All (λ c. p c ≡ true) cs
      → All (λ c. q c ≡ true) (update_rows (λ c. c.id) j f cs)
  unfolding update_rows
  update-All p q h [] k = tt
  update-All p q h (c ∷ cs) k = (h c k.0, update-All p q h cs k.1)

  always : (cs : List Cluster) → All (λ c. true ≡ true) cs
  always [] = tt
  always (c ∷ cs) = (refl, always cs)

absent :
    (p : Cluster → Bool) (j : String)
    → ((c : Cluster) → (c.id == j) ≡ false → p c ≡ true)
    → (cs : List Cluster) → has_row (λ c. c.id) j cs ≡ false
    → All (λ c. p c ≡ true) cs
absent p j h [] k = tt
absent p j h (c ∷ cs) k = (h c (ground arith), absent p j h cs (ground arith))

pub status-Errored :
    (now : ℕ) (id : String) (db : Db) → Errored id (update_cluster_status now id error db).1
unfolding update_cluster_status update_cluster
status-Errored now id db = elim (Bool-cases (has_row (λ (c : Cluster). c.id) id db.clusters)) [
  | inl e ↦ rw e (
      update-All (with_status error now) (λ c. refl) id (λ c. true) (is_errored id)
        (λ c _. ground (arith, eq_iff c.id id)) db.clusters
        (always (with_status error now) (λ c. refl) id db.clusters))
  | inr e ↦ rw e (absent (is_errored id) id (λ c h. ground arith) db.clusters e)
]

pub status-Closed :
    (now : ℕ) (id j : String) (db : Db)
    → Closed j db
    → Closed j (update_cluster_status now id error db).1
unfolding update_cluster_status update_cluster
status-Closed now id j db h = elim (Bool-cases (has_row (λ (c : Cluster). c.id) id db.clusters)) [
  | inl e ↦ rw e (
      update-All (with_status error now) (λ c. refl) id (is_closed j) (is_closed j)
        (λ c k. ground arith) db.clusters h)
  | inr e ↦ rw e h
]

pub latch-Closed :
    (now : ℕ) (id j : String) (db : Db)
    → Closed j db
    → Closed j (set_pending_forget now id false db).1
unfolding set_pending_forget update_cluster
latch-Closed now id j db h = elim (Bool-cases (has_row (λ (c : Cluster). c.id) id db.clusters)) [
  | inl e ↦ rw e (
      update-All (with_latch false now) (λ c. refl) id (is_closed j) (is_closed j)
        (λ c k. ground arith) db.clusters h)
  | inr e ↦ rw e h
]

pub latch-Errored :
    (now : ℕ) (id : String) (db : Db)
    → Errored id db
    → Closed id (set_pending_forget now id false db).1
unfolding set_pending_forget update_cluster
latch-Errored now id db h = elim (Bool-cases (has_row (λ (c : Cluster). c.id) id db.clusters)) [
  | inl e ↦ rw e (
      update-All (with_latch false now) (λ c. refl) id (is_errored id) (is_closed id)
        (λ c k. ground (arith, eq_iff c.id id)) db.clusters h)
  | inr e ↦ rw e (absent (is_closed id) id (λ c k. ground arith) db.clusters e)
]

pub finish-Closed :
    (now : ℕ) (msg dep j : String) (db : Db)
    → Closed j db
    → Closed j (finish_deployment now dep failed msg db).1
unfolding finish_deployment
finish-Closed now msg dep j db h = h

update_cluster-deployments :
    (f : Cluster → Cluster) (id : String) (db : Db)
    → (update_cluster f id db).1.deployments ≡ db.deployments
unfolding update_cluster
update_cluster-deployments f id db = ground arith

pub status-Pending :
    (now : ℕ) (id : String) (ds : List Deployment) (db : Db)
    → Pending ds db
    → Pending ds (update_cluster_status now id error db).1
unfolding update_cluster_status
status-Pending now id ds db h = rw (update_cluster-deployments (with_status error now) id db) h

pub latch-Pending :
    (now : ℕ) (id : String) (ds : List Deployment) (db : Db)
    → Pending ds db
    → Pending ds (set_pending_forget now id false db).1
unfolding set_pending_forget
latch-Pending now id ds db h = rw (update_cluster-deployments (with_latch false now) id db) h
