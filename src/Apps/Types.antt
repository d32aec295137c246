-- ===== src/Apps/Types.antt =====
-- api/internal/apps/types.go: what a request asks of Helm, and the entries of the catalog.
use bandolier.Prelude.{ℕ, String, Bool, List, Option}
use bandolier.Store.Tables.{InstallOperation}

-- The empty text stands for a field that was not sent.
pub record InstallRequest : Type 0 where
  pub chart : String
  pub version : String
  pub release_name : String
  pub namespace : String
  pub hostname : String
  -- resolved from the catalog, never sent
  pub ingress_value_path : String
  pub values : String
  pub atomic : Bool
  pub storage_class : String

pub record BundleChart : Type 0 where
  pub chart : String
  pub version : String
  pub release : String
  pub namespace : String
  pub hostname : String
  pub required : Bool
  pub storage : Bool

pub record BundleChartChoice : Type 0 where
  pub chart : String
  pub version : String
  pub release : String
  pub namespace : String
  pub hostname : String
  pub values : String
  pub skip : Bool
  pub storage_class : Option String

pub record BundleInstallRequest : Type 0 where
  pub bundle : String
  pub version : String
  pub choices : List BundleChartChoice
  pub atomic : Bool

pub record CatalogEntry : Type 0 where
  pub source : String
  pub name : String
  pub chart : String
  pub description : String
  pub latest_version : String
  pub available_versions : List String
  pub system : Bool
  pub ingress_value_path : String
  pub icon : String
  pub tag : String
  pub type : String
  pub charts : List BundleChart

pub data ℤ : Type 0 where
  pos negsuc : ℕ → ℤ

pub record Release : Type 0 where
  pub name : String
  pub namespace : String
  pub chart : String
  pub app_version : String
  pub revision : ℤ
  pub status : String
  pub updated : String

-- apps/probe.go: the hosts of an Ingress, and the match expressions of an IngressRoute.
pub record ProbeItem : Type 0 where
  pub hosts : List String
  pub matches : List String

-- apps/helm.go: what `helm list` and `helm search repo` print. The revision is a raw JSON token.
pub record RawRelease : Type 0 where
  pub name : String
  pub namespace : String
  pub chart : String
  pub app_version : String
  pub revision : String
  pub status : String
  pub updated : String

pub record RawChart : Type 0 where
  pub name : String
  pub version : String
  pub description : String

-- apps/storageclass.go
pub record StorageClass : Type 0 where
  pub name : String
  pub provisioner : String
  pub is_default : Bool

-- What a spawned goroutine of the executor is to do.
pub data Work : Type 0 where
  run_helm : InstallRequest → InstallOperation → Work
  run_uninstall : String → String → Work
  -- the bundle, with the cluster's domain name
  run_bundle : BundleInstallRequest → String → Work

pub record AppJob : Type 0 where
  pub install_id : String
  pub cluster_id : String
  pub work : Work
  pub actor : ℕ
