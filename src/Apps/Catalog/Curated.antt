-- ===== src/Apps/Catalog/Curated.antt =====
-- The entries that the program ships with, `curated` of api/internal/apps/catalog.go.
use bandolier.Prelude.{String, true, false, Bool, List, [], ◌∷◌}
use bandolier.Apps.Types.{CatalogEntry, BundleChart}

abbrev pub traefik_default_chart_version : String
traefik_default_chart_version = "34.5.0"

abbrev traefik_entry : CatalogEntry
traefik_entry = record {
  source = "curated";
  name = "traefik";
  chart = "traefik/traefik";
  description = "Default ingress controller for Bandolier clusters.";
  latest_version = traefik_default_chart_version;
  available_versions = traefik_default_chart_version ∷ [];
  system = true;
  ingress_value_path = "ingress.hostname";
  icon = "shield";
  tag = "SYSTEM";
  type = "chart";
  charts = [];
}

abbrev member : String → String → String → String → String → Bool → Bool → BundleChart
member chart version release namespace hostname required storage = record {
  chart = chart;
  version = version;
  release = release;
  namespace = namespace;
  hostname = hostname;
  required = required;
  storage = storage;
}

abbrev pub homelab_charts : List BundleChart
homelab_charts =
    member "longhorn/longhorn" "1.11.2" "longhorn" "longhorn-system" "{release}.{fqdn}" true false
    ∷ member "prometheus-community/kube-prometheus-stack" "85.0.2" "kps" "monitoring"
        "{release}.{fqdn}" true true
    ∷ member "grafana/loki" "7.0.0" "loki" "monitoring" "" false true
    ∷ member "wikijs/wiki" "3.0.0" "wiki" "wiki" "{release}.{fqdn}" false true
    ∷ []

abbrev homelab_entry : CatalogEntry
homelab_entry = record {
  source = "curated";
  name = "homelab-essentials";
  chart = "";
  description =
      "Storage (Longhorn) + observability (kube-prometheus-stack, Loki) + a wiki (Wiki.js). Optional charts can be deselected at install time.";
  latest_version = "1.0.0";
  available_versions = "1.0.0" ∷ [];
  system = false;
  ingress_value_path = "";
  icon = "box";
  tag = "BUNDLE";
  type = "bundle";
  charts = homelab_charts;
}

abbrev pub curated : List CatalogEntry
curated = traefik_entry ∷ homelab_entry ∷ []
