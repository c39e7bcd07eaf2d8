-- ===== src/Tests/Sample/Items.antt =====
-- An object of each kind, of one tenant.
use inari_operator.Base.{pos, true, false, none, some, [], ◌∷◌}
use inari_operator.Text.{bytes, str_eq}
use inari_operator.Api.{ObjectMeta, TenantReference}
use inari_operator.Api.Items.{
  CertIssuer, DnsZone, DnsRecord, ArgoProject, TenantNamespace, KeycloakClient, ClusterDex,
}

abbrev pub sample_tenant : TenantReference
sample_tenant = record {
  tenant_id = bytes "acme";
  namespace = bytes "tenant-acme";
  impersonate_service_account = [];
}

abbrev pub sample_metadata : ObjectMeta
sample_metadata = record {
  name = bytes "main";
  namespace = bytes "tenant-acme";
  generation = 3;
  deletion_timestamp = none;
  finalizers = bytes "platform.inari.io/finalizer" ∷ [];
}

abbrev pub sample_zone : DnsZone
sample_zone = record {
  metadata = sample_metadata;
  spec = record { tenant = sample_tenant; zone_name = bytes "acme.io." };
  status = record { conditions = []; observed_generation = 0; zone_name = [] };
}

abbrev pub sample_record : DnsRecord
sample_record = record {
  metadata = sample_metadata;
  spec = record {
    tenant = sample_tenant;
    zone_ref = bytes "main";
    endpoints =
        (record {
          dns_name = bytes "www.acme.io";
          record_type = bytes "A";
          targets = bytes "192.0.2.1" ∷ [];
          ttl = pos 300;
        })
        ∷ [];
  };
  status = record { conditions = []; observed_generation = 0 };
}

abbrev pub sample_issuer : CertIssuer
sample_issuer = record {
  metadata = sample_metadata;
  spec = record {
    tenant = sample_tenant;
    acme = none;
    ca = some (record { secret_name = bytes "acme-ca" });
  };
  status = record { conditions = []; observed_generation = 0; cluster_issuer_name = [] };
}

abbrev pub sample_project : ArgoProject
sample_project = record {
  metadata = sample_metadata;
  spec = record {
    tenant = sample_tenant;
    source_repos = bytes "https://git.acme.io/*" ∷ [];
    destination_namespaces = [];
    description = [];
  };
  status = record { conditions = []; observed_generation = 0; project_name = [] };
}

abbrev pub sample_space : TenantNamespace
sample_space = record {
  metadata = sample_metadata;
  spec = record {
    tenant = sample_tenant;
    admin_group = bytes "acme-admins";
    resource_quota = some (record { cpu = bytes "4"; memory = bytes "8Gi"; pods = pos 20 });
  };
  status = record { conditions = []; observed_generation = 0; namespace = [] };
}

abbrev pub sample_oidc : KeycloakClient
sample_oidc = record {
  metadata = sample_metadata;
  spec = record {
    tenant = sample_tenant;
    realm_ref = bytes "main";
    client_id = bytes "shop";
    public = false;
    redirect_uris = bytes "https://shop.acme.io/*" ∷ [];
    service_accounts_enabled = true;
    secret_name = [];
  };
  status = record {
    conditions = [];
    observed_generation = 0;
    client_id = [];
    realm = [];
    secret_name = [];
  };
}

abbrev pub sample_dex : ClusterDex
sample_dex = record {
  metadata = sample_metadata;
  spec = record {
    tenant = sample_tenant;
    cluster_id = bytes "edge-1";
    keycloak_issuer_url = bytes "https://sso.acme.io/realms/acme";
    client_secret_ref = record { name = bytes "dex-client"; namespace = [] };
    enabled = none;
    dex = some (record {
      issuer_url = [];
      image = [];
      chart_version = [];
      config_secret_ref = some (record { name = bytes "dex-config"; namespace = [] });
      route = none;
      static_tokens_secret_ref = none;
    });
    argocd = some (record {
      namespace = [];
      project = [];
      oidc_client_secret_ref =
          some (record { name = bytes "argocd-oidc"; namespace = []; key = bytes "clientSecret" });
      admin_groups = bytes "admins" ∷ [];
      viewer_groups = [];
      rbac_policy_extra = [];
    });
  };
  status = record {
    conditions = [];
    observed_generation = 0;
    client_id = [];
    dex_issuer_url = [];
    dex_application = [];
  };
}
