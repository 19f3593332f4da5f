-- ===== src/Config/Default.antt =====
-- internal/config/config.go: `Default`. A field that the literal leaves out has its zero value.
use las.Prelude.{ℤ, pos, true, false, none, [], ◌∷◌}
use las.Config.Zero.{
  no_nts_config, no_mpls_config, no_l2_config, no_dynamic_routing, no_qos_config,
  no_monitoring_config, no_rollback_watchdog, no_backup_config, no_threat_feed_config,
  no_captive_portal, no_radius_config, no_upnp_config,
}
use las.Config.Root.{Config}

abbrev pub current_version : ℤ
current_version = pos 1

abbrev pub default_config : Config
default_config = record {
  version = current_version;
  host = record {
    hostname = "las";
    management_cidrs = "192.168.88.0/24" ∷ [];
    enable_ip_forward = true;
    conntrack_max = pos 262144;
  };
  ui = record {
    listen = "127.0.0.1:8088";
    admin_username = "admin";
    tls_cert_file = "";
    tls_key_file = "";
  };
  interfaces =
      record {
        name = "enp1s0";
        role = "wan";
        enabled = true;
        addresses = "dhcp" ∷ [];
        gateway = "";
        dns = "1.1.1.1" ∷ "9.9.9.9" ∷ [];
        mtu = pos 1500;
        masquerade = true;
        dhcp_server = none;
      }
      ∷ record {
        name = "enp2s0";
        role = "lan";
        enabled = true;
        addresses = "192.168.88.1/24" ∷ [];
        gateway = "";
        dns = [];
        mtu = pos 1500;
        masquerade = false;
        dhcp_server = none;
      }
      ∷ [];
  tunnels = [];
  routing = record {
    default_policy = "wan";
    sets = [];
    wan_groups = [];
    static_routes = [];
    rules = [];
  };
  services = record {
    dhcp_server = record {
      enabled = false;
      engine = "dnsmasq";
      listen = [];
      authoritative = false;
      lease_file = "";
      static_leases = [];
      options = [];
    };
    dhcp_client = record { enabled = true; interfaces = "enp1s0" ∷ [] };
    dns_server = record {
      enabled = false;
      engine = "dnsmasq";
      listen = "enp2s0" ∷ [];
      listen_addresses = [];
      forwarders = "1.1.1.1" ∷ "9.9.9.9" ∷ [];
      local_domains = [];
      conditional_forwarders = [];
      records = [];
      address_overrides = [];
      cache_size = pos 10000;
      bind_interfaces = true;
      dnssec = false;
      rebind_protection = true;
      strict_order = false;
    };
    dns_client = record {
      enabled = true;
      resolvers = "1.1.1.1" ∷ "9.9.9.9" ∷ [];
      fallback_resolvers = "8.8.8.8" ∷ [];
      search = [];
      use_systemd_resolved = true;
      write_resolv_conf = false;
      dns_over_tls = false;
      dnssec = "";
    };
    ntp_server = record {
      enabled = false;
      engine = "chrony";
      listen = "enp2s0" ∷ [];
      allow_cidrs = [];
      local_stratum = pos 10;
      nts = no_nts_config;
    };
    ntp_client = record {
      enabled = true;
      servers = [];
      pools = "pool.ntp.org" ∷ [];
      peers = [];
      fallback_servers = [];
      nts = false;
      makestep = true;
    };
    certificate_store = record {
      enabled = false;
      directory = "/etc/las/certs";
      trust_store = "/usr/local/share/ca-certificates";
      authorities = [];
      certificates = [];
      lets_encrypt = record {
        enabled = false;
        engine = "certbot";
        email = "";
        directory_url = "";
        staging = false;
        webroot = "/var/www/letsencrypt";
        renew_timer = true;
        certificates = [];
      };
    };
    mpls = no_mpls_config;
  };
  platform = record {
    l2 = no_l2_config;
    routing = no_dynamic_routing;
    qos = no_qos_config;
    monitor = no_monitoring_config;
    automation = record {
      audit_log = record { enabled = true; path = "/var/log/las/audit.log" };
      rollback_watchdog = no_rollback_watchdog;
      scheduler = [];
      backup = no_backup_config;
    };
    access = record {
      auth_enabled = false;
      session_ttl = "12h";
      users = [];
      roles =
          record { name = "admin"; permissions = "*" ∷ [] }
          ∷ record { name = "viewer"; permissions = "read:*" ∷ [] }
          ∷ [];
    };
  };
  security = record {
    nat = true;
    firewall = true;
    allow_established = true;
    management_ports = pos 22 ∷ pos 8088 ∷ [];
    port_forwards = [];
    one_to_one_nat = [];
    antivirus = record {
      enabled = false;
      mode = "icap";
      interfaces = [];
      max_file_size_mb = pos 100;
      quarantine_dir = "/var/lib/las/quarantine";
    };
    ips = record {
      enabled = false;
      engine = "suricata";
      mode = "af-packet";
      interfaces = [];
      nf_queue = pos 0;
    };
    dns_filtering = record {
      enabled = false;
      upstream = "1.1.1.1" ∷ "9.9.9.9" ∷ [];
      blocklists = [];
    };
    threat_feeds = no_threat_feed_config;
    captive_portal = no_captive_portal;
    radius = no_radius_config;
    upnp = no_upnp_config;
  };
}
