-- ===== src/Web/Status.antt =====
-- internal/control/status.go: `ProbeStatus` and `commandVersion`.
use las.Prelude.{map, String, List, [], ◌∷◌, str_eq, ◌<>◌, if◌then◌else◌}
use las.Os.{Os, Ending, finished, cancelled, exited}
use las.Builder.Options.{trim, trim_left, trim_right, is_space, cut}

-- `runtime.GOOS` and `runtime.GOARCH`.
pub record Runtime : Type 0 where
  pub goos : String
  pub goarch : String

pub record HostStatus : Type 0 where
  pub platform : String
  pub commands : List (String × String)
  pub services : List (String × String)
  pub time : String

or_missing : String → String
or_missing value = if str_eq value "" then "missing" else value

-- `commandVersion` behind the run, from the output without the space around it.
version_of : String → Ending → String
unfolding cut or_missing
version_of value finished =
    let first = (cut b'\n' value).0 in if str_eq first "" then "available" else first
version_of value (cancelled e) = or_missing value
version_of value (exited e) = or_missing value

-- The programs that are asked for their version: the name, the program and its arguments.
abbrev pub probes : List (String × String × List String)
probes =
    ("ip", "ip", "-V" ∷ [])
    ∷ ("nft", "nft", "--version" ∷ [])
    ∷ ("wg", "wg", "--version" ∷ [])
    ∷ ("openvpn", "openvpn", "--version" ∷ [])
    ∷ ("openconnect", "openconnect", "--version" ∷ [])
    ∷ ("openfortivpn", "openfortivpn", "--version" ∷ [])
    ∷ ("xray", "xray", "version" ∷ [])
    ∷ ("sing-box", "sing-box", "version" ∷ [])
    ∷ ("curl", "curl", "--version" ∷ [])
    ∷ ("dig", "dig", "-v" ∷ [])
    ∷ ("traceroute", "traceroute", "--version" ∷ [])
    ∷ ("dnsmasq", "dnsmasq", "--version" ∷ [])
    ∷ ("unbound", "unbound", "-V" ∷ [])
    ∷ ("bind", "named", "-v" ∷ [])
    ∷ ("chrony", "chronyd", "-v" ∷ [])
    ∷ ("ntpsec", "ntpd", "--version" ∷ [])
    ∷ ("certbot", "certbot", "--version" ∷ [])
    ∷ ("frr", "vtysh", "-v" ∷ [])
    ∷ ("suricata", "suricata", "--build-info" ∷ [])
    ∷ ("clamd", "clamd", "--version" ∷ [])
    ∷ []

-- The services that are asked for on Linux.
abbrev pub probed_services : List String
probed_services =
    "lasd" ∷ "las-updater.timer" ∷ "nftables" ∷ "dnsmasq" ∷ "unbound" ∷ "bind9" ∷ "chrony"
    ∷ "ntpsec" ∷ "certbot.timer" ∷ "frr" ∷ "suricata" ∷ "clamav-daemon" ∷ "strongswan" ∷ "xl2tpd"
    ∷ "openvpn" ∷ "xray" ∷ "sing-box" ∷ []

abbrev pub service_probe : String → String × String × List String
service_probe service = (service, "systemctl", "is-active" ∷ service ∷ [])

module _ (os : Os) where
  unfoldable pub command_version : String → List String → os.State → os.State × String
  unfolding version_of trim_left trim_right
  command_version program args s =
      let (t, output, ending) = os.run program args s in
      (t, version_of (trim is_space output) ending)

  -- The versions of the programs of a list, one behind the other.
  unfoldable pub probe_all :
      List (String × String × List String) → os.State → os.State × List (String × String)
  unfolding command_version
  probe_all [] s = (s, [])
  probe_all ((name, program, args) ∷ more) s =
      let (t, version) = command_version program args s in
      let (u, versions) = probe_all more t in (u, (name, version) ∷ versions)

  unfoldable pub probe_status : Runtime → (os.State → String) → os.State → os.State × HostStatus
  probe_status runtime now s =
      let (t, versions) = probe_all probes s in
      let (u, services) =
        probe_all (if str_eq runtime.goos "linux" then map service_probe probed_services else [])
          t in
      (
        u,
        record {
          platform = runtime.goos <> "/" <> runtime.goarch;
          commands = versions;
          services = services;
          time = now t;
        },
      )
