-- ===== src/Builder/Services/Ntp.antt =====
-- internal/router/builder.go: the NTP profiles.
use las.Prelude.{String, Bool, ◌||◌, pos, List, ◌++◌, ◌<>◌, if◌then◌else◌}
use las.Fmt.{itoa}
use las.Config.{NtpServiceConfig, NtpClientConfig}
use las.Builder.Trace.{only_if, one, for_each, line, built, or_number}

unfoldable pub nts_suffix : Bool → String
nts_suffix enabled = if enabled then " nts" else ""

-- A line of a source of time.
source_lines : String → List String → String → List String
source_lines directive upstreams behind =
    for_each upstreams (λ upstream. line (directive <> " " <> upstream <> " iburst" <> behind))

unfoldable pub render_chrony_config : NtpServiceConfig → NtpClientConfig → String
unfolding source_lines
render_chrony_config server client = built (
    line "# Managed by LAS."
    ++ only_if client.makestep (line "makestep 1.0 3")
    ++ source_lines "server" client.servers (nts_suffix client.nts)
    ++ source_lines "pool" client.pools (nts_suffix client.nts)
    ++ source_lines "peer" client.peers ""
    ++ source_lines "server" client.fallback_servers " prefer"
    ++ only_if server.enabled (
        for_each server.listen (λ iface. line ("# serve NTP on " <> iface))
        ++ for_each server.allow_cidrs (λ cidr. line ("allow " <> cidr))
        ++ line ("local stratum " <> itoa (or_number server.local_stratum (pos 10)))
        ++ only_if server.nts.enabled (
            line ("ntsservercert " <> server.nts.cert_file)
            ++ line ("ntsserverkey " <> server.nts.key_file))))

unfoldable pub render_ntpd_config : NtpServiceConfig → NtpClientConfig → String
unfolding source_lines
render_ntpd_config server client = built (
    line "# Managed by LAS."
    ++ source_lines "server" client.servers ""
    ++ source_lines "pool" client.pools ""
    ++ source_lines "peer" client.peers ""
    ++ source_lines "server" client.fallback_servers " prefer"
    ++ one
        "restrict default kod nomodify nopeer noquery limited\nrestrict 127.0.0.1\nrestrict ::1\n"
    ++ only_if server.enabled (
        for_each server.allow_cidrs (λ cidr. line ("# allow " <> cidr))
        ++ line ("tos orphan " <> itoa (or_number server.local_stratum (pos 10))))
    ++ only_if (client.nts || server.nts.enabled) (
        line
          "# NTS is supported through chrony in LAS; ntpsec NTS rendering is intentionally conservative."))
