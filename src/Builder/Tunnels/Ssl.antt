-- ===== src/Builder/Tunnels/Ssl.antt =====
-- internal/router/builder.go: the OpenConnect, FortiGate SSL and proxy tunnels, and their units.
use las.Prelude.{String, not, ◌&&◌, List, [], ◌∷◌, ◌++◌, str_eq, ◌<>◌, if◌then◌else◌}
use las.Errors.{str}
use las.Config.{Tunnel}
use las.Builder.Trace.{Calls, command, write, warning, only_if, one, has_text, line, built, or_text}
use las.Builder.Options.{
  option, option_default, endpoint_host_port, systemd_env_line, join_args, shell_quote,
}
use las.Builder.Tunnels.OpenVpn.{credential_of, option_of}

unfoldable pub open_connect_protocol : String → List (String × String) → String
open_connect_protocol type options =
    if has_text (option options "protocol")
    then option options "protocol"
    else if str_eq type "globalprotect"
    then "gp"
    else if str_eq type "pulse-secure"
    then "pulse"
    else "anyconnect"

-- A flag with its value, unless the value is empty.
flag_with : String → String → List String
flag_with flag value = only_if (has_text value) (flag ∷ value ∷ [])

unfoldable pub render_open_connect_env : Tunnel → String → String
unfolding flag_with
render_open_connect_env t protocol = built (
    systemd_env_line "VPN_SERVER" t.remote_endpoint
    ∷ systemd_env_line "VPN_PROTOCOL" protocol
    ∷ systemd_env_line "VPN_INTERFACE" t.interface_name
    ∷ systemd_env_line "VPN_SCRIPT" (option_default t.options "script" "/etc/vpnc/vpnc-script")
    ∷ systemd_env_line "VPN_USER" (credential_of t "username")
    ∷ systemd_env_line "PASSWORD_FILE" (credential_of t "passwordFile")
    ∷ systemd_env_line "COOKIE_FILE" (credential_of t "cookieFile")
    ∷ systemd_env_line "EXTRA_ARGS" (
        join_args (
          flag_with "--servercert" (option_of t "serverCert")
          ++ flag_with "--cafile" (credential_of t "caFile")
          ++ flag_with "--csd-wrapper" (option_of t "csdWrapper")))
    ∷ [])

-- The parts of a unit that the three services share.
unit_head : String → String
unit_head description =
    "[Unit]\nDescription=" <> description
    <> "\nAfter=network-online.target\nWants=network-online.target\n\n[Service]\nType=simple\n"

unit_tail : String → String
unit_tail limits =
    "Restart=always\nRestartSec=5s\n" <> limits <> "\n[Install]\nWantedBy=multi-user.target\n"

abbrev open_connect_script : String
open_connect_script =
    "ExecStart=/bin/sh -c 'if [ -n \"${COOKIE_FILE:-}\" ]; then exec /usr/sbin/openconnect $EXTRA_ARGS --protocol \"$VPN_PROTOCOL\" --interface \"$VPN_INTERFACE\" --script \"$VPN_SCRIPT\" --user \"$VPN_USER\" --cookie-on-stdin \"$VPN_SERVER\" < \"$COOKIE_FILE\"; elif [ -n \"${PASSWORD_FILE:-}\" ]; then exec /usr/sbin/openconnect $EXTRA_ARGS --protocol \"$VPN_PROTOCOL\" --interface \"$VPN_INTERFACE\" --script \"$VPN_SCRIPT\" --user \"$VPN_USER\" --passwd-on-stdin \"$VPN_SERVER\" < \"$PASSWORD_FILE\"; else exec /usr/sbin/openconnect $EXTRA_ARGS --protocol \"$VPN_PROTOCOL\" --interface \"$VPN_INTERFACE\" --script \"$VPN_SCRIPT\" --user \"$VPN_USER\" \"$VPN_SERVER\"; fi'\n"

unfoldable pub render_open_connect_service : String → String
unfolding unit_head unit_tail
render_open_connect_service env_path =
    unit_head "LAS OpenConnect VPN tunnel"
    <> "EnvironmentFile="
    <> env_path
    <> "\n"
    <> open_connect_script
    <> unit_tail ""

unfoldable pub render_forti_gate_ssl_config : Tunnel → String
render_forti_gate_ssl_config t =
    let (host, port) = endpoint_host_port t.remote_endpoint in
    let equation =
      λ (key value : String). only_if (has_text value) (line (key <> " = " <> value)) in
    built (
      line "# Managed by LAS."
      ++ line ("host = " <> host)
      ++ line ("port = " <> or_text port (option_default t.options "port" "443"))
      ++ equation "username" (credential_of t "username")
      ++ equation "password" (credential_of t "password")
      ++ equation "trusted-cert" (option_of t "trustedCert")
      ++ equation "ca-file" (credential_of t "caFile")
      ++ equation "pppd-ifname" t.interface_name
      ++ equation "set-dns" (option_of t "setDNS")
      ++ equation "realm" (option_of t "realm"))

unfoldable pub render_forti_gate_ssl_service : Tunnel → String → String
unfolding unit_head unit_tail
render_forti_gate_ssl_service t conf_path =
    let password_file = credential_of t "passwordFile" in
    let args = built (
      one ("/usr/bin/openfortivpn -c " <> shell_quote conf_path)
      ++ only_if (has_text password_file)
          (one (" --password-file=" <> shell_quote password_file))) in
    unit_head "LAS FortiGate SSL VPN tunnel" <> "ExecStart=" <> args <> "\n" <> unit_tail ""

unfoldable pub default_proxy_engine : String → String
default_proxy_engine type = if str_eq type "sing-box" then "sing-box" else "xray"

unfoldable pub render_proxy_tunnel_service : String → Tunnel → String → String
unfolding unit_head unit_tail
render_proxy_tunnel_service engine t config_file =
    let binary = or_text (option_of t "binary") ("/usr/local/bin/" <> engine) in
    let args =
      if str_eq engine "xray"
      then "run -config " <> shell_quote config_file
      else "run -c " <> shell_quote config_file in
    unit_head ("LAS " <> engine <> " tunnel " <> t.id)
    <> "ExecStart="
    <> binary
    <> " "
    <> args
    <> "\n"
    <> unit_tail "LimitNOFILE=1048576\n"

unit_path : String → String
unit_path service = "/etc/systemd/system/" <> service

unfoldable pub add_open_connect_plan : Tunnel → String → Calls
unfolding unit_path
add_open_connect_plan t protocol =
    let env_path = "/etc/las/openconnect/" <> t.id <> ".env" in
    let service = "las-openconnect-" <> t.id <> ".service" in
    one (
      command "ensure OpenConnect profile directory" "install"
        ("-d" ∷ "-m" ∷ "0750" ∷ "/etc/las/openconnect" ∷ []))
    ++ only_if (not (has_text (credential_of t "username"))) (
        one (
          warning
            "OpenConnect tunnel %s has no credentials.username; non-interactive service auth may fail"
            (str t.id ∷ [])))
    ++ only_if
        (not (has_text (credential_of t "passwordFile"))
          && not (has_text (credential_of t "cookieFile")))
        (one (
          warning
            "OpenConnect tunnel %s has no credentials.passwordFile or credentials.cookieFile; configure one for unattended startup"
            (str t.id ∷ [])))
    ++ write ("render OpenConnect environment " <> t.id) env_path "0600"
        (render_open_connect_env t protocol)
      ∷ write ("render OpenConnect service " <> t.id) (unit_path service) "0644"
          (render_open_connect_service env_path)
      ∷ command ("reload systemd for OpenConnect " <> t.id) "systemctl" ("daemon-reload" ∷ [])
      ∷ command ("enable OpenConnect tunnel " <> t.id) "systemctl"
          ("enable" ∷ "--now" ∷ service ∷ [])
      ∷ []

unfoldable pub add_forti_gate_ssl_plan : Tunnel → Calls
unfolding unit_path
add_forti_gate_ssl_plan t =
    let conf_path = "/etc/las/openfortivpn/" <> t.id <> ".conf" in
    let service = "las-openfortivpn-" <> t.id <> ".service" in
    let has_password = has_text (credential_of t "password") in
    one (
      command "ensure FortiGate SSL VPN profile directory" "install"
        ("-d" ∷ "-m" ∷ "0750" ∷ "/etc/las/openfortivpn" ∷ []))
    ++ only_if (not (has_text (credential_of t "username"))) (
        one (
          warning
            "FortiGate SSL VPN tunnel %s has no credentials.username; non-interactive service auth may fail"
            (str t.id ∷ [])))
    ++ only_if (not has_password && not (has_text (credential_of t "passwordFile"))) (
        one (
          warning
            "FortiGate SSL VPN tunnel %s has no credentials.password or credentials.passwordFile; configure one for unattended startup"
            (str t.id ∷ [])))
    ++ only_if has_password (
        one (
          warning
            "FortiGate SSL VPN tunnel %s contains inline password; prefer credentials.passwordFile when possible"
            (str t.id ∷ [])))
    ++ write ("render FortiGate SSL VPN profile " <> t.id) conf_path "0600"
        (render_forti_gate_ssl_config t)
      ∷ write ("render FortiGate SSL VPN service " <> t.id) (unit_path service) "0644"
          (render_forti_gate_ssl_service t conf_path)
      ∷ command ("reload systemd for FortiGate SSL VPN " <> t.id) "systemctl" ("daemon-reload" ∷ [])
      ∷ command ("enable FortiGate SSL VPN tunnel " <> t.id) "systemctl"
          ("enable" ∷ "--now" ∷ service ∷ [])
      ∷ []

unfoldable pub add_proxy_tunnel_service_plan : Tunnel → Calls
unfolding unit_path
add_proxy_tunnel_service_plan t =
    let engine = or_text (option_of t "engine") (default_proxy_engine t.type) in
    let config_file = credential_of t "configFile" in
    let service = "las-" <> engine <> "-" <> t.id <> ".service" in
    if not (has_text config_file)
    then one (warning "%s tunnel %s has no credentials.configFile" (str t.type ∷ str t.id ∷ []))
    else write ("render " <> engine <> " tunnel service " <> t.id) (unit_path service) "0644"
        (render_proxy_tunnel_service engine t config_file)
      ∷ command ("reload systemd for " <> engine <> " tunnel " <> t.id) "systemctl"
          ("daemon-reload" ∷ [])
      ∷ command ("enable " <> engine <> " tunnel " <> t.id) "systemctl"
          ("enable" ∷ "--now" ∷ service ∷ [])
      ∷ []
