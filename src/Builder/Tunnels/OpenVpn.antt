-- ===== src/Builder/Tunnels/OpenVpn.antt =====
-- internal/router/builder.go: `addOpenVPNPlan` and the profile that it renders.
use las.Prelude.{String, not, ◌&&◌, List, [], ◌∷◌, ◌++◌, str_eq, ◌<>◌, if◌then◌else◌}
use las.Errors.{str}
use las.Fmt.{itoa}
use las.Config.{Tunnel}
use las.Builder.Trace.{
  Calls, command, write, warning, only_if, one, for_each, has_text, is_positive, line, built,
  or_text,
}
use las.Builder.Options.{
  option, option_default, option_list, bool_option, endpoint_host_port, filepath_dir,
}

-- `tunnel.Credentials[key]` and `tunnel.Options[key]`
abbrev pub credential_of : Tunnel → String → String
credential_of t key = option t.credentials key

abbrev pub option_of : Tunnel → String → String
option_of t key = option t.options key

unfoldable pub open_vpn_profile_path : Tunnel → String
open_vpn_profile_path t =
    if str_eq t.direction "server"
    then "/etc/openvpn/server/" <> t.id <> ".conf"
    else "/etc/openvpn/client/" <> t.id <> ".conf"

unfoldable pub generated_open_vpn_auth_path : Tunnel → String
generated_open_vpn_auth_path t =
    if has_text (credential_of t "authFile")
    then ""
    else if has_text (credential_of t "username") && has_text (credential_of t "password")
    then "/etc/las/openvpn/" <> t.id <> ".auth"
    else ""

unfoldable pub open_vpn_auth_path : Tunnel → String
open_vpn_auth_path t = or_text (credential_of t "authFile") (generated_open_vpn_auth_path t)

-- A line with a value, unless the value is empty.
abbrev pub line_with : String → String → List String
line_with directive value = only_if (has_text value) (line (directive <> " " <> value))

server_lines : Tunnel → List String
server_lines t =
    one "mode server\ntls-server\n"
    ++ line_with "server" (option_of t "server")
    ++ line_with "ifconfig-pool" (option_of t "ifconfigPool")
    ++ line_with "client-config-dir" (option_of t "clientConfigDir")
    ++ for_each (option_list (option_of t "pushRoutes"))
        (λ route. line ("push \"route " <> route <> "\""))
    ++ for_each t.dns (λ dns. line ("push \"dhcp-option DNS " <> dns <> "\""))

client_lines : Tunnel → String → String → List String
client_lines t host port =
    one "client\nnobind\nremote-cert-tls server\n"
    ++ only_if (has_text host) (line ("remote " <> host <> " " <> port))
    ++ line_with "auth-user-pass" (open_vpn_auth_path t)
    ++ only_if (bool_option (option_of t "routeNoPull")) (line "route-nopull")
    ++ only_if (bool_option (option_of t "redirectGateway")) (line "redirect-gateway def1")

unfoldable pub open_vpn_option_name : String → String
open_vpn_option_name key = if str_eq key "dataCiphers" then "data-ciphers" else key

unfoldable pub render_open_vpn_config : Tunnel → String
unfolding server_lines client_lines
render_open_vpn_config t =
    let (host, endpoint_port) = endpoint_host_port t.remote_endpoint in
    let port = or_text endpoint_port (option_default t.options "port" "1194") in
    built (
      line "# Managed by LAS."
      ++ line ("dev " <> t.interface_name)
      ++ line_with "dev-type" (option_of t "devType")
      ++ line ("proto " <> option_default t.options "proto" "udp")
      ++ line ("port " <> port)
      ++ one "topology subnet\npersist-key\npersist-tun\n"
      ++ only_if (is_positive t.mtu) (line ("tun-mtu " <> itoa t.mtu))
      ++ (if str_eq t.direction "server" then server_lines t else client_lines t host port)
      ++ for_each (option_list (option_of t "routes")) (λ route. line ("route " <> route))
      ++ line_with "ifconfig" (option_of t "ifconfig")
      ++ line_with "ca" (credential_of t "caFile")
      ++ line_with "cert" (credential_of t "certFile")
      ++ line_with "key" (credential_of t "keyFile")
      ++ line_with "pkcs12" (credential_of t "pkcs12File")
      ++ line_with "dh" (credential_of t "dhFile")
      ++ line_with "tls-crypt" (credential_of t "tlsCryptFile")
      ++ line_with "tls-auth" (credential_of t "tlsAuthFile")
      ++ for_each ("cipher" ∷ "dataCiphers" ∷ "auth" ∷ "compress" ∷ "management" ∷ [])
          (λ key. line_with (open_vpn_option_name key) (option_of t key))
      ++ line ("verb " <> option_default t.options "verb" "3")
      ++ line ("setenv LAS_TUNNEL_ID " <> t.id))

auth_file_plan : Tunnel → String → Calls
auth_file_plan t auth_path = only_if (has_text auth_path) (
    command "ensure OpenVPN LAS secret directory" "install"
      ("-d" ∷ "-m" ∷ "0750" ∷ filepath_dir auth_path ∷ [])
    ∷ write ("render OpenVPN auth file " <> t.id) auth_path "0600"
        (credential_of t "username" <> "\n" <> credential_of t "password" <> "\n")
    ∷ warning
        "OpenVPN tunnel %s contains inline username/password; prefer credentials.authFile to avoid secrets in apply plans"
        (str t.id ∷ [])
    ∷ [])

unfoldable pub add_open_vpn_plan : Tunnel → Calls
unfolding auth_file_plan
add_open_vpn_plan t =
    let profile_path = open_vpn_profile_path t in
    let source = credential_of t "configFile" in
    let service =
      if str_eq t.direction "server"
      then "openvpn-server@" <> t.id
      else "openvpn-client@" <> t.id in
    one (
      command "ensure OpenVPN profile directory" "install"
        ("-d" ∷ "-m" ∷ "0750" ∷ filepath_dir profile_path ∷ []))
    ++ (if has_text source && not (str_eq source profile_path)
        then one (
            command ("install OpenVPN profile " <> t.id) "install"
              ("-m" ∷ "0600" ∷ source ∷ profile_path ∷ []))
        else auth_file_plan t (generated_open_vpn_auth_path t)
          ++ one (
              write ("render OpenVPN profile " <> t.id) profile_path "0600"
                (render_open_vpn_config t)))
    ++ one
        (command ("enable OpenVPN tunnel " <> t.id) "systemctl" ("enable" ∷ "--now" ∷ service ∷ []))
