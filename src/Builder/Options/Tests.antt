-- ===== src/Builder/Options/Tests.antt =====
-- The helpers at concrete texts.
use las.Control.Shell.{shell_words}
use las.Builder.Options.Words.{shell_words-join_command}
use las.Prelude.{codes, some, map, true, false, [], ◌∷◌, ◌≡◌, refl, join}
use las.Fmt.{quote}
use las.Control.{all_plain, replace_quotes}
use las.Builder.Options.{
  option, option_default, endpoint_host_port, option_list, bool_option, systemd_env_line,
  filepath_dir, join_command, shell_quote,
}

endpoints :
    (endpoint_host_port "https://vpn.example.org/group" ≡ ("vpn.example.org", ""))
    × (endpoint_host_port "vpn.example.org:443" ≡ ("vpn.example.org", "443"))
    × (endpoint_host_port "[2001:db8::1]" ≡ ("2001:db8::1", ""))
    × (endpoint_host_port "[2001:db8::1]:443" ≡ ("2001:db8::1]:443", ""))
unfolding endpoint_host_port
endpoints = (refl, refl, refl, refl)

lists :
    (option_list " 10.0.0.0 255.0.0.0 ;; 10.1.0.0,\n" ≡ "10.0.0.0 255.0.0.0" ∷ "10.1.0.0" ∷ [])
    × (option_list "" ≡ [])
unfolding option_list
lists = (refl, refl)

words : (bool_option "Yes" ≡ true) × (bool_option "ENABLED" ≡ true) × (bool_option "no" ≡ false)
unfolding bool_option
words = (refl, refl, refl)

directories :
    (filepath_dir "/etc/las/certs/a.crt" ≡ "/etc/las/certs")
    × (filepath_dir "/a" ≡ ".")
    × (filepath_dir "a" ≡ ".")
unfolding filepath_dir
directories = (refl, refl, refl)

options :
    (option_default (("port", "1195") ∷ []) "port" "1194" ≡ "1195")
    × (option_default (("port", "") ∷ []) "port" "1194" ≡ "1194")
    × (systemd_env_line "VPN_USER" "a b" ≡ "VPN_USER=\"a b\"\n")
    × (join_command "ip" ("link" ∷ "a b" ∷ []) ≡ "ip link 'a b'")
unfolding option_default option systemd_env_line quote join_command shell_quote all_plain
    replace_quotes join
options = (refl, refl, refl, refl)

shell_words-join_command_example :
    shell_words (codes (join_command "ip" ("link" ∷ "it's me" ∷ [])))
    ≡ some (map codes ("ip" ∷ "link" ∷ "it's me" ∷ []))
shell_words-join_command_example = shell_words-join_command "ip" ("link" ∷ "it's me" ∷ [])
