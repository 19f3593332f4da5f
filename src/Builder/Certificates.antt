-- ===== src/Builder/Certificates.antt =====
-- internal/router/builder.go: `addCertificateStorePlan` and the texts that it renders.
use las.Prelude.{
  String, Bool, false, not, ◌||◌, ◌&&◌, List, [], ◌∷◌, ◌++◌, join, contains, is_empty, str_eq, ◌<>◌,
  if◌then◌else◌,
}
use las.Errors.{str}
use las.Fmt.{sprintf}
use las.Config.{
  AcmeCertificate, AcmeConfig, CertificateAuthority, CertificateStore, ManagedCertificate,
}
use las.Builder.Trace.{
  Calls, command, write, warning, only_if, one, for_each, has_text, line, built, or_text,
}
use las.Builder.Options.{filepath_dir, shell_quote, has_prefix}

unfoldable pub render_managed_certificate_metadata : ManagedCertificate → String
render_managed_certificate_metadata cert = built (
    "{\n"
    ∷ sprintf "  \"id\": %q,\n" (str cert.id ∷ [])
    ∷ sprintf "  \"domains\": %q,\n" (str (join cert.domains ",") ∷ [])
    ∷ sprintf "  \"certFile\": %q,\n" (str cert.cert_file ∷ [])
    ∷ sprintf "  \"keyFile\": %q,\n" (str cert.key_file ∷ [])
    ∷ sprintf "  \"chainFile\": %q,\n" (str cert.chain_file ∷ [])
    ∷ sprintf "  \"fullChainFile\": %q,\n" (str cert.full_chain_file ∷ [])
    ∷ sprintf "  \"ownerService\": %q,\n" (str cert.owner_service ∷ [])
    ∷ sprintf "  \"renewHook\": %q\n" (str cert.renew_hook ∷ [])
    ∷ "}\n"
    ∷ [])

-- The keys that the two loops put into the map `seen`, each once, in the order of the first time.
put_key : List String → String → List String
put_key keys key = if contains keys key then keys else keys ++ key ∷ []

put_keys : List String → List String → List String
unfolding put_key
put_keys keys [] = keys
put_keys keys (key ∷ more) = put_keys (put_key keys key) more

unfoldable pub hook_services : CertificateStore → List String
unfolding put_keys
hook_services store = put_keys [] (
    for_each store.certificates
      (λ cert. only_if (has_text cert.owner_service) (one cert.owner_service))
    ++ for_each store.lets_encrypt.certificates (λ cert.
      only_if (not (has_text cert.deploy_hook) && has_prefix "las-" cert.id)
        (one (cert.id <> ".service"))))

-- Go goes over the keys of a map in an order of its own, which is the first argument.
unfoldable pub render_certbot_deploy_hook : (List String → List String) → CertificateStore → String
render_certbot_deploy_hook order store = built (
    one "#!/usr/bin/env bash\nset -euo pipefail\n"
    ++ for_each store.certificates
        (λ cert. only_if (has_text cert.renew_hook) (line cert.renew_hook))
    ++ for_each (order (hook_services store)) (λ service.
      one ("systemctl try-reload-or-restart " <> shell_quote service <> " || true\n")))

authority_target : String → String → CertificateAuthority → String
authority_target dir trust_store authority =
    if authority.install
    then trust_store <> "/las-" <> authority.id <> ".crt"
    else dir <> "/authorities/" <> authority.id <> ".crt"

authority_plan : String → String → CertificateAuthority → Calls
unfolding authority_target
authority_plan dir trust_store authority =
    let target = authority_target dir trust_store authority in
    one (
      command ("ensure CA directory " <> authority.id) "install"
        ("-d" ∷ "-m" ∷ "0750" ∷ filepath_dir target ∷ []))
    ++ (if has_text authority.pem
        then one (write ("render trusted CA " <> authority.id) target "0644" authority.pem)
        else one (
            command ("install trusted CA " <> authority.id) "install"
              ("-m" ∷ "0644" ∷ authority.source_file ∷ target ∷ [])))

-- `installedCA`
installs_ca : List CertificateAuthority → Bool
installs_ca [] = false
installs_ca (authority ∷ authorities) = authority.install || installs_ca authorities

managed_plan : String → ManagedCertificate → Calls
managed_plan dir cert =
    one (
      write ("render managed certificate metadata " <> cert.id) (dir <> "/" <> cert.id <> ".json")
        "0600" (render_managed_certificate_metadata cert))
    ++ only_if (not (has_text cert.cert_file) || not (has_text cert.key_file))
        (one (warning "managed certificate %s is missing certFile or keyFile" (str cert.id ∷ [])))

-- The `switch` on the method: the arguments that it adds.
method_args : String → AcmeCertificate → String → List String
method_args webroot cert method =
    if str_eq method "webroot"
    then "--webroot" ∷ "-w" ∷ or_text cert.webroot webroot ∷ []
    else if str_eq method "standalone"
    then "--standalone" ∷ []
    else only_if (str_eq method "dns") (
        "--preferred-challenges"
        ∷ "dns"
        ∷ only_if (has_text cert.dns_provider)
            ("--authenticator" ∷ ("dns-" <> cert.dns_provider) ∷ []))

acme_args : AcmeConfig → String → AcmeCertificate → List String
unfolding method_args
acme_args acme webroot cert =
    "certonly"
    ∷ "--non-interactive"
    ∷ "--agree-tos"
    ∷ "--email"
    ∷ acme.email
    ∷ "--cert-name"
    ∷ cert.id
    ∷ (for_each cert.domains (λ domain. "-d" ∷ domain ∷ [])
        ++ method_args webroot cert (or_text cert.method "webroot")
        ++ only_if (has_text acme.directory_url) ("--server" ∷ acme.directory_url ∷ [])
        ++ only_if (acme.staging || cert.staging) ("--staging" ∷ [])
        ++ only_if (has_text cert.key_type) ("--key-type" ∷ cert.key_type ∷ [])
        ++ only_if (has_text cert.deploy_hook) ("--deploy-hook" ∷ cert.deploy_hook ∷ []))

acme_certificate_plan : AcmeConfig → String → AcmeCertificate → Calls
unfolding acme_args
acme_certificate_plan acme webroot cert =
    only_if (str_eq (or_text cert.method "webroot") "dns") (
      one (
        warning
          "Let's Encrypt certificate %s uses DNS challenge; install and configure the matching certbot DNS plugin/credentials"
          (str cert.id ∷ [])))
    ++ one (
        command ("request/renew Let's Encrypt certificate " <> cert.id) "certbot"
          (acme_args acme webroot cert))

module _ (order : List String → List String) where
  lets_encrypt_plan : CertificateStore → Calls
  unfolding acme_certificate_plan
  lets_encrypt_plan store =
      let acme = store.lets_encrypt in
      let webroot = or_text acme.webroot "/var/www/letsencrypt" in
      command "ensure Let's Encrypt webroot" "install" ("-d" ∷ "-m" ∷ "0755" ∷ webroot ∷ [])
      ∷ command "ensure certbot deploy hook directory" "install"
          ("-d" ∷ "-m" ∷ "0755" ∷ "/etc/letsencrypt/renewal-hooks/deploy" ∷ [])
      ∷ write "render LAS certbot deploy hook" "/etc/letsencrypt/renewal-hooks/deploy/las.sh" "0755"
          (render_certbot_deploy_hook order store)
      ∷ (for_each acme.certificates (acme_certificate_plan acme webroot)
          ++ only_if acme.renew_timer (
              one (
                command "enable certbot auto-renewal" "systemctl"
                  ("enable" ∷ "--now" ∷ "certbot.timer" ∷ []))))

  unfoldable pub add_certificate_store_plan : CertificateStore → Calls
  unfolding authority_plan installs_ca managed_plan lets_encrypt_plan
  add_certificate_store_plan store =
      let dir = or_text store.directory "/etc/las/certs" in
      let trust_store = or_text store.trust_store "/usr/local/share/ca-certificates" in
      if not store.enabled && not store.lets_encrypt.enabled
      then []
      else one (command "ensure LAS certificate store" "install" ("-d" ∷ "-m" ∷ "0750" ∷ dir ∷ []))
        ++ only_if (not (is_empty store.authorities)) (
            one (
              command "ensure system trust store" "install"
                ("-d" ∷ "-m" ∷ "0755" ∷ trust_store ∷ [])))
        ++ for_each store.authorities (authority_plan dir trust_store)
        ++ only_if (installs_ca store.authorities)
            (one (command "refresh Debian CA certificates" "update-ca-certificates" []))
        ++ for_each store.certificates (managed_plan dir)
        ++ only_if store.lets_encrypt.enabled (lets_encrypt_plan store)
