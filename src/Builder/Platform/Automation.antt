-- ===== src/Builder/Platform/Automation.antt =====
-- internal/router/builder.go: queues, monitoring, automation and access.
use las.Prelude.{pos, String, List, [], ◌∷◌, ◌++◌, join, is_empty, str_eq, ◌<>◌, if◌then◌else◌}
use las.Errors.{str, int}
use las.Fmt.{sprintf}
use las.Config.{
  AccessConfig, AutomationConfig, BackupConfig, MonitoringConfig, NetFlowConfig, QosConfig,
  QosQueue, Role, RollbackWatchdog, ScheduledJob, SnmpConfig, User,
}
use las.Builder.Trace.{
  Calls, command, write, warning, only_if, one, for_each, has_text, line, built, or_text, or_number,
}
use las.Builder.Options.{filepath_dir, shell_quote}
use las.Builder.Security.{bool_text}

queue_plan : QosQueue → Calls
queue_plan q =
    let kind = or_text q.kind "cake" in
    if str_eq kind "cake"
    then one (
        command ("install CAKE queue " <> q.id) "tc" (
          "qdisc"
          ∷ "replace"
          ∷ "dev"
          ∷ q.interface
          ∷ "root"
          ∷ "cake"
          ∷ only_if (has_text q.rate) ("bandwidth" ∷ q.rate ∷ [])))
    else if str_eq kind "fq_codel"
    then one (
        command ("install FQ-CoDel queue " <> q.id) "tc"
          ("qdisc" ∷ "replace" ∷ "dev" ∷ q.interface ∷ "root" ∷ "fq_codel" ∷ []))
    else one
        (warning "qos queue %s kind %s is modeled but needs a renderer" (str q.id ∷ str kind ∷ []))

unfoldable pub add_qos_plan : QosConfig → Calls
unfolding queue_plan
add_qos_plan qos = only_if qos.enabled (for_each qos.queues queue_plan)

unfoldable pub render_snmp_config : SnmpConfig → String
render_snmp_config snmp = built (
    line "# Managed by LAS."
    ++ line ("agentAddress " <> or_text snmp.listen "udp:161")
    ++ line ("rocommunity " <> or_text snmp.community "public")
    ++ only_if (has_text snmp.location) (line ("sysLocation " <> snmp.location))
    ++ only_if (has_text snmp.contact) (line ("sysContact " <> snmp.contact)))

unfoldable pub render_softflowd_config : NetFlowConfig → String
render_softflowd_config n =
    sprintf "# Managed by LAS.\nINTERFACE=\"%s\"\nOPTIONS=\"-n %s:%d\"\nENGINE=\"%s\"\n" (
      str (join n.interfaces ",")
      ∷ str (or_text n.collector "127.0.0.1")
      ∷ int (or_number n.port (pos 2055))
      ∷ str (or_text n.engine "softflowd")
      ∷ [])

unfoldable pub add_monitoring_plan : MonitoringConfig → Calls
add_monitoring_plan m =
    only_if m.snmp.enabled (
      write "render snmpd config" "/etc/snmp/snmpd.conf" "0600" (render_snmp_config m.snmp)
      ∷ command "enable snmpd" "systemctl" ("enable" ∷ "--now" ∷ "snmpd" ∷ [])
      ∷ [])
    ++ only_if m.net_flow.enabled (
        write "render softflowd defaults" "/etc/default/softflowd" "0644"
          (render_softflowd_config m.net_flow)
        ∷ command "enable softflowd" "systemctl" ("enable" ∷ "--now" ∷ "softflowd" ∷ [])
        ∷ [])
    ++ only_if m.traffic_graphs.enabled (
        command "enable node exporter" "systemctl"
          ("enable" ∷ "--now" ∷ "prometheus-node-exporter" ∷ [])
        ∷ warning "traffic graph UI is modeled via node exporter; dashboard rendering is TODO" []
        ∷ [])

unfoldable pub render_rollback_watchdog : RollbackWatchdog → String
render_rollback_watchdog w =
    let target = or_text w.probe_target "1.1.1.1" in
    let recovery = or_text w.recovery_path "/root/ruleset.before" in
    sprintf
      "#!/usr/bin/env bash\nset -euo pipefail\nif ! ping -c 3 -W 2 %s >/dev/null 2>&1; then\n  if [[ -f %s ]]; then nft -f %s; fi\nfi\n"
      (str (shell_quote target) ∷ str (shell_quote recovery) ∷ str (shell_quote recovery) ∷ [])

unfoldable pub render_backup_script : BackupConfig → String
render_backup_script b = built (
    one "#!/usr/bin/env bash\nset -euo pipefail\n"
    ++ line ("dest=" <> shell_quote (or_text b.destination "/var/backups/las"))
    ++ line "install -d -m 0700 \"$dest\""
    ++ line
        "tar -czf \"$dest/las-$(date +%Y%m%d-%H%M%S).tar.gz\" /etc/las /usr/share/las 2>/dev/null"
    ++ only_if b.encrypt
        (line "# Encryption hook: configure age/gpg recipient before enabling encrypted backups."))

job_plan : ScheduledJob → Calls
job_plan j =
    let service =
      sprintf
        "[Unit]\nDescription=LAS scheduled job %s\n\n[Service]\nType=oneshot\nExecStart=/bin/sh -c %s\n"
        (str j.id ∷ str (shell_quote j.command) ∷ []) in
    let timer =
      sprintf
        "[Unit]\nDescription=LAS scheduled job timer %s\n\n[Timer]\nOnCalendar=%s\nPersistent=true\n\n[Install]\nWantedBy=timers.target\n"
        (str j.id ∷ str j.schedule ∷ []) in
    only_if j.enabled (
      write ("render scheduled job service " <> j.id)
        ("/etc/systemd/system/las-job-" <> j.id <> ".service") "0644" service
      ∷ write ("render scheduled job timer " <> j.id)
          ("/etc/systemd/system/las-job-" <> j.id <> ".timer") "0644" timer
      ∷ command ("enable scheduled job " <> j.id) "systemctl"
          ("enable" ∷ "--now" ∷ ("las-job-" <> j.id <> ".timer") ∷ [])
      ∷ [])

audit_plan : String → Calls
audit_plan path = one (
    command "ensure audit log" "sh" (
      "-c"
      ∷ sprintf "install -d -m 0750 %s; touch %s; chmod 0600 %s" (
          str (shell_quote (filepath_dir path))
          ∷ str (shell_quote path)
          ∷ str (shell_quote path)
          ∷ [])
      ∷ []))

backup_plan : BackupConfig → Calls
backup_plan b =
    one (write "render backup script" "/usr/local/sbin/las-backup" "0755" (render_backup_script b))
    ++ only_if (has_text b.schedule) (
        write "render backup timer" "/etc/systemd/system/las-backup.timer" "0644" (
          sprintf
            "[Unit]\nDescription=LAS backup timer\n\n[Timer]\nOnCalendar=%s\nPersistent=true\n\n[Install]\nWantedBy=timers.target\n"
            (str b.schedule ∷ []))
        ∷ write "render backup service" "/etc/systemd/system/las-backup.service" "0644"
            "[Unit]\nDescription=LAS backup\n\n[Service]\nType=oneshot\nExecStart=/usr/local/sbin/las-backup\n"
        ∷ command "enable LAS backup timer" "systemctl"
            ("enable" ∷ "--now" ∷ "las-backup.timer" ∷ [])
        ∷ [])

unfoldable pub add_automation_plan : AutomationConfig → Calls
unfolding job_plan audit_plan backup_plan
add_automation_plan a =
    only_if a.audit_log.enabled (audit_plan (or_text a.audit_log.path "/var/log/las/audit.log"))
    ++ only_if a.rollback_watchdog.enabled (
        write "render rollback watchdog" "/usr/local/sbin/las-rollback-watchdog" "0755"
          (render_rollback_watchdog a.rollback_watchdog)
        ∷ write "render rollback watchdog service"
            "/etc/systemd/system/las-rollback-watchdog.service" "0644"
            "[Unit]\nDescription=LAS rollback watchdog\nAfter=network-online.target\n\n[Service]\nType=oneshot\nExecStart=/usr/local/sbin/las-rollback-watchdog\n"
        ∷ [])
    ++ for_each a.scheduler job_plan
    ++ only_if a.backup.enabled (backup_plan a.backup)

-- `,` behind each entry but the last.
comma_before : {A : Type 0} → List A → String
comma_before rest = if is_empty rest then "" else ","

role_lines : List Role → List String
unfolding comma_before
role_lines [] = []
role_lines (r ∷ rs) =
    one (
      sprintf "    {\"name\": %q, \"permissions\": %q}%s\n"
        (str r.name ∷ str (join r.permissions ",") ∷ str (comma_before rs) ∷ []))
    ++ role_lines rs

user_lines : List User → List String
unfolding comma_before
user_lines [] = []
user_lines (u ∷ us) =
    one (
      sprintf "    {\"username\": %q, \"roles\": %q, \"disabled\": %s}%s\n" (
        str u.username
        ∷ str (join u.roles ",")
        ∷ str (bool_text u.disabled)
        ∷ str (comma_before us)
        ∷ []))
    ++ user_lines us

-- `%t` of a Boolean is its text.
unfoldable pub render_access_config : AccessConfig → String
unfolding role_lines user_lines
render_access_config a = built (
    line "{"
    ++ line ("  \"authEnabled\": " <> bool_text a.auth_enabled <> ",")
    ++ one (sprintf "  \"sessionTtl\": %q,\n" (str a.session_ttl ∷ []))
    ++ line "  \"roles\": ["
    ++ role_lines a.roles
    ++ one "  ],\n  \"users\": [\n"
    ++ user_lines a.users
    ++ one "  ]\n}\n")
