-- ===== src/Builder/Sound.antt =====
-- What a plan asks of the machine: known programs, and files whose modes can be read.
pub mod Parts
use las.Prelude.{
  ℤ, String, Bool, true, false, List, [], ◌∷◌, ◌++◌, All, All-append, contains, ◌≡◌, refl,
  if◌then◌else◌,
}
use las.Errors.{Arg, str, int}
use las.Fmt.{sprintf}
use las.Builder.Options.{join_command, shell_quote}
use las.Os.{done}
use las.Control.Files.{file_mode}
use las.Config.{Config, CertificateStore, Interface}
use las.Builder.Trace.{Call, Calls, command, write, warning, only_if, for_each}

-- The programs that a plan starts itself.
abbrev pub programs : List String
programs =
    "ip" ∷ "sysctl" ∷ "systemctl" ∷ "install" ∷ "hostnamectl" ∷ "update-ca-certificates" ∷ "certbot"
    ∷ "wg" ∷ "modprobe" ∷ "tc" ∷ []

abbrev pub IsProgram : String → Type 0
IsProgram program = contains programs program ≡ true

abbrev pub HasMode : String → Type 0
HasMode mode = (bits : String) × (file_mode mode ≡ done bits)

-- The texts that a plan hands to a shell, by the arguments of their formats.
pub data IsScript : String → Type 0 where
  make_tun :
      (name : String)
      → IsScript (
          sprintf "ip link show dev %s >/dev/null 2>&1 || ip tuntap add dev %s mode tun"
            (str name ∷ str name ∷ []))
  make_wireguard :
      (name : String)
      → IsScript (
          sprintf "ip link show dev %s >/dev/null 2>&1 || ip link add dev %s type wireguard"
            (str name ∷ str name ∷ []))
  make_link :
      (name : String) (args : List String)
      → IsScript (
          sprintf "ip link show dev %s >/dev/null 2>&1 || %s"
            (str name ∷ str (join_command "ip" args) ∷ []))
  make_bond :
      (name mode : String)
      → IsScript (
          sprintf "ip link show dev %s >/dev/null 2>&1 || ip link add %s type bond mode %s"
            (str name ∷ str name ∷ str mode ∷ []))
  make_bridge :
      (name : String)
      → IsScript (
          sprintf "ip link show dev %s >/dev/null 2>&1 || ip link add name %s type bridge"
            (str name ∷ str name ∷ []))
  make_vlan :
      (name parent : String) (id : ℤ)
      → IsScript (
          sprintf
            "ip link show dev %s >/dev/null 2>&1 || ip link add link %s name %s type vlan id %d"
            (str name ∷ str parent ∷ str name ∷ int id ∷ []))
  make_vrf :
      (name : String) (table : ℤ)
      → IsScript (
          sprintf "ip link show dev %s >/dev/null 2>&1 || ip link add %s type vrf table %d"
            (str name ∷ str name ∷ int table ∷ []))
  enslave :
      (member name : String)
      → IsScript (
          sprintf "ip link set %s down; ip link set %s master %s; ip link set %s up"
            (str member ∷ str member ∷ str name ∷ str member ∷ []))
  add_member :
      (member name : String)
      → IsScript (
          sprintf "ip link set %s master %s; ip link set %s up"
            (str member ∷ str name ∷ str member ∷ []))
  set_policy :
      (priority mark table : ℤ)
      → IsScript (
          sprintf
            "ip rule del priority %d 2>/dev/null || true; ip rule add priority %d fwmark %d table %d"
            (int priority ∷ int priority ∷ int mark ∷ int table ∷ []))
  make_log :
      (dir path : String)
      → IsScript (
          sprintf "install -d -m 0750 %s; touch %s; chmod 0600 %s"
            (str (shell_quote dir) ∷ str (shell_quote path) ∷ str (shell_quote path) ∷ []))
  load_mpls : IsScript "modprobe mpls_router || true; modprobe mpls_gso || true"
  load_nftables :
      IsScript
        "nft list table inet las_router >/dev/null 2>&1 && nft delete table inet las_router || true; nft -f /run/las/nftables.conf"

pub data IsSound : Call → Type 0 where
  sound_command :
      {description program : String} {args : List String}
      → IsProgram program
      → IsSound (command description program args)
  sound_script :
      {description text : String}
      → IsScript text
      → IsSound (command description "sh" ("-c" ∷ text ∷ []))
  sound_write :
      {description path mode content : String}
      → HasMode mode
      → IsSound (write description path mode content)
  sound_warning : {format : String} {args : List Arg} → IsSound (warning format args)

abbrev pub AreSound : Calls → Type 0
AreSound = All IsSound

pub append-AreSound : (xs ys : Calls) → AreSound xs → AreSound ys → AreSound (xs ++ ys)
append-AreSound xs ys p q = (All-append IsSound xs ys).1 (p, q)

pub cons-AreSound : (x : Call) (xs : Calls) → IsSound x → AreSound xs → AreSound (x ∷ xs)
cons-AreSound x xs p q = (p, q)

pub nil-AreSound : AreSound []
nil-AreSound = tt

pub only_if-AreSound : (b : Bool) (xs : Calls) → AreSound xs → AreSound (only_if b xs)
unfolding only_if
only_if-AreSound true xs p = p
only_if-AreSound false xs p = tt

pub if-AreSound :
    (b : Bool) (xs ys : Calls) → AreSound xs → AreSound ys → AreSound (if b then xs else ys)
if-AreSound true xs ys p q = p
if-AreSound false xs ys p q = q

-- A choice of calls with a mark.
pub if_pair-AreSound :
    (b : Bool) (xs ys : Calls × Bool)
    → AreSound xs.0
    → AreSound ys.0
    → AreSound (if b then xs else ys).0
if_pair-AreSound true xs ys p q = p
if_pair-AreSound false xs ys p q = q

pub for_each-AreSound {ℓ} :
    {A : Type ℓ} (xs : List A) (f : A → Calls)
    → ((x : A) → AreSound (f x))
    → AreSound (for_each xs f)
unfolding for_each
for_each-AreSound [] f p = tt
for_each-AreSound (x ∷ xs) f p =
    append-AreSound (f x) (for_each xs f) (p x) (for_each-AreSound xs f p)

pub mode_0600 : HasMode "0600"
unfolding file_mode
mode_0600 = (_, refl)

pub mode_0644 : HasMode "0644"
unfolding file_mode
mode_0644 = (_, refl)

pub mode_0755 : HasMode "0755"
unfolding file_mode
mode_0755 = (_, refl)

pub IsProgram-ip : IsProgram "ip"
unfolding contains
IsProgram-ip = refl

pub IsProgram-sysctl : IsProgram "sysctl"
unfolding contains
IsProgram-sysctl = refl

pub IsProgram-systemctl : IsProgram "systemctl"
unfolding contains
IsProgram-systemctl = refl

pub IsProgram-install : IsProgram "install"
unfolding contains
IsProgram-install = refl

pub IsProgram-hostnamectl : IsProgram "hostnamectl"
unfolding contains
IsProgram-hostnamectl = refl

pub IsProgram-update_ca_certificates : IsProgram "update-ca-certificates"
unfolding contains
IsProgram-update_ca_certificates = refl

pub IsProgram-certbot : IsProgram "certbot"
unfolding contains
IsProgram-certbot = refl

pub IsProgram-wg : IsProgram "wg"
unfolding contains
IsProgram-wg = refl

pub IsProgram-modprobe : IsProgram "modprobe"
unfolding contains
IsProgram-modprobe = refl

pub IsProgram-tc : IsProgram "tc"
unfolding contains
IsProgram-tc = refl

pub ruleset sound = (
  append-AreSound, cons-AreSound, nil-AreSound, only_if-AreSound, if-AreSound, for_each-AreSound,
  make_tun, make_wireguard, make_link, make_bond, make_bridge, make_vlan, make_vrf, enslave,
  add_member, set_policy, make_log, load_mpls, load_nftables, sound_script, sound_command,
  sound_write, sound_warning, mode_0600, mode_0644, mode_0755, IsProgram-ip, IsProgram-sysctl,
  IsProgram-systemctl, IsProgram-install, IsProgram-hostnamectl, IsProgram-update_ca_certificates,
  IsProgram-certbot, IsProgram-wg, IsProgram-modprobe, IsProgram-tc,
)
