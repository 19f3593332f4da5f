-- ===== src/Net/Address.antt =====
-- `netip.ParseAddr`, `netip.ParsePrefix` and `net.ParseIP`.
use las.Prelude.{
  ℕ, zero, suc, ◌+◌, ◌-◌, ◌*◌, String, Bool, true, false, not, ◌&&◌, ◌||◌, Option, none, some, List,
  [], ◌∷◌, ◌++◌, Codes, codes, in_range, is_digit, cut_first, cut_last, is_empty, length, ltb, ◌==◌,
  if◌then◌else◌,
}

-- An IPv4 address is its four bytes; an IPv6 address its eight groups of 16 bits and its zone.
pub data Addr : Type 0 where
  v4 : List ℕ → Addr
  v6 : List ℕ → Codes → Addr

pub record Prefix : Type 0 where
  pub addr : Addr
  pub bits : ℕ

abbrev pub is4 : Addr → Bool
is4 (v4 _) = true
is4 (v6 _ _) = false

abbrev pub is6 : Addr → Bool
is6 (v4 _) = false
is6 (v6 _ _) = true

-- The loop of `parseIPv4Fields`. The octet before a dot is empty exactly if it has no digit.
ipv4_fields : Codes → ℕ → ℕ → List ℕ → Option (List ℕ)
ipv4_fields [] val dig_len fields = if length fields == 3 then some (fields ++ val ∷ []) else none
ipv4_fields (c ∷ s) val dig_len fields =
    let val' = val * 10 + (c - b'0') in
    let more = ipv4_fields s val' (dig_len + 1) fields in
    let next = ipv4_fields s 0 0 (fields ++ val ∷ []) in
    if is_digit c
    then if dig_len == 1 && val == 0 || ltb 255 val' then none else more
    else if c == b'.' && not (dig_len == 0 || is_empty s || length fields == 3)
    then next
    else none

hex_value : ℕ → Option ℕ
hex_value c =
    if is_digit c
    then some (c - b'0')
    else if in_range b'a' b'f' c
    then some (c - b'a' + 10)
    else if in_range b'A' b'F' c
    then some (c - b'A' + 10)
    else none

-- The hex number at the start of the text: its value, its length and the rest. A fifth digit fails.
hex_run : Codes → ℕ → ℕ → Option (ℕ × ℕ × Codes)
hex_run [] acc off = some (acc, off, [])
hex_run (c ∷ s) acc off = elim (hex_value c) [
  | none ↦ some (acc, off, c ∷ s)
  | some d ↦ if ltb 3 off then none else hex_run s (acc * 16 + d) (off + 1)
]

-- What the loop of `parseIPv6` leaves: the groups, the place of the `::` and the text not read.
abbrev Groups : Type 0
Groups = List ℕ × Option ℕ × Codes

pair_up : List ℕ → List ℕ
pair_up (a ∷ b ∷ rest) = (a * 256 + b) ∷ pair_up rest
pair_up _ = []

-- A group that a dot follows: an IPv4 address must stand there, as the last two groups.
embedded : Codes → List ℕ → Option ℕ → Option Groups
unfolding ipv4_fields pair_up
embedded s groups ellipsis =
    if (elim ellipsis [ none ↦ not (length groups == 6) | some _ ↦ ltb 6 (length groups) ])
    then none
    else elim (ipv4_fields s 0 0 []) [
      | none ↦ none
      | some fields ↦ some (groups ++ pair_up fields, ellipsis, [])
    ]

-- Each round reads one group; eight are left at the start.
ipv6_groups : ℕ → Codes → List ℕ → Option ℕ → Option Groups
unfolding hex_run hex_value embedded
ipv6_groups zero s groups ellipsis = some (groups, ellipsis, s)
ipv6_groups (suc left) s groups ellipsis = elim (hex_run s 0 0) [
  | none ↦ none
  | some (acc, off, rest) ↦
      if off == 0
      then none
      else let groups' = groups ++ acc ∷ [] in
        elim rest [
          | [] ↦ some (groups', ellipsis, [])
          | c ∷ s' ↦
              if c == b'.'
              then embedded s groups ellipsis
              else if not (c == b':')
              then none
              else elim s' [
                | [] ↦ none
                | d ∷ s'' ↦
                    if d == b':'
                    then elim ellipsis [
                      | some _ ↦ none
                      | none ↦ elim s'' [
                        | [] ↦ some (groups', some (length groups'), [])
                        | e ∷ t ↦ ipv6_groups left (e ∷ t) groups' (some (length groups'))
                      ]
                    ]
                    else ipv6_groups left (d ∷ s'') groups' ellipsis
              ]
        ]
]

zeros : ℕ → List ℕ
zeros zero = []
zeros (suc n) = 0 ∷ zeros n

-- Puts the zeros of the `::` in its place.
spread : ℕ → ℕ → List ℕ → List ℕ
spread zero n groups = zeros n ++ groups
spread (suc at) n [] = zeros n
spread (suc at) n (g ∷ groups) = g ∷ spread at n groups

finish : Codes → Groups → Option Addr
unfolding zeros spread
finish zone (groups, ellipsis, rest) = if not (is_empty rest) then none else elim ellipsis [
  | none ↦ if ltb (length groups) 8 then none else some (v6 groups zone)
  | some at ↦
      if ltb (length groups) 8 then some (v6 (spread at (8 - length groups) groups) zone) else none
]

after_zone : Codes → Codes → Option Addr
unfolding ipv6_groups finish
after_zone (b ∷ c ∷ s) zone =
    if b == b':' && c == b':'
    then if is_empty s
      then some (v6 (zeros 8) zone)
      else elim (ipv6_groups 8 s [] (some 0)) [ none ↦ none | some g ↦ finish zone g ]
    else elim (ipv6_groups 8 (b ∷ c ∷ s) [] none) [ none ↦ none | some g ↦ finish zone g ]
after_zone s zone = elim (ipv6_groups 8 s [] none) [ none ↦ none | some g ↦ finish zone g ]

parse_ipv6 : Codes → Option Addr
unfolding after_zone cut_first
parse_ipv6 s =
    let (addr, zone) = cut_first b'%' s in
    elim zone [
      | none ↦ after_zone addr []
      | some [] ↦ none
      | some (z ∷ zs) ↦ after_zone addr (z ∷ zs)
    ]

-- The first of `.`, `:` and `%` tells what to read.
addr_kind : Codes → Codes → Option Addr
unfolding parse_ipv6 ipv4_fields
addr_kind [] s = none
addr_kind (c ∷ rest) s =
    let later = addr_kind rest s in
    if c == b'.'
    then elim (ipv4_fields s 0 0 []) [ none ↦ none | some fields ↦ some (v4 fields) ]
    else if c == b':'
    then parse_ipv6 s
    else if c == b'%'
    then none
    else later

unfoldable pub parse_addr : Codes → Option Addr
unfolding addr_kind
parse_addr s = addr_kind s s

-- `strconv.Atoi` of the text behind the slash, which has no sign and no leading zero.
decimal : Codes → ℕ → Option ℕ
decimal [] n = some n
decimal (c ∷ s) n = let more = decimal s (n * 10 + (c - b'0')) in if is_digit c then more else none

prefix_bits : Codes → Option ℕ
unfolding decimal
prefix_bits [] = none
prefix_bits (c ∷ []) = decimal (c ∷ []) 0
prefix_bits (c ∷ s) = if in_range b'1' b'9' c then decimal (c ∷ s) 0 else none

-- The address and the length of a prefix, if the one has no zone and the other is in range.
bounded : Addr → ℕ → Option Prefix
bounded (v4 bytes) n = if ltb 32 n then none else some (record { addr = v4 bytes; bits = n })
bounded (v6 groups (_ ∷ _)) n = none
bounded (v6 groups []) n =
    if ltb 128 n then none else some (record { addr = v6 groups []; bits = n })

unfoldable pub parse_prefix : String → Option Prefix
unfolding cut_last parse_addr prefix_bits bounded
parse_prefix value = elim (cut_last b'/' (codes value)) [
  | none ↦ none
  | some (ip, bits) ↦ elim (parse_addr ip) [
    | none ↦ none
    | some addr ↦ elim (prefix_bits bits) [ none ↦ none | some n ↦ bounded addr n ]
  ]
]

has_no_zone : Addr → Bool
has_no_zone (v4 _) = true
has_no_zone (v6 _ zone) = is_empty zone

-- `net.ParseIP(s) != nil`, over the code points of the text.
unfoldable pub parse_ip : Codes → Bool
unfolding parse_addr has_no_zone
parse_ip s = elim (parse_addr s) [ none ↦ false | some addr ↦ has_no_zone addr ]
