-- ===== src/Net/HostPort.antt =====
-- `net.SplitHostPort`, as far as the host: the program drops the port.
use las.Prelude.{
  ◌||◌, Option, none, some, [], ◌∷◌, Codes, has_code, cut_first, cut_last, ◌==◌, if◌then◌else◌,
}

-- A host in brackets: the text from its `]` on must be one colon and the port.
bracketed : Codes → Option Codes
unfolding cut_first
bracketed rest =
    let (host, after) = cut_first b']' rest in
    elim after [
      | none ↦ none
      | some [] ↦ none
      | some (c ∷ port) ↦
          if has_code b':' port || has_code b'[' rest || has_code b']' port
          then none
          else if c == b':'
          then some host
          else none
    ]

plain : Codes → Option Codes
unfolding cut_last
plain s = elim (cut_last b':' s) [
  | none ↦ none
  | some (host, port) ↦
      if has_code b':' host || has_code b'[' s || has_code b']' s then none else some host
]

unfoldable pub split_host_port : Codes → Option Codes
unfolding bracketed plain
split_host_port [] = none
split_host_port (c ∷ s) = if c == b'[' then bracketed s else plain (c ∷ s)
