-- ===== src/Cli.antt =====
-- The command line of the client: cmd/htn-tunnel/main.go. What the terminal, the configuration file and the
-- server answer is an argument; printing is left out. `atoi` is strconv.Atoi and `trim_space` is
-- strings.TrimSpace. A choice that is no number, or below one, is zero.
pub mod Choices
use htn_tunnel.Prelude.{
  ℕ, zero, suc, ◌+◌, ◌-◌, Bool, true, false, not, ◌&&◌, ◌||◌, Option, none, some, List, [], ◌∷◌,
  ◌++◌, length, take, drop, get_or, any, ltb, leb, nat_beq, if◌then◌else◌, Text, text_eq, str, ◌==◌,
  to_lower, last_index, contains, last_bytes, ℤ, pos, negsuc, lt_int,
}

-- ClientConfig of internal/config/config.go
pub record ClientConfig : Type 0 where
  pub server_addr : Text
  pub token : Text

abbrev pub default_server : Text
default_server = str "localhost:4443"

-- loadClientCfg: the file's configuration, if it can be read, under the flags.
unfoldable pub load_client_cfg : Option ClientConfig → Text → Text → Option ClientConfig
load_client_cfg none flag_server flag_token = none
load_client_cfg (some cfg) flag_server flag_token =
    let addr = if not (flag_server == []) then flag_server else cfg.server_addr in
    some (record {
      server_addr = if addr == [] then default_server else addr;
      token = if not (flag_token == []) then flag_token else cfg.token;
    })

-- splitHostPort: at the last colon
unfoldable pub split_host_port : Text → Text × Text
split_host_port addr = elim (last_index b':' addr) [
  | none ↦ (addr, [])
  | some i ↦ (take i addr, drop (i + 1) addr)
]

-- extractHost
unfoldable pub extract_host : Text → Text
unfolding split_host_port
extract_host addr = let (host, _) = split_host_port addr in if host == [] then addr else host

-- strings.SplitN(arg, ":", 2): what stands in front of the first colon, and what stands behind it.
unfoldable pub split_colon : Text → Text × Option Text
split_colon [] = ([], none)
split_colon (c ∷ s) =
    let (front, back) = split_colon s in if nat_beq c b':' then ([], some s) else (c ∷ front, back)

-- sub in parsePortSubdomain
unfoldable pub sub_part : Option Text → Text
sub_part none = []
sub_part (some sub) = if not (sub == []) then to_lower sub else []

module _ (atoi : Text → Option ℤ) where
  -- parsePort
  unfoldable pub parse_port : Text → Option ℤ
  parse_port s = elim (atoi s) [
    | none ↦ none
    | some p ↦ if lt_int p (pos 1) || lt_int (pos 65535) p then none else some p
  ]

  -- parsePortSubdomain
  unfoldable pub parse_port_subdomain : Text → Option (ℤ × Text)
  unfolding split_colon sub_part
  parse_port_subdomain arg =
      let (port, rest) = split_colon arg in
      elim (atoi port) [
        | none ↦ none
        | some p ↦
            if lt_int p (pos 1) || lt_int (pos 65535) p then none else some (p, sub_part rest)
      ]

-- The address with the default port, if it has none.
unfoldable pub with_default_port : Text → Text
with_default_port addr = if not (contains addr (str ":")) then addr ++ str ":4443" else addr

module _ (trim_space : Text → Text) where
  -- ensureServer, with the line that the user enters: whether a server is configured, and the
  -- configuration.
  unfoldable pub ensure_server : Option Text → ClientConfig → Bool × ClientConfig
  unfolding with_default_port
  ensure_server line cfg =
      if not (cfg.server_addr == []) && not (cfg.server_addr == default_server)
      then (true, cfg)
      else elim line [
        | none ↦ (false, cfg)
        | some l ↦
            let addr = trim_space l in
            if not (addr == [])
            then (true, record cfg { server_addr = with_default_port addr })
            else (false, cfg)
      ]

  -- setupCmd, with a file that can be written: the configuration that it saves.
  unfoldable pub setup : Option Text → ClientConfig → Option ClientConfig
  unfolding with_default_port
  setup line cfg = elim line [
    | none ↦ none
    | some l ↦
        let addr = trim_space l in
        if not (addr == [])
        then some (record cfg { server_addr = with_default_port addr })
        else none
  ]

-- authCmd: what is saved.
unfoldable pub auth : Text → Text → ClientConfig
auth flag_server token = record { server_addr = flag_server; token = token }

-- logoutCmd: what is saved, over what can be read of the file.
unfoldable pub logout : Option ClientConfig → ClientConfig
logout old = record { server_addr = elim old [ none ↦ [] | some c ↦ c.server_addr ]; token = [] }

-- The key that statusCmd shows.
unfoldable pub status_key : Text → Text
status_key key = if ltb 12 (length key) then take 8 key ++ str "..." ++ last_bytes 4 key else key

unfoldable pub join_rest : List Text → Text
join_rest [] = []
join_rest (s ∷ ss) = str ", " ++ s ++ join_rest ss

-- joinOrNone
unfoldable pub join_or_none : List Text → Text
unfolding join_rest
join_or_none [] = str "(none)"
join_or_none (s ∷ ss) = s ++ join_rest ss

-- The subdomain at a choice counted from one, or the empty text for a random one.
unfoldable pub chosen : List Text → ℕ → Text
chosen subs choice =
    if leb 1 choice && leb choice (length subs) then get_or subs (choice - 1) [] else []

-- pickSubdomain: the account's subdomains, if the server answers, and the user's choice.
unfoldable pub pick_subdomain : Option (List Text) → ℕ → Text
unfolding chosen
pick_subdomain none choice = []
pick_subdomain (some subs) choice = if nat_beq (length subs) 0 then [] else chosen subs choice

-- validateSubdomain: whether there is no error.
unfoldable pub subdomain_accepted : Option (List Text) → Text → Bool
subdomain_accepted none sub = true
subdomain_accepted (some subs) sub = any (λ s. s == sub) subs

-- handleSubdomainError: `none` is an error, the first one or the user's.
unfoldable pub handle_subdomain_error : Option (List Text) → ℕ → Option Text
unfolding chosen
handle_subdomain_error none choice = none
handle_subdomain_error (some subs) choice =
    if nat_beq (length subs) 0
    then none
    else if nat_beq choice (length subs + 2)
    then none
    else some (chosen subs choice)

-- What the server answers to the account requests of one command, in order, and what the user enters.
pub record Answers : Type 0 where
  pub first : Option (List Text)
  pub second : Option (List Text)
  pub choice : ℕ

-- httpCmd, when it has a token or no subdomain is asked for: the subdomain to request.
unfoldable pub resolve_subdomain : Text → Text → Answers → Option Text
unfolding pick_subdomain subdomain_accepted handle_subdomain_error
resolve_subdomain token sub a =
    if token == []
    then some sub
    else if sub == []
    then some (pick_subdomain a.first a.choice)
    else if not (subdomain_accepted a.first sub)
    then handle_subdomain_error a.second a.choice
    else some sub
