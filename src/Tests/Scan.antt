-- ===== src/Tests/Scan.antt =====
-- ScanFiles.cpp and PortToPidMap.cpp at concrete inputs.
use hut_karish.Prelude.{
  ℕ, ◌≡◌, ◌↔◌, refl, true, List, [], ◌∷◌, none, some, arith, codes, text_eq, All,
}
use hut_karish.Prelude.Int.{pos, minus_one}
use hut_karish.Prelude.Assoc.{find, assign, nat_eq}
use hut_karish.Scan.Lines.{Socket, parse_line, parse_listening_sockets}
use hut_karish.Scan.LineFormat.{ProcLine, IsProcLine, print_line}
use hut_karish.Scan.RoundTrip.{IsSpaced, parse_line-print_line}
use hut_karish.Scan.Links.{link_names}
use hut_karish.Scan.LinkFormat.{IsSocketLink, link_names_iff}
use hut_karish.Scan.Processes.{missing, links, Entry, find_pid_by_sock_inode}
use hut_karish.Scan.Numbers.{stoi, stoul_16, hex_number, hex_digit, hex_value}
use hut_karish.Scan.Regex.{regex_search, submatch}
use hut_karish.Scan.Owners.{IsPassed, Finds, Throws}
use hut_karish.Scan.Finding.{find_pid_iff}
use hut_karish.Scan.Ports.{PortMap, Proc, initialize_port_pid_map}
use hut_karish.Scan.Priority.{or_else, last_owner, first_owner, find-initialize_port_pid_map}

-- A listening socket on port 8080.
abbrev line : ProcLine
line = record {
  indent = codes "   ";
  slot = b'0';
  slots = [];
  address = codes "0100007F";
  port = 8080;
  remote = codes "00000000";
  remote_port = codes "0000";
  state_high = b'0';
  state_low = b'A';
  fields =
      ([], codes "00000000:00000000")
      ∷ ([], codes "00:00000000")
      ∷ ([], codes "00000000")
      ∷ (codes "  ", codes "1000")
      ∷ (codes "       ", codes "0")
      ∷ [];
  gap = [];
  inode = codes "12345";
  rest = codes "1 0000000000000000 100 0 0 10 0";
}

line-IsProcLine : IsProcLine line
unfolding text_eq
line-IsProcLine = record {
  spaces = refl;
  numbered = refl;
  address_hex = refl;
  address_long = refl;
  port_fits = omega arith;
  remote_hex = refl;
  remote_long = refl;
  remote_port_word = refl;
  remote_port_long = refl;
  state_word = refl;
  five_fields = refl;
  inode_number = refl;
  inode_set = refl;
}

line-IsSpaced : IsSpaced line
line-IsSpaced = record {
  fields_padded = (
    (refl, ((λ e. cc), refl)),
    (
      (refl, ((λ e. cc), refl)),
      ((refl, ((λ e. cc), refl)), ((refl, ((λ e. cc), refl)), ((refl, ((λ e. cc), refl)), tt))),
    ),
  );
  gap_spaces = refl;
  inode_some = λ e. cc;
}

parse_line-print_line_example :
    parse_line 8080 (print_line line) ≡ some (record { inode = codes "12345"; port = 8080 } ∷ [])
parse_line-print_line_example = parse_line-print_line line line-IsProcLine line-IsSpaced 8080

link_names_iff_example :
    (link_names (codes "12345") (codes "socket:[12345]") ≡ true)
    ↔ IsSocketLink (codes "12345") (codes "socket:[12345]")
link_names_iff_example =
    link_names_iff (codes "12345") (codes "socket:[12345]") b'1' (codes "2345") refl refl
      (omega arith) (omega arith)

-- Process 17 has the socket 12345 open; 16 does not, and `self` is no process.
abbrev entries : List Entry
entries =
    record { name = codes "self"; is_directory = true; fd = missing }
    ∷ record { name = codes "16"; is_directory = true; fd = links (some (codes "/dev/null") ∷ []) }
    ∷ record {
      name = codes "17";
      is_directory = true;
      fd = links (none ∷ some (codes "socket:[12345]") ∷ []);
    }
    ∷ []

found : find_pid_by_sock_inode (codes "12345") entries ≡ some (pos 17)
unfolding find_pid_by_sock_inode link_names text_eq stoi
found = refl

not_found : find_pid_by_sock_inode (codes "99") entries ≡ some minus_one
unfolding find_pid_by_sock_inode link_names text_eq
not_found = refl

find_pid_iff_example :
    ((pid : ℕ)
      → (find_pid_by_sock_inode (codes "12345") entries ≡ some (pos pid))
        ↔ Finds (codes "12345") entries pid)
    × ((find_pid_by_sock_inode (codes "12345") entries ≡ some minus_one)
        ↔ All (IsPassed (codes "12345")) entries)
    × ((find_pid_by_sock_inode (codes "12345") entries ≡ none) ↔ Throws (codes "12345") entries)
find_pid_iff_example = find_pid_iff (codes "12345") entries

abbrev pub proc : Proc
proc = record {
  tcp = codes "  sl  local_address" ∷ print_line line ∷ [];
  udp = print_line line ∷ [];
  entries = λ n. entries;
}

abbrev sockets : List Socket
sockets = record { inode = codes "12345"; port = 8080 } ∷ []

abbrev pub mapped : PortMap
mapped = (8080, pos 17) ∷ []

parse_tcp : parse_listening_sockets proc.tcp 0 ≡ some sockets
unfolding parse_listening_sockets regex_search stoul_16 submatch hex_number hex_digit hex_value
    text_eq
parse_tcp = refl

parse_udp : parse_listening_sockets proc.udp 0 ≡ some sockets
unfolding parse_listening_sockets regex_search stoul_16 submatch hex_number hex_digit hex_value
    text_eq
parse_udp = refl

initialized : initialize_port_pid_map proc [] ≡ some mapped
unfolding initialize_port_pid_map parse_listening_sockets regex_search stoul_16 submatch hex_number
    hex_digit hex_value text_eq find find_pid_by_sock_inode link_names stoi assign
initialized = refl

find-initialize_port_pid_map_example :
    find 8080 mapped ≡ or_else (last_owner proc 0 8080 sockets) (first_owner proc 1 8080 sockets)
find-initialize_port_pid_map_example =
    find-initialize_port_pid_map proc 8080 sockets sockets mapped parse_tcp parse_udp initialized
