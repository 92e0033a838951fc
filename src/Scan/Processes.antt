-- ===== src/Scan/Processes.antt =====
-- ScanFiles.cpp: findPidBySockInode. An exception that nobody catches is `none`.
use hut_karish.Prelude.{
  ℕ, Bool, false, not, List, [], ◌∷◌, Option, none, some, ◌>>=◌, if◌then◌else◌, all, any,
}
use hut_karish.Prelude.Int.{ℤ, pos, minus_one}
use hut_karish.Scan.Chars.{is_digit}
use hut_karish.Scan.Numbers.{stoi}
use hut_karish.Scan.Links.{link_names}

-- /proc/[pid]/fd: not there, there and not to be listed, or its links, none for one that cannot be
-- read.
pub data FdDir : Type 0 where
  missing : FdDir
  unreadable : FdDir
  links : List (Option (List ℕ)) → FdDir

-- An entry of /proc.
pub record Entry : Type 0 where
  pub name : List ℕ
  pub is_directory : Bool
  pub fd : FdDir

unfoldable pub link_matches : List ℕ → Option (List ℕ) → Bool
link_matches inode none = false
link_matches inode (some link) = link_names inode link

-- The loop over the descriptors of one process; `rest` is what the loop over the processes gives
-- when this one does not have the socket.
unfoldable pub search_fds : List ℕ → List ℕ → FdDir → Option ℤ → Option ℤ
unfolding link_matches
search_fds inode name missing rest = rest
search_fds inode name unreadable rest = none
search_fds inode name (links ls) rest =
    if any (link_matches inode) ls then (stoi name >>= λ pid. some (pos pid)) else rest

unfoldable pub find_pid_by_sock_inode : List ℕ → List Entry → Option ℤ
unfolding search_fds
find_pid_by_sock_inode inode [] = some minus_one
find_pid_by_sock_inode inode (dir ∷ dirs) =
    let rest = find_pid_by_sock_inode inode dirs in
    if not dir.is_directory
    then rest
    else if not (all is_digit dir.name)
    then rest
    else search_fds inode dir.name dir.fd rest
