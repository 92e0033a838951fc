-- ===== src/Scan/Links.antt =====
-- ScanFiles.cpp: the test of findPidBySockInode on a link of /proc/[pid]/fd.
use hut_karish.Prelude.{
  ℕ, ◌+◌, ◌-◌, ◌%◌, ◌^◌, Bool, true, false, ◌&&◌, ◌||◌, List, [], ◌∷◌, ◌==◌, codes, text_eq, length,
  take, drop,
}

unfoldable pub starts_with : List ℕ → List ℕ → Bool
starts_with [] text = true
starts_with (p ∷ ps) [] = false
starts_with (p ∷ ps) (c ∷ cs) = p == c && starts_with ps cs

-- text.find(pattern) != npos
unfoldable pub contains : List ℕ → List ℕ → Bool
unfolding starts_with
contains pattern [] = starts_with pattern []
contains pattern (c ∷ cs) = starts_with pattern (c ∷ cs) || contains pattern cs

abbrev pub socket_prefix : List ℕ
socket_prefix = codes "socket:["

-- link.substr(8, link.size() - 9), where the subtraction wraps.
unfoldable pub inode_of_link : List ℕ → List ℕ
inode_of_link link = take ((length link + (2 ^ 64 - 9)) % 2 ^ 64) (drop 8 link)

unfoldable pub link_names : List ℕ → List ℕ → Bool
unfolding contains inode_of_link
link_names inode link = contains socket_prefix link && text_eq (inode_of_link link) inode
