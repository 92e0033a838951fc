-- ===== src/Scan/Owners.antt =====
-- findPidBySockInode, by the processes that own the socket: what its walk passes over, and where it
-- ends.
use hut_karish.Prelude.{
  ℕ, ◌≡◌, refl, ap, sym, ◌∙◌, true, List, [], ◌∷◌, ◌++◌, Option, none, some, Bool-cases, inl, inr,
  ◌⊎◌, ◌>>=◌, All, all, any,
}
use hut_karish.Prelude.Int.{ℤ, pos, minus_one}
use hut_karish.Scan.Chars.{is_digit}
use hut_karish.Scan.Numbers.{stoi}
use hut_karish.Scan.Processes.{
  FdDir, missing, unreadable, links, Entry, link_matches, search_fds, find_pid_by_sock_inode,
}

-- A process, by its directory in /proc, that has a descriptor open for the inode.
pub record IsOwner (inode : List ℕ) (dir : Entry) : Type 0 where
  pub directory : dir.is_directory ≡ true
  pub numeric : all is_digit dir.name ≡ true
  pub fds : List (Option (List ℕ))
  pub listed : dir.fd ≡ links fds
  pub held : any (link_matches inode) fds ≡ true

-- A process whose directory of descriptors cannot be listed, which throws.
pub record IsUnreadable (dir : Entry) : Type 0 where
  pub closed_directory : dir.is_directory ≡ true
  pub closed_numeric : all is_digit dir.name ≡ true
  pub closed : dir.fd ≡ unreadable

abbrev pub IsPassed : List ℕ → Entry → Type 0
IsPassed inode dir = (¬ IsOwner inode dir) × (¬ IsUnreadable dir)

-- The first entry that is not passed, of which `P` holds.
pub record First (inode : List ℕ) (P : Entry → Type 0) (dirs : List Entry) : Type 0 where
  pub before : List Entry
  pub dir : Entry
  pub behind : List Entry
  pub split : dirs ≡ before ++ dir ∷ behind
  pub passed_by : All (IsPassed inode) before
  pub holds : P dir

abbrev pub Finds : List ℕ → List Entry → ℕ → Type 0
Finds inode dirs pid = First inode (λ dir. IsOwner inode dir × (stoi dir.name ≡ some pid)) dirs

abbrev pub Throws : List ℕ → List Entry → Type 0
Throws inode dirs =
    First inode (λ dir. IsUnreadable dir ⊎ (IsOwner inode dir × (stoi dir.name ≡ none))) dirs

abbrev pub parsed : Option ℕ → Option ℤ
parsed o = o >>= λ pid. some (pos pid)

-- The cases of the loop's body.
pub data Body (inode : List ℕ) (dir : Entry) (rest r : Option ℤ) : Type 0 where
  passed : IsPassed inode dir → r ≡ rest → Body inode dir rest r
  thrown : IsUnreadable dir → r ≡ none → Body inode dir rest r
  owned : IsOwner inode dir → r ≡ parsed (stoi dir.name) → Body inode dir rest r

search_of :
    (inode : List ℕ) (dir : Entry) (rest : Option ℤ) (fd : FdDir)
    → dir.is_directory ≡ true
    → all is_digit dir.name ≡ true
    → dir.fd ≡ fd
    → Body inode dir rest (search_fds inode dir.name fd rest)
unfolding search_fds
search_of inode dir rest missing d n e = passed (λ o. cc (e, o.listed), λ u. cc (e, u.closed)) refl
search_of inode dir rest unreadable d n e =
    thrown (record { closed_directory = d; closed_numeric = n; closed = e }) refl
search_of inode dir rest (links ls) d n e = elim (Bool-cases (any (link_matches inode) ls)) [
  | inl h ↦
      rw h (owned (record { directory = d; numeric = n; fds = ls; listed = e; held = h }) refl)
  | inr h ↦
      rw h (passed (λ o. cc (links_inj (sym e ∙ o.listed), o.held, h), λ u. cc (e, u.closed)) refl)
]
  where
    links_inj : {xs ys : List (Option (List ℕ))} → links xs ≡ links ys → xs ≡ ys
    links_inj p = cc

module _ (inode : List ℕ) where
  pub cases_of :
      (dir : Entry) (dirs : List Entry)
      → Body inode dir
          (find_pid_by_sock_inode inode dirs)
          (find_pid_by_sock_inode inode (dir ∷ dirs))
  unfolding find_pid_by_sock_inode
  cases_of dir dirs = elim (Bool-cases dir.is_directory) [
    | inr d ↦ simp d (passed (λ o. cc (d, o.directory), λ u. cc (d, u.closed_directory)) refl)
    | inl d ↦ simp d (elim (Bool-cases (all is_digit dir.name)) [
      | inr n ↦ simp n (passed (λ o. cc (n, o.numeric), λ u. cc (n, u.closed_numeric)) refl)
      | inl n ↦ simp n (search_of inode dir _ dir.fd d n refl)
    ])
  ]

  -- What the walk gives after entries that are passed.
  find_after :
      (before rest : List Entry)
      → All (IsPassed inode) before
      → find_pid_by_sock_inode inode (before ++ rest) ≡ find_pid_by_sock_inode inode rest
  find_after [] rest ps = refl
  find_after (dir ∷ before) rest (p, ps) = elim (cases_of dir (before ++ rest)) [
    | passed p' e ↦ e ∙ find_after before rest ps
    | thrown u e ↦ absurd (p.1 u)
    | owned o e ↦ absurd (p.0 o)
  ]

  at_owner :
      (dir : Entry) (dirs : List Entry)
      → IsOwner inode dir
      → find_pid_by_sock_inode inode (dir ∷ dirs) ≡ parsed (stoi dir.name)
  at_owner dir dirs o = elim (cases_of dir dirs) [
    | passed p e ↦ absurd (p.0 o)
    | thrown u e ↦ cc (o.listed, u.closed)
    | owned o' e ↦ e
  ]

  at_unreadable :
      (dir : Entry) (dirs : List Entry)
      → IsUnreadable dir
      → find_pid_by_sock_inode inode (dir ∷ dirs) ≡ none
  at_unreadable dir dirs u = elim (cases_of dir dirs) [
    | passed p e ↦ absurd (p.1 u)
    | thrown u' e ↦ e
    | owned o e ↦ cc (o.listed, u.closed)
  ]

  pub found_at :
      {dirs : List Entry} {pid : ℕ}
      → Finds inode dirs pid
      → find_pid_by_sock_inode inode dirs ≡ some (pos pid)
  found_at f =
      ap (find_pid_by_sock_inode inode) f.split
      ∙ find_after f.before _ f.passed_by
      ∙ at_owner f.dir f.behind f.holds.0
      ∙ ap parsed f.holds.1

  pub none_at : {dirs : List Entry} → Throws inode dirs → find_pid_by_sock_inode inode dirs ≡ none
  none_at f =
      ap (find_pid_by_sock_inode inode) f.split
      ∙ find_after f.before _ f.passed_by
      ∙ (elim f.holds [
        | inl u ↦ at_unreadable f.dir f.behind u
        | inr (o, h) ↦ at_owner f.dir f.behind o ∙ ap parsed h
      ])

  pub find_none : find_pid_by_sock_inode inode [] ≡ some minus_one
  unfolding find_pid_by_sock_inode
  find_none = refl

  pub misses_all :
      (dirs : List Entry)
      → All (IsPassed inode) dirs
      → find_pid_by_sock_inode inode dirs ≡ some minus_one
  misses_all [] ps = find_none
  misses_all (dir ∷ dirs) (p, ps) = elim (cases_of dir dirs) [
    | passed p' e ↦ e ∙ misses_all dirs ps
    | thrown u e ↦ absurd (p.1 u)
    | owned o e ↦ absurd (p.0 o)
  ]
