-- ===== src/Scan/Finding.antt =====
-- findPidBySockInode: what its walk over the processes gives.
use hut_karish.Prelude.{
  ℕ, ◌≡◌, ◌↔◌, refl, ap, sym, subst, ◌∙◌, List, [], ◌∷◌, Option, none, some, Option-cases, inl, inr,
  All,
}
use hut_karish.Prelude.Int.{ℤ, pos, minus_one}
use hut_karish.Scan.Numbers.{stoi}
use hut_karish.Scan.Processes.{Entry, find_pid_by_sock_inode}
use hut_karish.Scan.Owners.{
  IsOwner, IsPassed, First, Finds, Throws, parsed, passed, thrown, owned, cases_of, found_at,
  none_at, find_none, misses_all,
}

module _ (inode : List ℕ) where
  at_once :
      {P : Entry → Type 0} (dir : Entry) (dirs : List Entry) → P dir → First inode P (dir ∷ dirs)
  at_once dir dirs h = record {
    before = [];
    dir = dir;
    behind = dirs;
    split = refl;
    passed_by = tt;
    holds = h;
  }

  later_on :
      {P : Entry → Type 0} (dir : Entry) {dirs : List Entry}
      → IsPassed inode dir
      → First inode P dirs
      → First inode P (dir ∷ dirs)
  later_on dir p f = record {
    before = dir ∷ f.before;
    dir = f.dir;
    behind = f.behind;
    holds = f.holds;
    split = ap (◌∷◌ dir) f.split;
    passed_by = (p, f.passed_by);
  }

  data Walk (dirs : List Entry) (r : Option ℤ) : Type 0 where
    finds : (pid : ℕ) → Finds inode dirs pid → r ≡ some (pos pid) → Walk dirs r
    misses : All (IsPassed inode) dirs → r ≡ some minus_one → Walk dirs r
    throws : Throws inode dirs → r ≡ none → Walk dirs r

  walk_on :
      (dir : Entry) (dirs : List Entry) {r r' : Option ℤ}
      → IsPassed inode dir
      → r ≡ r'
      → Walk dirs r'
      → Walk (dir ∷ dirs) r
  walk_on dir dirs p e (finds pid f e') = finds pid (later_on dir p f) (e ∙ e')
  walk_on dir dirs p e (misses ps e') = misses (p, ps) (e ∙ e')
  walk_on dir dirs p e (throws f e') = throws (later_on dir p f) (e ∙ e')

  owner_walk :
      (dir : Entry) (dirs : List Entry) {r : Option ℤ}
      → IsOwner inode dir
      → r ≡ parsed (stoi dir.name)
      → Walk (dir ∷ dirs) r
  owner_walk dir dirs o e = elim (Option-cases (stoi dir.name)) [
    | inl h ↦ throws (at_once dir dirs (inr (o, h))) (e ∙ ap parsed h)
    | inr (pid, h) ↦ finds pid (at_once dir dirs (o, h)) (e ∙ ap parsed h)
  ]

  walk : (dirs : List Entry) → Walk dirs (find_pid_by_sock_inode inode dirs)
  walk [] = misses tt (find_none inode)
  walk (dir ∷ dirs) = elim (cases_of inode dir dirs) [
    | passed p e ↦ walk_on dir dirs p e (walk dirs)
    | thrown u e ↦ throws (at_once dir dirs (inl u)) e
    | owned o e ↦ owner_walk dir dirs o e
  ]

  -- findPidBySockInode gives a pid exactly if that is the name of the first process whose directory of
  -- descriptors has a readable link that names the inode, and those before it can be listed; it gives -1
  -- exactly if all directories of descriptors can be listed and none has such a link; and it throws
  -- exactly if the first process that has such a link, or whose directory cannot be listed, is one of
  -- the latter or has a name that is no int.
  pub find_pid_iff :
      (dirs : List Entry)
      → ((pid : ℕ) → (find_pid_by_sock_inode inode dirs ≡ some (pos pid)) ↔ Finds inode dirs pid)
        × ((find_pid_by_sock_inode inode dirs ≡ some minus_one) ↔ All (IsPassed inode) dirs)
        × ((find_pid_by_sock_inode inode dirs ≡ none) ↔ Throws inode dirs)
  find_pid_iff dirs = elim (walk dirs) [
    | finds p f e ↦ (
      λ pid. ((λ h. subst (Finds inode dirs) (same_pid (sym e ∙ h)) f), found_at inode),
      ((λ h. cc (e, h)), misses_all inode dirs),
      ((λ h. cc (e, h)), none_at inode),
    )
    | misses ps e ↦ (
      λ pid. ((λ h. cc (e, h)), found_at inode),
      ((λ h. ps), misses_all inode dirs),
      ((λ h. cc (e, h)), none_at inode),
    )
    | throws f e ↦ (
      λ pid. ((λ h. cc (e, h)), found_at inode),
      ((λ h. cc (e, h)), misses_all inode dirs),
      ((λ h. f), none_at inode),
    )
  ]
    where
      same_pid : {p pid : ℕ} → some (pos p) ≡ some (pos pid) → p ≡ pid
      same_pid h = cc
