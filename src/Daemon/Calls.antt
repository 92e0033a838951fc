-- ===== src/Daemon/Calls.antt =====
-- The calls of PortToPidMap that the daemon makes over time.
use hut_karish.Prelude.{
  ℕ, ◌≡◌, refl, List, [], ◌∷◌, ◌++◌, Option, some, ◌>>=◌, Option-cases, inl, inr,
}
use hut_karish.Scan.Ports.{PortMap, Proc}
use hut_karish.Daemon.PortToPidMap.{port_to_pid_map, add_pid_mapping}

-- A call of addPidMapping, with what /proc holds at that time.
pub record Call : Type 0 where
  pub proc : Proc
  pub port : ℕ
  pub protocol : ℕ

-- The map of the daemon after calls of addPidMapping.
unfoldable pub map_after : List Call → PortMap → Option PortMap
map_after [] m = some m
map_after (c ∷ cs) m = add_pid_mapping c.proc c.port c.protocol m >>= λ r. map_after cs r.1

-- From the start of the daemon on.
unfoldable pub map_since : Proc → List Call → Option PortMap
map_since proc calls = port_to_pid_map proc >>= map_after calls

pub map_after-append :
    (cs : List Call) (c : Call) (m : PortMap)
    → map_after (cs ++ c ∷ []) m
      ≡ (map_after cs m >>= λ m'. add_pid_mapping c.proc c.port c.protocol m' >>= λ r. some r.1)
unfolding map_after
map_after-append [] c m = refl
map_after-append (b ∷ cs) c m = elim (Option-cases (add_pid_mapping b.proc b.port b.protocol m)) [
  | inl e ↦ rw e refl
  | inr (r, e) ↦ rw e (map_after-append cs c r.1)
]
