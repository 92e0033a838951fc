-- ===== src/Kernel/Load.antt =====
-- kernel_module/sniffer.c: sniffer_init and sniffer_exit.
use hut_karish.Prelude.{◌≡◌, Bool, true, false, arith, if◌then◌else◌}
use hut_karish.Prelude.Int.{ℤ, pos, negsuc}

-- -ENOMEM
abbrev pub enomem : ℤ
enomem = negsuc 11

-- The netlink socket `nl_sk` and the registration of the hook `nfho`.
pub record Module : Type 0 where
  pub nl_sk : Bool
  pub hooked : Bool

abbrev pub unloaded : Module
unloaded = record { nl_sk = false; hooked = false }

-- `creates` and `registers` are what netlink_kernel_create and nf_register_net_hook answer. The
-- answer of the latter is not looked at.
unfoldable pub sniffer_init : Bool → Bool → ℤ × Module
sniffer_init creates registers =
    if creates then (pos 0, record { nl_sk = true; hooked = registers }) else (enomem, unloaded)

unfoldable pub sniffer_exit : Module → Module
sniffer_exit m =
    let m' = record m { hooked = false } in if m'.nl_sk then record m' { nl_sk = false } else m'

-- A module that is loaded and removed leaves no hook and no netlink socket, whatever the kernel
-- answers, and one whose loading fails with -ENOMEM has neither.
pub sniffer_exit-init :
    (creates registers : Bool)
    → (sniffer_exit (sniffer_init creates registers).1 ≡ unloaded)
      × ((sniffer_init creates registers).0 ≡ enomem
          → (sniffer_init creates registers).1 ≡ unloaded)
unfolding sniffer_init sniffer_exit
sniffer_exit-init creates registers = ground arith
