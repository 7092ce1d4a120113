-- ===== src/Programs/Hosts.antt =====
-- A host for the runs of the programs: the first of its two addresses refuses.
use ts_it.Base.{ℕ, ◌<◌, refl, true, false, some, ◌==◌, if◌then◌else◌, arith}
use ts_it.Tools.Socket.{Network, IsOpened, HasSocket, Refuses}

abbrev pub host : Network
host = record {
  addresses = some 2;
  socket = λ k. if k == 0 then some 3 else some 4;
  connect = λ k. if k == 0 then false else true;
}

host-Refuses : (j : ℕ) → j < 1 → Refuses host j
host-Refuses j l fd e = ground (arith, l)

pub host-IsOpened : IsOpened host
host-IsOpened = record {
  count = 2;
  at = 1;
  fd = 4;
  opens = record {
    resolved = refl;
    listed = omega arith;
    connects = (refl, refl);
    first = host-Refuses;
  };
}

pub host-HasSocket : HasSocket host
unfolding host-IsOpened
host-HasSocket = record { opened = host-IsOpened; nonzero = omega arith }
