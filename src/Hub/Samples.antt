-- ===== src/Hub/Samples.antt =====
-- Small hubs for the tests.
use wirechat_server.Common.{String, false, [], ◌∷◌, ◌==◌, arith, eq_iff, if◌then◌else◌}
use wirechat_server.Store.Samples.{sample, never}
use wirechat_server.Hub.Types.{Ptr, new_client}
use wirechat_server.Hub.{Hub}
use wirechat_server.Hub.Members.{WellFormed}
use wirechat_server.Hub.Served.{Served}

abbrev pub names : Ptr → String
names c = if c == 1 then "ann" else "bob"

-- A hub that nobody has joined; every client is fresh.
abbrev pub new_hub : Hub
unfolding new_client
new_hub = record {
  heap = λ c. new_client (names c) (names c) 0 false;
  clients = [];
  rooms = [];
  user_clients = [];
  has_store = false;
  world = sample never [] [] [];
}

-- One client, in the room "den".
abbrev pub den_hub : Hub
den_hub = record new_hub {
  heap = λ c. if c == 1 then record (new_hub.heap c) { rooms = "den" ∷ [] } else new_hub.heap c;
  clients = 1 ∷ [];
  rooms = record { name = "den"; clients = 1 ∷ [] } ∷ [];
}

pub den_hub-WellFormed : WellFormed den_hub
unfolding new_client
den_hub-WellFormed = record {
  linked = λ c n. ground (arith, eq_iff "den" n);
  inhabited = λ n r e. ground (arith, eq_iff "den" n);
  once = λ n r e. ground (arith, eq_iff "den" n);
}

pub den_hub-Served : Served den_hub
unfolding new_client
den_hub-Served = record {
  opened = λ c e. ground arith;
  keyed = λ c. ground arith;
  inside = λ c n e. ground arith;
  users = λ u c e. ground arith;
}
