-- ===== src/LocalService/Runs.antt =====
-- The addresses of a host on concrete values.
use btcdemo.Prelude.{ℕ, ◌%◌, ◌^◌, ◌≡◌, [], ◌∷◌}
use btcdemo.NetAddr.{NetAddr, new}
use btcdemo.LocalService.{LocalService, get_local_addr, IsIn, IsBest, get_local_addr_lem}

abbrev ipv4 : ℕ → NetAddr
ipv4 last = record {
  ip = 0 ∷ 0 ∷ 0 ∷ 0 ∷ 0 ∷ 0 ∷ 0 ∷ 0 ∷ 0 ∷ 0 ∷ 255 ∷ 255 ∷ 8 ∷ 8 ∷ 8 ∷ last ∷ [];
  port = 8333;
  scope_id = 0;
  services = 0;
  timestamp = 0;
}

abbrev host : LocalService
host = record { service = 1029; local_addrs = ipv4 4 ∷ ipv4 8 ∷ [] }

get_local_addr_lem_example :
    (addr : NetAddr) × IsIn addr host.local_addrs
    × IsBest (ipv4 1) addr host.local_addrs
    × (get_local_addr (ipv4 1) 9 1600000000 new host
        ≡ record addr { services = 9; timestamp = 1600000000 % 2 ^ 32 })
get_local_addr_lem_example = get_local_addr_lem (ipv4 1) 9 1600000000 new host (λ e. cc e)
