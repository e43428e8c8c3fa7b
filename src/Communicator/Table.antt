-- ===== src/Communicator/Table.antt =====
-- The table of the servers' addresses.
use mmocraft.Prelude.{
  ℕ, zero, suc, ◌<◌, ◌≡◌, refl, sym, ◌≢◌, true, some, arith, ltb, length, get_elem?, set, replicate,
  length-set, get_elem?-set_self, get_elem?-set_ne,
}
use mmocraft.Communicator.ServerType
use mmocraft.Communicator.{
  IpAddress, no_address, new_communicator, ServerCommunicator, get_server, register_server,
}

-- Registering a server of the table sets its entry and no other.
pub register_server_lem :
    (c : ServerCommunicator) (t : ℕ) (a : IpAddress)
    → t < length c.servers
    → (next : ServerCommunicator) × (register_server c t a ≡ some next)
      × (get_server next t ≡ some a)
      × ((u : ℕ) → u ≢ t → get_server next u ≡ get_server c u)
      × (length next.servers ≡ length c.servers)
unfolding register_server get_server
register_server_lem c t a h =
    let inside : ltb t (length c.servers) ≡ true = ground arith in
    rw (inside) (
      record c { servers = set c.servers t a },
      refl,
      get_elem?-set_self c.servers t a h,
      λ u ne. get_elem?-set_ne c.servers t u a (λ e. ne (sym e)),
      length-set c.servers t a,
    )

get_elem?-replicate : {A : Type 0} (n i : ℕ) (a : A) → i < n → get_elem? (replicate n a) i ≡ some a
get_elem?-replicate zero i a h = absurd (omega arith)
get_elem?-replicate (suc n) zero a h = refl
get_elem?-replicate (suc n) (suc i) a h = get_elem?-replicate n i a (omega arith)

-- A new table has no address for any server.
pub get_server-new_communicator :
    (t : ℕ) → t < ServerType.total_count → get_server new_communicator t ≡ some no_address
unfolding get_server
get_server-new_communicator t h = get_elem?-replicate ServerType.total_count t no_address h
