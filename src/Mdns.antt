-- ===== src/Mdns.antt =====
-- src/core/MdnsService.cpp: the address that is announced, the answers to questions, and the thread
-- from its announcement to its goodbye.
pub mod Address
pub mod Announced
use iriseus.Prelude.{
  ℕ, zero, suc, ◌/◌, ◌%◌, ◌^◌, ◌≡◌, Bytes, Bool, true, false, ◌&&◌, ◌||◌, not, nat_beq, leb, Option,
  none, some, List, [], ◌∷◌, ◌++◌, codes, if◌then◌else◌,
}

-- `ntohl` and `htonl` of the host.
pub record HostLib : Type 0 where
  pub ntohl : ℕ → ℕ
  pub htonl : ℕ → ℕ
  pub htonl-ntohl : (n : ℕ) → htonl (ntohl n) ≡ n
  pub ntohl-htonl : (n : ℕ) → ntohl (htonl n) ≡ n
  pub htonl_zero : htonl 0 ≡ 0

abbrev pub is_loopback : ℕ → Bool
is_loopback ip = nat_beq (ip / 2 ^ 24) 127

-- 10.x.x.x, 192.168.x.x and 172.16.x.x to 172.31.x.x.
abbrev pub is_local : ℕ → Bool
is_local ip =
    nat_beq (ip / 2 ^ 24) 10
    || (nat_beq (ip / 2 ^ 24) 192 && nat_beq (ip / 2 ^ 16 % 256) 168)
    || (nat_beq (ip / 2 ^ 24) 172 && leb 16 (ip / 2 ^ 16 % 256) && leb (ip / 2 ^ 16 % 256) 31)

module _ (host : HostLib) where
  open host use {ntohl, htonl}

  -- The loop over the addresses of the host, as the socket library has them.
  unfoldable pub local_ip_loop : List ℕ → ℕ → ℕ → ℕ
  local_ip_loop [] preferred fallback = if not (nat_beq preferred 0) then preferred else fallback
  local_ip_loop (s ∷ addresses) preferred fallback =
      let ip = ntohl s in
      let preferred' = if is_local ip && nat_beq preferred 0 then htonl ip else preferred in
      let fallback' = if not (is_local ip) && nat_beq fallback 0 then htonl ip else fallback in
      let skipped = local_ip_loop addresses preferred fallback in
      let taken = local_ip_loop addresses preferred' fallback' in
      if is_loopback ip then skipped else taken

  -- `none`: `getaddrinfo` failed.
  unfoldable pub get_local_ip : Option (List ℕ) → ℕ
  unfolding local_ip_loop
  get_local_ip none = 0
  get_local_ip (some addresses) = local_ip_loop addresses 0 0

pub data RecordType : Type 0 where
  ptr_type srv_type txt_type a_type other_type : RecordType

-- `srv` has the host's name, the port, the priority and the weight.
pub data RecordData : Type 0 where
  ptr : Bytes → RecordData
  srv : Bytes → ℕ → ℕ → ℕ → RecordData
  txt : Bytes → Bytes → RecordData
  a : ℕ → RecordData

pub record Record : Type 0 where
  pub name : Bytes
  pub value : RecordData
  pub ttl : ℕ

-- What is sent to all, an answer with its additional records.
pub data Sent : Type 0 where
  announces answers goodbyes : Record → List Record → Sent

abbrev pub service_type : Bytes
service_type = codes "_iriseus._tcp.local."

pub record ServiceContext : Type 0 where
  pub service_inst : Bytes
  pub hostname : Bytes
  pub txt_record : Bytes
  pub port : ℕ
  pub local_ip : ℕ

-- `entry` tells whether the entry is a question, `rtype` what it asks for.
unfoldable pub mdns_callback : ServiceContext → Bool → RecordType → List Sent
mdns_callback c false asked = []
mdns_callback c true ptr_type =
    answers (record { name = service_type; value = ptr c.service_inst; ttl = 120 })
      (record { name = c.service_inst; value = srv c.hostname c.port 0 0; ttl = 120 }
        ∷ record { name = c.service_inst; value = txt (codes "version") (codes "1"); ttl = 120 }
        ∷ record { name = c.hostname; value = a c.local_ip; ttl = 120 }
        ∷ [])
    ∷ []
mdns_callback c true srv_type =
    answers (record { name = c.service_inst; value = srv c.hostname c.port 0 0; ttl = 120 }) [] ∷ []
mdns_callback c true a_type =
    answers (record { name = c.hostname; value = a c.local_ip; ttl = 120 }) [] ∷ []
mdns_callback c true other = []

-- `listen` calls back for each entry of what came.
unfoldable pub listen : ServiceContext → List (Bool × RecordType) → List Sent
unfolding mdns_callback
listen c [] = []
listen c ((entry, rtype) ∷ es) = mdns_callback c entry rtype ++ listen c es

-- The rounds of the loop while the service runs: `none` when `select` has nothing.
unfoldable pub poll : ServiceContext → List (Option (List (Bool × RecordType))) → List Sent
unfolding listen
poll c [] = []
poll c (none ∷ rounds) = poll c rounds
poll c (some es ∷ rounds) = listen c es ++ poll c rounds

-- The context that the answers are made from.
abbrev pub context : Bytes → ℕ → ℕ → ServiceContext
context device_name ws_port local_ip = record {
  service_inst = device_name ++ (codes "." ++ service_type);
  hostname = device_name ++ codes ".local.";
  txt_record = codes "version=1";
  port = ws_port;
  local_ip = local_ip;
}

-- The records of the announcement, and of the goodbye, by their `ttl`.
abbrev pub own_ptr : ServiceContext → ℕ → Record
own_ptr c n = record { name = service_type; value = ptr c.service_inst; ttl = n }

abbrev pub own_additional : ServiceContext → ℕ → List Record
own_additional c n =
    record { name = c.service_inst; value = srv c.hostname c.port 0 0; ttl = n }
    ∷ record { name = c.service_inst; value = txt (codes "version") (codes "1"); ttl = n }
    ∷ record { name = c.hostname; value = a c.local_ip; ttl = n }
    ∷ []

-- `runLoop`: `opens` tells whether the socket could be opened.
unfoldable pub run_loop :
    HostLib
    → Bytes
    → ℕ
    → Option (List ℕ)
    → Bool
    → List (Option (List (Bool × RecordType)))
    → List Sent
unfolding get_local_ip poll
run_loop host device_name ws_port addresses opens rounds =
    let ip = get_local_ip host addresses in
    let c = context device_name ws_port ip in
    if nat_beq ip 0
    then []
    else if not opens
    then []
    else announces (own_ptr c 120) (own_additional c 120) ∷ poll c rounds
      ++ goodbyes (own_ptr c 0) (own_additional c 0) ∷ []
