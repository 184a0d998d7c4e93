-- ===== src/Transfer/Server/Alone.antt =====
-- A connection of src/core/FileTransferServer.cpp that nobody else serves, among connections of other
-- transfers, through every run.
use iriseus.Prelude.{
  ℕ, ◌≡◌, sym, subst, ◌∙◌, inl, inr, ◌⊎◌, Bytes, Bool, true, false, Option, none, some, ◌++◌, ◌==◌,
  bytes_eq, nat_beq, nat_beq_iff, Bool-cases, All, codes, arith,
}
use iriseus.Net.{SocketLib, read_exact}
use iriseus.Transfer.Hex.{uuid, strip_dashes}
use iriseus.Transfer.Files.{HashLib, PathLib}
use iriseus.Transfer.Disk.{DiskLib, Appends}
use iriseus.Transfer.Connection.{handshake_size, id_of}
use iriseus.Transfer.Sessions.Every.{All-find_session}
use iriseus.Transfer.Server.{Shared, Server, Stage, turn, greet}
use iriseus.Transfer.Server.Steps.{
  Step, starts, looks, accepts, registers, cancels, stop_begins, stop_ends, turns, turned, turn_of,
  get_elem?,
}
use iriseus.Transfer.Server.Held.{Held}
use iriseus.Transfer.Server.Bystander.{Elsewhere, Away, greet-Away, turn-Spares}
use iriseus.Transfer.Server.AllBut.{AllBut, AllBut-get_elem?, AllBut-replace, AllBut-replace_self}
use iriseus.Transfer.Server.Owner.{Mine, turn-Mine, Mine-Held}
use iriseus.Transfer.Server.Over.{Over, Mine-cases, turn-Over, Mine-Over}
use iriseus.Transfer.Server.Cancelled.{get_elem?-replace_self, get_elem?-replace_ne}

module _ (net : SocketLib) (disks : DiskLib) (sha : HashLib) (paths : PathLib) (p : Bytes)
    (f : disks.File) (id : Bytes) (owner : Shared) where
  open net use {Sock}
  open disks use {Disk, named, inside}

  -- A client that does not present this transfer's identifier.
  unfoldable pub Foreign : Sock → Type 0
  Foreign s =
      (buf : Bytes) (s' : Sock)
      → read_exact net s handshake_size ≡ some (buf, s')
      → (strip_dashes (uuid (id_of buf)) == strip_dashes id) ≡ false

  abbrev Else : Shared → Type 0
  Else = Elsewhere net disks sha paths p f Foreign

  abbrev pub Gone : Stage net disks sha → Type 0
  Gone = Away net disks sha paths p f Foreign

  -- Every other entry of the table has another temporary file.
  unfoldable pub Entry : Bytes × Shared → Type 0
  Entry (key, k) = ((strip_dashes key == strip_dashes id) ≡ true) ⊎ Else k

  -- A step that has nothing to do with this transfer; `stop` is left out from where it removes files.
  unfoldable pub Peaceful : Step net disks sha paths → Type 0
  Peaceful (starts bound) = Unit
  Peaceful looks = Unit
  Peaceful (accepts none) = Unit
  Peaceful (accepts (some s)) = Foreign s
  Peaceful (registers other token64 token target size sha256 dir) =
      ((target ++ codes ".part") == p) ≡ false
  Peaceful (cancels other) = (strip_dashes other == strip_dashes id) ≡ false
  Peaceful stop_begins = Unit
  Peaceful stop_ends = ⊥
  Peaceful (turns i header payload) = Unit

  -- The thread `i` has the file to itself.
  pub record Alone (i : ℕ) (w : Server net disks sha) : Type 0 where
    pub stage : Stage net disks sha
    pub thread : get_elem? w.threads i ≡ some stage
    pub mine : Mine net disks sha paths p f owner stage w.disk
    pub others : Over net disks sha paths p f owner stage ⊎ AllBut Gone i w.threads
    pub table : All Entry w.table

  pub entry_else :
      (key : Bytes) (k : Shared)
      → Entry (key, k)
      → (strip_dashes key == strip_dashes id) ≡ false
      → Else k
  unfolding Entry
  entry_else key k (inl same) ne = absurd (ground (arith, same, ne))
  entry_else key k (inr e) ne = e

  greet-Gone :
      (w : Server net disks sha)
      → All Entry w.table
      → (s : Sock) → Foreign s
      → Gone (greet net disks sha (read_exact net s handshake_size) w.table)
  unfolding Foreign
  greet-Gone w m s foreign =
      greet-Away net disks sha paths p f Foreign (read_exact net s handshake_size) w.table
        (λ buf s' k e found.
          let (key, q, same) = All-find_session Entry w.table (uuid (id_of buf)) k m found in
          entry_else key k q (rw same (foreign buf s' e)))

  module _ (works : Appends disks) (i : ℕ) where
    abbrev Through : Stage net disks sha → Type 0
    Through = Over net disks sha paths p f owner

    own_turn :
        (header payload : Bool) (w : Server net disks sha) (st : Stage net disks sha)
        → get_elem? w.threads i ≡ some st
        → Mine net disks sha paths p f owner st w.disk
        → Through st ⊎ AllBut Gone i w.threads
        → All Entry w.table
        → Alone i (turned net disks sha paths i (turn net disks sha paths header payload w st) w)
    own_turn header payload w st at m others table = record {
      stage = (turn net disks sha paths header payload w st).stage;
      thread = get_elem?-replace_self w.threads i st _ at;
      mine = turn-Mine net disks sha paths p f owner works header payload w st m;
      others = elim others [
        | inl over ↦ inl (turn-Over net disks sha paths p f owner header payload w st over)
        | inr all ↦ inr (AllBut-replace_self Gone i w.threads _ all)
      ];
      table = table;
    }

    other_turn :
        (j : ℕ) (header payload : Bool) (w : Server net disks sha) (st : Stage net disks sha)
        → get_elem? w.threads j ≡ some st
        → nat_beq j i ≡ false
        → (a : Alone i w)
        → Through a.stage
          ⊎ (((body : Bytes) × Held disks p f body w.disk) × AllBut Gone i w.threads)
        → Alone i (turned net disks sha paths j (turn net disks sha paths header payload w st) w)
    other_turn j header payload w st at other a (inl over) = record {
      stage = a.stage;
      thread = get_elem?-replace_ne w.threads i j _ other ∙ a.thread;
      mine = Mine-Over net disks sha paths p f owner w.disk _ a.stage over a.mine;
      others = inl over;
      table = a.table;
    }
    other_turn j header payload w st at other a (inr ((body, h), all)) =
        let spares = λ (body : Bytes) (h : Held disks p f body w.disk).
          turn-Spares net disks sha paths p f Foreign body header payload w st
            (greet-Gone w a.table) h (AllBut-get_elem? Gone i j w.threads st all other at) in
        record {
          stage = a.stage;
          thread = get_elem?-replace_ne w.threads i j _ other ∙ a.thread;
          mine =
              Mine-Held net disks sha paths p f owner w.disk _ a.stage
                (λ body h. (spares body h).held) a.mine;
          others = inr (AllBut-replace Gone i j w.threads _ all other (spares body h).away);
          table = a.table;
        }

    known :
        (w : Server net disks sha) (a : Alone i w)
        → Through a.stage
          ⊎ (((body : Bytes) × Held disks p f body w.disk) × AllBut Gone i w.threads)
    known w a = elim (Mine-cases net disks sha paths p f owner a.stage w.disk a.mine) [
      | inl over ↦ inl over
      | inr held ↦ elim a.others [ inl over ↦ inl over | inr all ↦ inr (held, all) ]
    ]

    pub turn-Alone :
        (j : ℕ) (header payload : Bool) (o : Option (Stage net disks sha))
        (w : Server net disks sha)
        → get_elem? w.threads j ≡ o
        → Alone i w
        → Alone i (turn_of net disks sha paths j header payload o w)
    unfolding turn_of
    turn-Alone j header payload none w e a = a
    turn-Alone j header payload (some st) w e a = elim (Bool-cases (nat_beq j i)) [
      | inr other ↦ other_turn j header payload w st e other a (known w a)
      | inl same ↦
          let eq : j ≡ i = (nat_beq_iff j i).0 same in
          let at : get_elem? w.threads i ≡ some st = rw (← eq) e in
          let this : a.stage ≡ st = cc in
          subst
            (λ n.
              Alone i
                (turned net disks sha paths n (turn net disks sha paths header payload w st) w))
            (sym eq)
            (own_turn header payload w st at
              (subst (λ x. Mine net disks sha paths p f owner x w.disk) this a.mine)
              (subst (λ x. Through x ⊎ AllBut Gone i w.threads) this a.others) a.table)
    ]
