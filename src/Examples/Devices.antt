-- ===== src/Examples/Devices.antt =====
-- A computer without adb.
use iriseus.Prelude.{
  ◌≡◌, refl, Bytes, Option, none, some, codes, ◌==◌, bytes_eq, if◌then◌else◌, arith,
}
use iriseus.Prelude.Assoc.{lookup, insert, lookup-insert}
use iriseus.Adb.Extract.{ResourceLib}
use iriseus.Examples.Libraries.{Table, in_use}

abbrev copy_to : Table → Bytes → Bytes → Option Table
copy_to d r p = if in_use d p then none else some (insert p r d)

copy_lem :
    (d e : Table) (r p q : Bytes)
    → copy_to d r p ≡ some e
    → lookup q e ≡ (if p == q then some r else lookup q d)
copy_lem d e r p q h =
    let k : insert p r d ≡ e = ground (arith, h) in rw (← k) (lookup-insert p q r d)

abbrev resources : ResourceLib
resources = record {
  Disk = Table;
  contents = λ d p. lookup p d;
  resource = λ r. r;
  mkpath = λ d p. d;
  copy = copy_to;
  executable = λ d p. d;
  contents-mkpath = λ d p q. refl;
  contents-executable = λ d p q. refl;
  contents-copy = copy_lem;
}

abbrev folder : Bytes
folder = codes "adb"
