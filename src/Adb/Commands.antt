-- ===== src/Adb/Commands.antt =====
-- The command lines of src/core/AdbManager.cpp. The folder for local data comes from Windows, and
-- `to_string` is that of C++.
pub mod Arguments
use iriseus.Prelude.{ℕ, Bytes, List, [], ◌∷◌, ◌++◌, codes}

abbrev pub adb_dir : Bytes → Bytes
adb_dir local_data = local_data ++ codes "\\Iriseus\\adb"

abbrev pub adb_exe : Bytes → Bytes
adb_exe local_data = adb_dir local_data ++ codes "\\adb.exe"

-- The arguments of a command line, each behind a blank.
unfoldable pub arguments : List Bytes → Bytes
arguments [] = []
arguments (a ∷ args) = 32 ∷ (a ++ arguments args)

-- The command line of `runAdb`.
unfoldable pub command_line : Bytes → List Bytes → Bytes
unfolding arguments
command_line local_data args = 34 ∷ (adb_exe local_data ++ (34 ∷ arguments args))

-- What `startAdbServer` and `listDevices` run.
abbrev pub start_server_args : List Bytes
start_server_args = codes "start-server" ∷ []

abbrev pub devices_args : List Bytes
devices_args = codes "devices" ∷ []

module _ (to_string : ℕ → Bytes) where
  abbrev pub reverse_args : Bytes → ℕ → List Bytes
  reverse_args serial port =
      codes "-s"
      ∷ serial
      ∷ codes "reverse"
      ∷ (codes "tcp:" ++ to_string port)
      ∷ (codes "tcp:" ++ to_string port)
      ∷ []

  -- The three runs of `setupReverse`.
  unfoldable pub setup_reverse : ℕ → ℕ → ℕ → Bytes → List (List Bytes)
  setup_reverse ws_port stream_port file_port serial =
      reverse_args serial ws_port
      ∷ reverse_args serial stream_port
      ∷ reverse_args serial file_port
      ∷ []

unfoldable pub remove_reverse : Bytes → List Bytes
remove_reverse serial = codes "-s" ∷ serial ∷ codes "reverse" ∷ codes "--remove-all" ∷ []
