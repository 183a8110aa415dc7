-- ===== src/Orchestrate.antt =====
-- openvtld/internal/orchestrate: the LIO target of every FC port. What targetcli, configfs, sysfs and
-- systemd do is a parameter, a `Plant`; the commands that are issued are recorded.
pub mod Luns
pub mod Access
pub mod Targets
pub mod Repair
pub mod Additive
pub mod Apply
use open_vtl.Prelude.Text.{ascii, lower, starts_with}
use open_vtl.Prelude.Words.{trim_prefix}
use open_vtl.Prelude.{
  ℕ, String, Bool, true, false, Option, none, some, List, [], ◌∷◌, ◌++◌, map, ◌==◌, if◌then◌else◌,
}
use open_vtl.Exec.{Result, ok, err, Exec, ◌>>=◌, ◌>>◌, pure}
use open_vtl.Store.{Env, SqlError, Server}
use open_vtl.Inventory.{SgDevice}

-- naaToColons: "naa.2100…" to "21:00:…"; an odd last digit is dropped.
colon_pairs : List ℕ → List ℕ
colon_pairs [] = []
colon_pairs (a ∷ []) = []
colon_pairs (a ∷ b ∷ []) = a ∷ b ∷ []
colon_pairs (a ∷ b ∷ c ∷ []) = a ∷ b ∷ []
colon_pairs (a ∷ b ∷ c ∷ d ∷ rest) = a ∷ b ∷ b':' ∷ colon_pairs (c ∷ d ∷ rest)

unfoldable pub naa_to_colons : List ℕ → List ℕ
unfolding colon_pairs lower trim_prefix
naa_to_colons naa = colon_pairs (map lower (trim_prefix (ascii "naa.") naa))

drop_colons : List ℕ → List ℕ
drop_colons [] = []
drop_colons (c ∷ cs) = let rest = drop_colons cs in if c == b':' then rest else c ∷ rest

unfoldable pub colons_to_naa : List ℕ → List ℕ
unfolding drop_colons lower
colons_to_naa c = ascii "naa." ++ drop_colons (map lower c)

-- The calls of targetcli; ports and initiators by their naa form.
pub data Command : Type 0 where
  set_global clear_config save_config : Command
  -- /backstores/pscsi create name= dev=
  create_backstore : List ℕ → List ℕ → Command
  create_target set_attributes delete_target : List ℕ → Command
  -- /qla2xxx/<port>/luns create <backstore> lun=
  create_lun : List ℕ → List ℕ → ℕ → Command
  create_acl delete_acl : List ℕ → List ℕ → Command
  create_mapped : List ℕ → List ℕ → ℕ → Command

-- An instance of vtllibrary@ or vtltape@.
pub data Daemon : Type 0 where
  library_daemon tape_daemon : ℕ → Daemon

-- A port of the class fc_host.
pub record PortState : Type 0 where
  pub host : List ℕ
  pub wwpn : List ℕ
  pub state : List ℕ
  pub speed : List ℕ

-- What a rebuild goes on without: a port, or the saved configuration.
pub data FailedPart : Type 0 where
  port_failed : List ℕ → FailedPart
  save_failed : FailedPart

-- Why an operation stopped, for the text of its error.
pub data Fault : Type 0 where
  sql_fault : SqlError → Fault
  command_failed : Command → Fault
  -- a drive of a served library is not discovered: the library and the drive's index
  half_library : ℕ → ℕ → Fault
  no_discovery no_live_library nothing_to_build cancelled : Fault
  rebuilt_with : List FailedPart → Fault

module _ (env : Env) where
  open env use {World}

  -- What the machine answers. A read leaves the world alone; a command and a wait may change it.
  pub record Plant : Type 0 where
    -- the ports of the class fc_host, by host name
    pub host_ports : World → List PortState
    -- whether the command failed
    pub targetcli : Command → World → Bool × World
    -- lsscsi and sg_vpd, as DiscoverSG reads them
    pub discover : World → Option (List SgDevice)
    -- whether qla2xxx/<port> and its tpgt_1 are in configfs, by the port's colon form
    pub target_exists : List ℕ → World → Bool
    pub tpg_exists : List ℕ → World → Bool
    -- a tpg's table of LUN and device, unless it cannot be read
    pub lun_table : List ℕ → World → Option (List (ℕ × List ℕ))
    -- the directory of one ACL of a port, both by colon form: its mapped LUNs, in no order
    pub acl_at : List ℕ → List ℕ → World → Option (List ℕ)
    -- device and name of every live pscsi backstore
    pub backstores : World → List (List ℕ × List ℕ)
    -- the start times that systemctl shows for the units, and the file of the built epoch
    pub start_times : List Daemon → World → Option (List ℕ)
    pub built_epoch : World → Option (List ℕ)
    pub write_epoch : List ℕ → World → World
    -- whether a file is in /lib/firmware
    pub firmware_file : String → World → Bool
    -- two seconds, or the end of the context
    pub wait : World → Bool × World

  -- The daemon's server, and the commands in the order in which they were issued.
  pub record Machine : Type 0 where
    pub server : Server env
    pub issued : List Command

  abbrev pub move_world : World → Machine → Machine
  move_world w m = let server = m.server in record m { server = record server { world = w } }

  unfoldable pub look : {E A : Type 0} → (World → A) → Exec Machine E A
  look f m = (ok (f m.server.world), m)

  abbrev pub put_back :
      {A : Type 0} → Machine → Result SqlError A × Server env → Result Fault A × Machine
  put_back m (ok a, s) = (ok a, record m { server = s })
  put_back m (err e, s) = (err (sql_fault e), record m { server = s })

  -- A call of the store.
  unfoldable pub on_db : {A : Type 0} → Exec (Server env) SqlError A → Exec Machine Fault A
  on_db f m = put_back m (f m.server)

  abbrev pub put_value : {E A : Type 0} → Machine → Result ⊥ A × Server env → Result E A × Machine
  put_value m (ok a, s) = (ok a, record m { server = s })
  put_value m (err e, s) = absurd e

  -- A call of the store that gives no error.
  unfoldable pub on_server : {E A : Type 0} → Exec (Server env) ⊥ A → Exec Machine E A
  on_server f m = put_value m (f m.server)

  unfoldable pub each :
      {E A : Type 0} → (A → Exec Machine E (Unit {0})) → List A → Exec Machine E (Unit {0})
  each f [] = pure tt
  each f (x ∷ xs) = f x >> each f xs

  module _ (plant : Plant) where
    abbrev pub answered : Command → Machine → Bool × World → Result Fault (Unit {0}) × Machine
    answered c m (true, w) =
        let server = m.server in
        (
          err (command_failed c),
          record { server = record server { world = w }; issued = m.issued ++ c ∷ [] },
        )
    answered c m (false, w) =
        let server = m.server in
        (ok tt, record { server = record server { world = w }; issued = m.issued ++ c ∷ [] })

    unfoldable pub tc : Command → Exec Machine Fault (Unit {0})
    tc c m = answered c m (plant.targetcli c m.server.world)
