-- ===== src/Orchestrate/Apply.antt =====
-- openvtld/internal/orchestrate/apply.go: the restart of mhVTL in a maintenance window. The engine and
-- the commands of systemd and the shell are a parameter, a `Shell`; what is done is recorded.
pub mod Extended
pub mod Ordered
pub mod Polled
use open_vtl.Prelude.Text.{ascii, bytes_eq, starts_with}
use open_vtl.Prelude.Words.{holds_text}
use open_vtl.Prelude.{
  ℕ, zero, suc, ◌+◌, String, str_eq, Bool, true, false, not, ◌&&◌, ◌||◌, Option, none, some, List,
  [], ◌∷◌, ◌++◌, ltb, if◌then◌else◌,
}
use open_vtl.Exec.{Result, ok, err, Exec, ◌>>=◌, ◌>>◌, pure, exit, observe}
use open_vtl.Store.{Env, Server}
use open_vtl.Inventory.{MhvtlDrive, MhvtlLibrary, SgDevice, serial_matches}
use open_vtl.Inventory.Snapshot.{Drive, LibrarySnapshot}
use open_vtl.Orchestrate.{Daemon, Fault, Plant, Machine, move_world}
use open_vtl.Orchestrate.Targets.{units, serving_ports}
use open_vtl.Orchestrate.Repair.{Ensured, ensure, is_empty}

pub data Act : Type 0 where
  -- RewriteLibraryContents of a library
  rewrite_contents : ℕ → Act
  stop_mhvtl kill_tapes kill_libraries clear_locks remove_queue daemon_reload start_mhvtl : Act
  reload_engine : Act

pub data Stop : Type 0 where
  -- the library and the drive that holds a cartridge or is not idle
  drive_busy : ℕ → ℕ → Stop
  act_failed : Act → Stop
  conf_unreadable daemons_inactive context_done : Stop
  unregistered : List (List ℕ) → Stop
  fabric_fault : Fault → Stop
  fabric_unverified : Ensured → Stop

pub data Outcome : Type 0 where
  not_reached : Outcome
  -- no serving port; whether there is no FC hardware
  skipped : Bool → Outcome
  ensured : Ensured → Outcome

-- A loaded drive, or one that is not idle.
abbrev pub is_busy : Drive → Bool
is_busy d = not (bytes_eq d.loaded []) || not (str_eq d.activity "idle")

abbrev pub or_else {ℓ} : {A : Type ℓ} → Option A → Option A → Option A
or_else (some a) other = some a
or_else none other = other

unfoldable pub busy_drive : ℕ → List Drive → Option Stop
busy_drive lib [] = none
busy_drive lib (d ∷ ds) = if is_busy d then some (drive_busy lib d.index) else busy_drive lib ds

unfoldable pub busy_library : List LibrarySnapshot → Option Stop
unfolding busy_drive
busy_library [] = none
busy_library (l ∷ ls) = or_else (busy_drive l.library.id l.drives) (busy_library ls)

-- strings.Contains
unfoldable pub contains : List ℕ → List ℕ → Bool
contains [] part = bytes_eq part []
contains (c ∷ cs) part = starts_with part (c ∷ cs) || contains cs part

unfoldable pub all_active : List ℕ → Bool
unfolding contains starts_with
all_active out =
    not (contains out (ascii "inactive"))
    && not (contains out (ascii "failed"))
    && not (bytes_eq out [])

drive_serials : List MhvtlDrive → List (List ℕ)
drive_serials [] = []
drive_serials (d ∷ ds) = d.serial ∷ drive_serials ds

unfoldable pub wanted_serials : List MhvtlLibrary → List (List ℕ)
unfolding drive_serials
wanted_serials [] = []
wanted_serials (l ∷ ls) = l.serial ∷ drive_serials l.drives ++ wanted_serials ls

unfoldable pub answers : List SgDevice → List ℕ → Bool
answers [] serial = false
answers (d ∷ ds) serial = serial_matches d.serial serial || answers ds serial

unfoldable pub missing_serials : List SgDevice → List (List ℕ) → List (List ℕ)
unfolding answers
missing_serials devs [] = []
missing_serials devs (s ∷ ss) =
    let rest = missing_serials devs ss in if answers devs s then rest else s ∷ rest

abbrev pub devices : Option (List SgDevice) → List SgDevice
devices none = []
devices (some devs) = devs

-- How a loop that waits ends.
pub data End : Type 0 where
  ready expired context_ended out_of_rounds : End

module _ (env : Env) where
  open env use {World, time_now}

  -- The engine's operations, the commands, and the two reads between them.
  pub record Shell : Type 0 where
    pub snapshot : World → List LibrarySnapshot
    -- whether the act failed
    pub perform : Act → World → Bool × World
    pub parse_conf : World → Option (List MhvtlLibrary)
    -- the output of systemctl is-active
    pub is_active : List Daemon → World → List ℕ

  pub record Window : Type 0 where
    pub machine : Machine env
    -- in order, each with whether it failed
    pub acts : List (Act × Bool)
    pub fc : Outcome

  abbrev pub world_of : Window → World
  world_of s = let m = s.machine in let server = m.server in server.world

  abbrev pub at_world : World → Window → Window
  at_world w s = record s { machine = move_world env w s.machine }

  module _ {A : Type 0} where
    abbrev pub after_pause : A → (World → (A × End) × World) → Bool × World → (A × End) × World
    after_pause found again (true, w) = ((found, context_ended), w)
    after_pause found again (false, w) = again w

    abbrev pub unless_late :
        A → ℕ → (World → Bool × World) → (World → (A × End) × World) → ℕ × World → (A × End) × World
    unless_late found deadline wait again (t, w) =
        if ltb deadline t then ((found, expired), w) else after_pause found again (wait w)

    -- Asked again after each pause, until it is enough, the deadline has passed or the context ends.
    unfoldable pub poll :
        (World → A) → (A → Bool) → (World → Bool × World) → ℕ → ℕ → World → (A × End) × World
    poll ask enough wait deadline zero w = ((ask w, out_of_rounds), w)
    poll ask enough wait deadline (suc rounds) w =
        let again = poll ask enough wait deadline rounds in
        if enough (ask w)
        then ((ask w, ready), w)
        else unless_late (ask w) deadline wait again (time_now w)

  module _ (plant : Plant env) where
    -- 45 seconds by polls two seconds apart.
    abbrev pub poll_rounds : ℕ
    poll_rounds = 24

    abbrev pub poll_for : ℕ
    poll_for = 45000000000

    abbrev pub start_poll : {A : Type 0} → (World → A) → (A → Bool) → ℕ × World → (A × End) × World
    start_poll ask enough (t, w) = poll ask enough plant.wait (t + poll_for) poll_rounds w

    unfoldable pub poll_45s : {A : Type 0} → (World → A) → (A → Bool) → World → (A × End) × World
    unfolding poll
    poll_45s ask enough w = start_poll ask enough (time_now w)

  module _ (plant : Plant env) (shell : Shell) where
    abbrev pub Do : Type 0 → Type 0
    Do A = Exec Window Stop A

    abbrev pub acted : Act → Window → Bool × World → Result Stop (Unit {0}) × Window
    acted a s (true, w) =
        (err (act_failed a), at_world w (record s { acts = s.acts ++ (a, true) ∷ [] }))
    acted a s (false, w) = (ok tt, at_world w (record s { acts = s.acts ++ (a, false) ∷ [] }))

    unfoldable pub act : Act → Do (Unit {0})
    act a s = acted a s (shell.perform a (world_of s))

    -- A call of the fabric's operations.
    abbrev pub placed :
        {A : Type 0} → Window → Result Fault A × Machine env → Result Stop A × Window
    placed s (ok a, m) = (ok a, record s { machine = m })
    placed s (err f, m) = (err (fabric_fault f), record s { machine = m })

    unfoldable pub on_fabric : {A : Type 0} → Exec (Machine env) Fault A → Do A
    on_fabric f s = placed s (f s.machine)

    unfoldable pub set_fc : Outcome → Do (Unit {0})
    set_fc o s = (ok tt, record s { fc = o })

    abbrev pub stop_if : Option Stop → Do (Unit {0})
    stop_if none = pure tt
    stop_if (some f) = exit f

    unfoldable pub rewrite_live : List LibrarySnapshot → Do (Unit {0})
    rewrite_live [] = pure tt
    rewrite_live (l ∷ ls) =
        let rest = rewrite_live ls in
        if l.library.live then act (rewrite_contents l.library.id) >> rest else rest

    -- Steps 3 and 4: what is allowed to fail is observed.
    unfoldable pub restart : Do (Unit {0})
    restart = do
      act stop_mhvtl
      observe (act kill_tapes)
      observe (act kill_libraries)
      act clear_locks
      observe (act remove_queue)
      act daemon_reload
      act start_mhvtl

    abbrev pub states_seen : Window → (List ℕ × End) × World → Result Stop (Unit {0}) × Window
    states_seen s ((out, ready), w) = (ok tt, at_world w s)
    states_seen s ((out, expired), w) = (err daemons_inactive, at_world w s)
    states_seen s ((out, context_ended), w) = (err context_done, at_world w s)
    states_seen s ((out, out_of_rounds), w) = (err daemons_inactive, at_world w s)

    unfoldable pub await_daemons : List MhvtlLibrary → Do (Unit {0})
    unfolding poll_45s all_active
    await_daemons libs s =
        states_seen s (poll_45s plant (shell.is_active (units libs)) all_active (world_of s))

    abbrev pub serials_seen :
        Window → (List (List ℕ) × End) × World → Result Stop (Unit {0}) × Window
    serials_seen s (([], end), w) = (ok tt, at_world w s)
    serials_seen s ((m ∷ ms, end), w) = (err (unregistered (m ∷ ms)), at_world w s)

    -- WaitDiscovery, and the error for what it still misses.
    unfoldable pub await_devices : List MhvtlLibrary → Do (Unit {0})
    unfolding poll_45s missing_serials wanted_serials
    await_devices libs s = serials_seen s (
        poll_45s plant (λ w. missing_serials (devices (plant.discover w)) (wanted_serials libs))
          is_empty (world_of s))

    unfoldable pub settle : List MhvtlLibrary → Do (Unit {0})
    unfolding await_daemons await_devices
    settle libs =
        if is_empty (units libs) then pure tt else (do await_daemons libs; await_devices libs)

    abbrev pub conf_or_stop : Option (List MhvtlLibrary) → Result Stop (List MhvtlLibrary)
    conf_or_stop none = err conf_unreadable
    conf_or_stop (some libs) = ok libs

    unfoldable pub read_conf : Do (List MhvtlLibrary)
    read_conf s = (conf_or_stop (shell.parse_conf (world_of s)), s)

    -- The result is kept before it is judged.
    unfoldable pub concluding : Ensured → Do (Unit {0})
    concluding r = do set_fc (ensured r); if r.is_ok then pure tt else exit (fabric_unverified r)

    unfoldable pub present : List MhvtlLibrary → Do (Unit {0})
    unfolding concluding
    present libs = do
      ports ← on_fabric (serving_ports env plant)
      if is_empty ports
          then (λ s. set_fc (skipped (is_empty (plant.host_ports (world_of s)))) s)
          else (do r ← on_fabric (ensure env plant libs); concluding r)

    unfoldable pub apply_libraries : Do (Unit {0})
    unfolding busy_library rewrite_live restart settle read_conf present
    apply_libraries = do
      libs ← (λ s. (ok (shell.snapshot (world_of s)), s))
      stop_if (busy_library libs)
      rewrite_live libs
      restart
      declared ← read_conf
      settle declared
      act reload_engine
      present declared
