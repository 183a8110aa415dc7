-- ===== src/Store.antt =====
-- openvtld/internal/store: the database of the daemon and its tables of users, sessions, API keys and
-- jobs. The SQL engine, the clock and the cryptography are parameters: an `Env`.
pub mod Users
pub mod Sessions
pub mod ApiKeys
pub mod Jobs
pub mod Acls
pub mod View
pub mod Kept
pub mod Snapshot
use open_vtl.Prelude.{ℕ, ◌/◌, String, Bool, true, false, Option, none, some, List, [], ◌++◌, ◌∷◌, ℤ}
use open_vtl.Exec.{Result, ok, err, Exec, ◌>>=◌, pure}

-- What the code calls and does not implement. Each call may change the world.
pub record Env : Type 1 where
  pub World : Type 0
  -- whether the next statement fails in the engine (I/O, a locked database, a cancelled context)
  pub engine_error : World → Bool × World
  -- time.Now(), in nanoseconds since 1970
  pub time_now : World → ℕ × World
  -- auth.NewToken's random bytes in base64, if the generator gives them
  pub random_token : World → Option (List ℕ) × World
  -- auth.HashToken: SHA-256 in hexadecimal
  pub hash_token : List ℕ → String
  -- auth.HashPassword and auth.VerifyPassword: argon2id with a random salt
  pub hash_password : List ℕ → World → Option String × World
  pub verify_password : List ℕ → String → Bool

-- The errors that the callers tell apart: ErrNotFound, a UNIQUE constraint, any other.
pub data SqlError : Type 0 where
  engine not_found constraint : SqlError

-- A time in a column is a number of seconds, for its RFC 3339 text.
pub record User : Type 0 where
  pub id : ℤ
  pub username : List ℕ
  pub password_hash : String
  pub role : String
  pub disabled : Bool
  pub created_at : ℕ

pub record Session : Type 0 where
  pub token_hash : String
  pub user_id : ℤ
  pub created_at : ℕ
  pub expires_at : ℕ
  pub last_seen : ℕ
  pub remote_addr : List ℕ

pub record ApiKey : Type 0 where
  pub id : ℕ
  pub name : List ℕ
  pub role : String
  pub token_hash : String
  pub created_by : List ℕ
  pub created_at : ℕ
  pub last_used_at : Option ℕ

pub record AuditEntry : Type 0 where
  pub ts : ℕ
  pub actor : List ℕ
  pub remote_addr : List ℕ
  pub action : String
  pub subject : List ℕ

-- COALESCE turns a NULL text into an empty one.
pub record Job : Type 0 where
  pub id : ℕ
  pub kind : String
  pub cart_label : String
  pub remote_id : Option ℕ
  pub generation : String
  pub state : String
  pub trigger : String
  pub bytes_total : ℕ
  pub bytes_done : ℕ
  pub chunks_total : ℕ
  pub chunks_done : ℕ
  pub error : String
  pub created_at : ℕ
  pub updated_at : ℕ
  pub finished_at : Option ℕ
  pub system_name : String
  pub target_library : Option ℕ

pub record JobEvent : Type 0 where
  pub id : ℕ
  pub job_id : ℕ
  pub ts : ℕ
  pub from_state : String
  pub to_state : String
  pub detail : String

pub record ExportChunk : Type 0 where
  pub job_id : ℕ
  pub idx : ℕ
  pub s3_key : String
  pub raw_bytes : ℕ
  pub stored_bytes : ℕ
  pub sha256 : String
  pub uploaded_at : Option ℕ

-- A row of initiator_acl; the two scopes are texts: '' for all, '-' for none, or a list by commas.
pub record InitiatorAcl : Type 0 where
  pub wwpn : List ℕ
  pub alias : List ℕ
  pub fabric : String
  pub ports : List ℕ
  pub libraries : List ℕ
  pub created_at : ℕ

pub record SettingRow : Type 0 where
  pub key : String
  pub value : List ℕ

-- The tables; `next_user`, `next_key`, `next_job` and `next_event` are the AUTOINCREMENT counters.
-- The settings table is `settings`, but for the row that the middleware reads, `api_keys_enabled`.
pub record Tables : Type 0 where
  pub users : List User
  pub next_user : ℕ
  pub sessions : List Session
  pub api_keys : List ApiKey
  pub next_key : ℕ
  pub api_keys_enabled : Option String
  pub audit_log : List AuditEntry
  pub jobs : List Job
  pub next_job : ℕ
  pub job_events : List JobEvent
  pub next_event : ℕ
  pub export_chunks : List ExportChunk
  pub initiator_acl : List InitiatorAcl
  pub settings : List SettingRow

module _ (env : Env) where
  open env use {World, engine_error, time_now}

  -- The daemon between two statements: its database, its `setupDone` flag and the world.
  pub record Server : Type 0 where
    pub db : Tables
    pub setup_done : Bool
    pub world : World

  -- A query or a change of the database, which the engine carries out as a whole or not at all.
  abbrev pub Statement : Type 0 → Type 0
  Statement A = Tables → Result SqlError A × Tables

  abbrev pub carry_out :
      {A : Type 0} → Statement A → Server → Bool × World → Result SqlError A × Server
  carry_out q s (true, w) = (err engine, record s { world = w })
  carry_out q s (false, w) = let (r, db) = q s.db in (r, record s { db = db; world = w })

  unfoldable pub sql : {A : Type 0} → Statement A → Exec Server SqlError A
  sql q s = carry_out q s (engine_error s.world)

  unfoldable pub query : {A : Type 0} → (Tables → A) → Exec Server SqlError A
  query f = sql (λ db. (ok (f db), db))

  unfoldable pub clock : {E : Type 0} → Exec Server E ℕ
  clock s = let (t, w) = time_now s.world in (ok t, record s { world = w })

  -- now(): the time in whole seconds.
  unfoldable pub now : {E : Type 0} → Exec Server E ℕ
  now = do t ← clock; pure (t / 1000000000)

  -- openvtld/internal/store/catalog.go, Audit.
  unfoldable pub audit_row : List ℕ → List ℕ → String → List ℕ → Exec Server SqlError (Unit {0})
  audit_row actor remote_addr action subject = do
    ts ← now
    sql (λ db.
        let entry : AuditEntry = record {
          ts = ts;
          actor = actor;
          remote_addr = remote_addr;
          action = action;
          subject = subject;
        } in
        (ok tt, record db { audit_log = db.audit_log ++ entry ∷ [] }))
