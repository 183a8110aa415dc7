-- ===== src/Orchestrate/Additive.antt =====
-- The additive operations of openvtld/internal/orchestrate/fc.go: which commands of targetcli they issue.
pub mod CardinalRule
use open_vtl.Prelude.{
  ℕ, ◌+◌, ◌≡◌, refl, sym, ◌∙◌, ap, Bool, true, false, not, ◌&&◌, Option, none, some, List, [], ◌∷◌,
  ◌++◌, append-nil, append_assoc, if◌then◌else◌,
}
use open_vtl.Exec.{Result, ok, err, Exec, ◌>>=◌, ◌>>◌, pure, exit, observe}
use open_vtl.Exec.Triple.{
  Triple, Ends, triple_bind, triple_seq, triple_pure, triple_exit, triple_if, triple_observe,
}
use open_vtl.Store.{Env, Server, SqlError, InitiatorAcl}
use open_vtl.Store.Acls.{list_acls, setting, set_setting}
use open_vtl.Inventory.{MhvtlLibrary}
use open_vtl.Orchestrate.{
  Command, clear_config, delete_target, set_global, save_config, create_backstore, create_target,
  set_attributes, create_lun, create_acl, delete_acl, create_mapped, Fault, PortState, Plant,
  Machine, look, on_db, on_server, put_back, put_value, each, tc, answered,
}
use open_vtl.Orchestrate.Luns.{Binding}
use open_vtl.Orchestrate.Access.{
  equal_ints, create_with, reshape, reconcile_as, reconcile_row, reconcile_acls,
}
use open_vtl.Orchestrate.Targets.{
  Verdict, disabled_ports, serving_ports, stamp_epoch, verify_fc, daemon_epoch,
}
use open_vtl.Orchestrate.Repair.{
  create_luns, create_fc_target, given, get_expected, named, name_of, reuse_backstores, ensure_port,
  stamp_if_unbuilt, ensure_fc_additive, reconcile_port, reconcile_access, switched,
  set_port_serving,
}

-- Neither of the two commands that drop a target with its sessions.
abbrev pub KeepsTargets : Command → Type 0
KeepsTargets clear_config = ⊥
KeepsTargets (delete_target wwn) = ⊥
KeepsTargets (create_backstore name dev) = Unit {0}
KeepsTargets _ = Unit {0}

abbrev pub AllKeep : List Command → Type 0
AllKeep [] = Unit {0}
AllKeep (c ∷ cs) = KeepsTargets c × AllKeep cs

AllKeep-last :
    (cs : List Command) (c : Command) → AllKeep cs → KeepsTargets c → AllKeep (cs ++ c ∷ [])
AllKeep-last [] c all last = (last, tt)
AllKeep-last (d ∷ cs) c all last = (all.0, AllKeep-last cs c all.1 last)

module _ (env : Env) where
  -- From `before` on only commands that keep the targets were issued.
  pub record Added (before : List Command) (m : Machine env) : Type 0 where
    pub more : List Command
    pub issued_more : m.issued ≡ before ++ more
    pub all_keep : AllKeep more

  abbrev pub Adds : {E A : Type 0} → List Command → Exec (Machine env) E A → Type 0
  Adds before f = Triple (Added before) f (λ _. Added before) (λ _. Added before)

  pub Added-start : (m : Machine env) → Added m.issued m
  Added-start m = record { more = []; issued_more = rw append-nil; all_keep = tt }

  module _ {before : List Command} where
    -- What leaves the record of commands alone.
    pub Added-same : (m m' : Machine env) → m'.issued ≡ m.issued → Added before m → Added before m'
    Added-same m m' e a = record {
      more = a.more;
      issued_more = e ∙ a.issued_more;
      all_keep = a.all_keep;
    }

    pub look-Adds : {E A : Type 0} (f : env.World → A) → Adds {E = E} before (look env f)
    unfolding look
    look-Adds f = record { at = λ m a. a }

    pub on_db-Adds : {A : Type 0} (f : Exec (Server env) SqlError A) → Adds before (on_db env f)
    unfolding on_db
    on_db-Adds {A} f = record { at = λ m a. go m a (f m.server) }
      where
        go :
            (m : Machine env)
            → Added before m
            → (r : Result SqlError A × Server env)
            → Ends (λ _. Added before) (λ _. Added before) (put_back env m r)
        go m a (ok x, s) = Added-same m _ refl a
        go m a (err e, s) = Added-same m _ refl a

    pub on_server-Adds :
        {E A : Type 0} (f : Exec (Server env) ⊥ A) → Adds {E = E} before (on_server env f)
    unfolding on_server
    on_server-Adds {E} {A} f = record { at = λ m a. go m a (f m.server) }
      where
        go :
            (m : Machine env)
            → Added before m
            → (r : Result ⊥ A × Server env)
            → Ends {E = E} (λ _. Added before) (λ _. Added before) (put_value env m r)
        go m a (ok x, s) = Added-same m _ refl a
        go m a (err e, s) = absurd e

    pub each-Adds :
        {E A : Type 0} (f : A → Exec (Machine env) E (Unit {0})) (xs : List A)
        → ((x : A) → Adds before (f x))
        → Adds before (each env f xs)
    unfolding each
    each-Adds f [] h = triple_pure tt (λ m a. a)
    each-Adds f (x ∷ xs) h = triple_seq (h x) (each-Adds f xs h)

    pub observe-Adds :
        {E F A : Type 0} (f : Exec (Machine env) E A)
        → Adds before f
        → Adds {E = F} before (observe f)
    observe-Adds f t = triple_observe t (λ _ m a. a) (λ _ m a. a)

    module _ (plant : Plant env) where
      pub tc-Adds : (c : Command) → KeepsTargets c → Adds before (tc env plant c)
      unfolding tc
      tc-Adds c keeps = record { at = λ m a. go m a (plant.targetcli c m.server.world) }
        where
          longer :
              (m : Machine env) (w : env.World)
              → Added before m
              → Added before (record {
                server = (let server = m.server in record server { world = w });
                issued = m.issued ++ c ∷ [];
              })
          longer m w a = record {
            more = a.more ++ c ∷ [];
            issued_more = rw (a.issued_more, append_assoc);
            all_keep = AllKeep-last a.more c a.all_keep keeps;
          }

          go :
              (m : Machine env)
              → Added before m
              → (r : Bool × env.World)
              → Ends (λ _. Added before) (λ _. Added before) (answered env plant c m r)
          go m a (true, w) = longer m w a
          go m a (false, w) = longer m w a

      create_with-Adds :
          (port wwpn luns : List ℕ) → Adds before (create_with env plant port wwpn luns)
      unfolding create_with
      create_with-Adds port wwpn luns =
          triple_seq (tc-Adds _ tt) (each-Adds _ luns (λ lun. tc-Adds _ tt))

      reshape-Adds :
          (port wwpn luns live : List ℕ) → Adds before (reshape env plant port wwpn luns live)
      unfolding reshape
      reshape-Adds port wwpn luns live =
          triple_if (equal_ints luns live) (λ _. triple_pure tt (λ m a. a))
            (λ _. triple_seq (tc-Adds _ tt) (create_with-Adds port wwpn luns))

      reconcile_as-Adds :
          (here exists : Bool) (port wwpn luns : List ℕ)
          → Adds before (reconcile_as env plant here exists port wwpn luns)
      unfolding reconcile_as
      reconcile_as-Adds true false port wwpn luns = create_with-Adds port wwpn luns
      reconcile_as-Adds true true port wwpn luns =
          triple_bind (look-Adds _) (λ live. reshape-Adds port wwpn luns live)
      reconcile_as-Adds false true port wwpn luns = tc-Adds _ tt
      reconcile_as-Adds false false port wwpn luns = triple_pure tt (λ m a. a)

      pub reconcile_acls-Adds :
          (port : List ℕ) (rows : List InitiatorAcl) (want : List Binding)
          → Adds before (reconcile_acls env plant port rows want)
      unfolding reconcile_acls reconcile_row
      reconcile_acls-Adds port rows want =
          triple_bind (look-Adds _)
            (λ live. each-Adds _ rows (λ r. reconcile_as-Adds _ (live r) port r.wwpn _))

      pub serving_ports-Adds : {E : Type 0} → Adds {E = E} before (serving_ports env plant)
      unfolding serving_ports disabled_ports
      serving_ports-Adds =
          triple_bind (triple_bind (on_server-Adds _) (λ value. triple_pure _ (λ m a. a)))
            (λ dis. triple_bind (look-Adds _) (λ ports. triple_pure _ (λ m a. a)))

      create_luns-Adds :
          (wwn : List ℕ) (lun : ℕ) (want : List Binding)
          → Adds before (create_luns env plant wwn lun want)
      unfolding create_luns
      create_luns-Adds wwn lun [] = triple_pure tt (λ m a. a)
      create_luns-Adds wwn lun (b ∷ bs) =
          triple_seq (tc-Adds _ tt) (create_luns-Adds wwn (lun + 1) bs)

      pub create_fc_target-Adds :
          (wwn : List ℕ) (want : List Binding) → Adds before (create_fc_target env plant wwn want)
      unfolding create_fc_target
      create_fc_target-Adds wwn want =
          triple_seq (tc-Adds _ tt)
            (triple_seq (observe-Adds _ (tc-Adds _ tt)) (create_luns-Adds wwn 0 want))

      pub get_expected-Adds : (libs : List MhvtlLibrary) → Adds before (get_expected env plant libs)
      unfolding get_expected
      get_expected-Adds libs = triple_bind (look-Adds _) given-Adds
        where
          given-Adds : (r : Result Fault (List Binding)) → Adds before (given env plant r)
          given-Adds (ok bs) = triple_pure bs (λ m a. a)
          given-Adds (err f) = triple_exit f (λ m a. a)

      pub reuse_backstores-Adds :
          (live : List (List ℕ × List ℕ)) (want : List Binding)
          → Adds before (reuse_backstores env plant live want)
      unfolding reuse_backstores
      reuse_backstores-Adds live [] = triple_pure [] (λ m a. a)
      reuse_backstores-Adds live (b ∷ bs) =
          triple_bind (named-Adds (name_of b.dev live))
            (λ b'. triple_bind (reuse_backstores-Adds live bs) (λ bs'. triple_pure _ (λ m a. a)))
        where
          named-Adds : (o : Option (List ℕ)) → Adds before (named env plant b o)
          named-Adds (some name) = triple_pure _ (λ m a. a)
          named-Adds none = triple_seq (tc-Adds _ tt) (triple_pure _ (λ m a. a))
