-- ===== src/Worker/RoleShares.antt =====
-- The three roles share the registry and the priority streams out without a gap or an overlap.
use ocean_data_engine_fronte.Prelude.{
  ℕ, suc, ◌+◌, ◌≡◌, refl, String, str_eq, List, [], ◌∷◌, Bool, true, ◌&&◌, arith, if◌then◌else◌,
  any, All, ◌==◌,
}
use ocean_data_engine_fronte.Prelude.Text.{codes}
use ocean_data_engine_fronte.Queue.Priority.{QueuePriority, priority_rank}
use ocean_data_engine_fronte.Worker.Roles.{
  Registry, default_handlers, handlers_for_role, priorities_for_role,
}

-- how many of the three roles own a handler, and a priority stream
abbrev owns : Registry → String → ℕ
owns registry name = if any (λ h. str_eq h.0 name) registry then 1 else 0

abbrev pub owners : String → ℕ
owners name =
    owns (handlers_for_role (codes "alerts") []) name
    + owns (handlers_for_role (codes "ingest") []) name
    + owns (handlers_for_role (codes "process") []) name

abbrev pub count_priority : QueuePriority → List QueuePriority → ℕ
count_priority p [] = 0
count_priority p (q ∷ qs) =
    let rest = count_priority p qs in if priority_rank p == priority_rank q then suc rest else rest

abbrev pub streams : QueuePriority → ℕ
streams p =
    count_priority p (priorities_for_role (codes "alerts"))
    + count_priority p (priorities_for_role (codes "ingest"))
    + count_priority p (priorities_for_role (codes "process"))

abbrev each : (String → Bool) → Registry → Bool
each test [] = true
each test (h ∷ hs) = test h.0 && each test hs

each_owned : each (λ name. owners name == 1) default_handlers ≡ true
unfolding handlers_for_role default_handlers
each_owned = refl

pub streams_one : (p : QueuePriority) → streams p ≡ 1
unfolding priorities_for_role
streams_one QueuePriority.critical_alerts = refl
streams_one _ = refl

each_sound :
    (test : String → Bool) (P : String → Type 0)
    → ((name : String) → test name ≡ true → P name)
    → (hs : Registry) → each test hs ≡ true
    → All (λ h. P h.0) hs
each_sound test P sound [] e = tt
each_sound test P sound (h ∷ hs) e =
    (sound h.0 (ground arith), each_sound test P sound hs (ground arith))

==_sound : (a : ℕ) → (a == 1) ≡ true → a ≡ 1
==_sound a h = ground arith

-- Every handler of the registry is owned by exactly one of the three roles, and every priority
-- stream is consumed by exactly one of them.
pub roles_partition :
    All (λ h. owners h.0 ≡ 1) default_handlers × ((p : QueuePriority) → streams p ≡ 1)
roles_partition = (
  each_sound (λ name. owners name == 1) (λ name. owners name ≡ 1) (λ name. ==_sound (owners name))
      default_handlers each_owned,
  streams_one,
)
