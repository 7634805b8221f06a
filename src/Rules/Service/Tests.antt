-- ===== src/Rules/Service/Tests.antt =====
-- Two mappings of one actor, and the theorems at concrete inputs.
use manbaa_backend.Base.{
  inl, inr, Bool, false, if◌then◌else◌, ◌==◌, ◌&&◌, Bool-cases, &&_true, eq_iff, String, ◌≡◌, refl,
  true, none, some, ◌⊎◌, map, List, [], ◌∷◌, arith,
}
use manbaa_backend.Exec.{ok, err, Failure}
use manbaa_backend.Json.{Json, Fields, field, end, str}
use manbaa_backend.Repository.Assoc.{assoc}
use manbaa_backend.Repository.Listing.{listing}
use manbaa_backend.Session.Types.{RequestUser}
use manbaa_backend.Rules.Types.{
  RuleType, RuleScope, Rule, CreateRuleDto, UpdateRuleDto, RuleBundleRuleDto,
}
use manbaa_backend.Rules.Service.{
  Env, State, assert_rule_manager, assert_scope_consistency, ensure_no_conflict, ensure_in,
}
use manbaa_backend.Rules.Service.Consistency.{IsConsistent, IsStored}
use manbaa_backend.Rules.Service.History.{IsRecorded}
use manbaa_backend.Rules.Service.Commands.{
  create, execute, execute-IsConsistent, execute-IsRecorded,
}
use manbaa_backend.Rules.Service.Import.{save_all, import_rules, import_all}

-- A `JSON.stringify` for the values of the test.
abbrev shown : Json → String
shown (str s) = s
shown _ = "?"

-- The column gives `source` before `target`, in an object of these two; any other object stays as it is.
abbrev turned : String → String → Bool
turned k k' = k == "target" && k' == "source"

abbrev sorted : Fields → Fields
sorted (field k v (field k' v' end)) =
    if turned k k' then field k' v' (field k v end) else field k v (field k' v' end)
sorted fs = fs

sorted_again : (fs : Fields) → sorted (sorted fs) ≡ sorted fs
sorted_again end = refl
sorted_again (field k v end) = refl
sorted_again (field k v (field k' v' (field k2 v2 fs))) = refl
sorted_again (field k v (field k' v' end)) = elim (Bool-cases (turned k k')) [
  | inr straight ↦ rw (straight, straight) refl
  | inl swap ↦
      let (_, source) = &&_true (k == "target") _ swap in
      let other : turned k' k ≡ false = rw ((eq_iff k' "source").0 source) refl in
      rw (swap, other) refl
]

abbrev env : Env
env = record {
  rules = assoc (λ r. r.id);
  rule_key = λ r. refl;
  rules_listing = listing (λ r. r.id);
  workflows = assoc (λ w. w.id);
  language = record { trim = λ s. s; stringify = shown };
  in_jsonb = sorted;
  in_jsonb_again = sorted_again;
}

abbrev manager : RequestUser
manager = record { id = "u1"; org_id = "o1"; role = "admin" }

abbrev viewer : RequestUser
viewer = record { id = "u2"; org_id = "o1"; role = "viewer" }

abbrev stranger : RequestUser
stranger = record { id = "u3"; org_id = "o2"; role = "admin" }

abbrev mapping : String → Fields
mapping target = field "source" (str "the boss") (field "target" (str target) end)

abbrev request : String → CreateRuleDto
request target = record {
  name = "Boss";
  description = none;
  kind = RuleType.actor_mapping;
  scope = RuleScope.org;
  workflow_id = none;
  target_agent = none;
  condition = some (mapping target);
  instruction = "map";
  priority = none;
}

abbrev rule : Rule
rule = record {
  id = "r1";
  org_id = "o1";
  workflow_id = none;
  name = "Boss";
  description = none;
  rule_type = RuleType.actor_mapping;
  scope = RuleScope.org;
  target_agent = none;
  condition = some (mapping "Director");
  instruction = "map";
  priority = 100;
  version = 1;
  is_active = true;
  created_by = "u1";
}

abbrev start : State env
start = record { rules = []; versions = []; workflows = []; cache = λ o. none; effects = [] }

abbrev stored : State env
stored = record start { rules = rule ∷ [] }

start-IsConsistent : IsConsistent env start
unfolding IsConsistent
start-IsConsistent i j a b ha hb apart on on' kind slot = absurd (ground (arith, ha))

start-IsStored : IsStored env start
unfolding IsStored
start-IsStored j r h = absurd (ground (arith, h))

start-IsRecorded : IsRecorded env start
start-IsRecorded = record { older = λ v h. absurd h; unique = λ v w h h' same equal. absurd h }

created : (execute env (create "r1" (request "Director")) manager start).rules ≡ rule ∷ []
unfolding execute assert_rule_manager assert_scope_consistency ensure_no_conflict ensure_in
created = refl

execute-IsConsistent_example :
    let t = execute env (create "r1" (request "Director")) manager start in
    IsStored env t × IsConsistent env t
execute-IsConsistent_example =
    execute-IsConsistent env (create "r1" (request "Director")) manager start refl refl
      start-IsStored start-IsConsistent

execute-IsRecorded_example :
    IsRecorded env (execute env (create "r1" (request "Director")) manager start)
execute-IsRecorded_example =
    execute-IsRecorded env (create "r1" (request "Director")) manager start refl start-IsRecorded

abbrev urgent : UpdateRuleDto
urgent = record { instruction = none; condition = none; priority = some 200; is_active = none }

-- What `assert_rule_manager` answers to two managers.
home : assert_rule_manager env manager stored ≡ (ok tt, stored)
unfolding assert_rule_manager
home = refl

away : assert_rule_manager env stranger stored ≡ (ok tt, stored)
unfolding assert_rule_manager
away = refl

scoped : assert_scope_consistency env RuleScope.org none none "o1" stored ≡ (ok tt, stored)
unfolding assert_scope_consistency
scoped = refl

abbrev bundle : List (String × RuleBundleRuleDto)
bundle = ("r2", record { rule = request "Clerk"; version = none; is_active = none }) ∷ []

import_all_example :
    (((e : Failure) × ((import_rules env 0 bundle manager stored).0 ≡ err e)
        × ((import_rules env 0 bundle manager stored).1.rules ≡ stored.rules))
      ⊎ ((saved : List Rule) × ((import_rules env 0 bundle manager stored).0 ≡ ok saved)
          × (map (λ (r : Rule). r.id) saved ≡ "r2" ∷ [])
          × ((import_rules env 0 bundle manager stored).1.rules ≡ save_all env saved stored.rules)))
    × ((import_rules env 0 bundle manager stored).1.versions ≡ stored.versions)
import_all_example = import_all env 0 bundle manager stored
