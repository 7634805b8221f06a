-- ===== src/Rules/Service/Commands.antt =====
-- The methods of src/modules/rules/rules.service.ts on one rule, as steps of the history.
use manbaa_backend.Base.{String, ◌≡◌, none, some, Option}
use manbaa_backend.Json.{Fields}
use manbaa_backend.Session.Types.{RequestUser}
use manbaa_backend.Rules.Types.{CreateRuleDto, UpdateRuleDto}
use manbaa_backend.Rules.Service.{
  Env, State, create_rule, update_rule, activate, deactivate, soft_delete,
}
use manbaa_backend.Rules.Service.Changes.{RuleStep}
use manbaa_backend.Rules.Service.Consistency.{
  IsConsistent, IsStored, IsOrdered, RuleStep-IsStored, RuleStep-IsConsistent,
}
use manbaa_backend.Rules.Service.History.{IsRecorded, RuleStep-IsRecorded}
use manbaa_backend.Rules.Service.Steps.{
  create-RuleStep, update-RuleStep, activate-RuleStep, deactivate-RuleStep, delete-RuleStep,
}

module _ (env : Env) where
  pub data Command : Type 0 where
    create : String → CreateRuleDto → Command
    update : String → UpdateRuleDto → Command
    switch_on switch_off delete : String → Command

  -- The state after the call, whether it returns or throws.
  unfoldable pub execute : Command → RequestUser → State env → State env
  unfolding create_rule update_rule activate deactivate soft_delete
  execute (create uuid dto) caller s = (create_rule env uuid dto caller s).1
  execute (update id dto) caller s = (update_rule env id dto caller s).1
  execute (switch_on id) caller s = (activate env id caller s).1
  execute (switch_off id) caller s = (deactivate env id caller s).1
  execute (delete id) caller s = (soft_delete env id caller s).1

  -- The id that the database makes is new.
  abbrev pub IsFresh : Command → State env → Type 0
  IsFresh (create uuid dto) s = env.rules.get uuid s.rules ≡ none
  IsFresh _ s = Unit

  -- The condition that the call brings, if it brings one.
  abbrev pub condition_of : Command → Option (Option Fields)
  condition_of (create uuid dto) = some dto.condition
  condition_of (update id dto) = dto.condition
  condition_of _ = none

  -- Every method on one rule is a step of the specification of rules and versions, whether it returns or
  -- throws, if the id that the database makes is new.
  pub execute-RuleStep :
      (command : Command) (caller : RequestUser) (s : State env)
      → IsFresh command s
      → RuleStep env (condition_of command) s (execute command caller s)
  unfolding execute
  execute-RuleStep (create uuid dto) caller s fresh = create-RuleStep env uuid dto caller s fresh
  execute-RuleStep (update id dto) caller s fresh = update-RuleStep env id dto caller s
  execute-RuleStep (switch_on id) caller s fresh = activate-RuleStep env id caller s
  execute-RuleStep (switch_off id) caller s fresh = deactivate-RuleStep env id caller s
  execute-RuleStep (delete id) caller s fresh = delete-RuleStep env id caller s

  -- No method on one rule brings two active rules into one place that contradict each other, if there were
  -- none before, the id that the database makes is new, and the condition that the call brings has its
  -- properties in the order in which the column gives them back, as the stored conditions have; the stored
  -- conditions keep that order.
  pub execute-IsConsistent :
      (command : Command) (caller : RequestUser) (s : State env)
      → IsFresh command s
      → IsOrdered env (condition_of command)
      → IsStored env s
      → IsConsistent env s
      → IsStored env (execute command caller s) × IsConsistent env (execute command caller s)
  execute-IsConsistent command caller s fresh plain all consistent =
      let t = execute command caller s in
      let step = execute-RuleStep command caller s fresh in
      (RuleStep-IsStored env s t all step, RuleStep-IsConsistent env s t consistent plain all step)

  -- Every method on one rule keeps the history in order: a version that is kept is older than its rule, and
  -- a number of a rule never stands for two different versions, if the id that the database makes is new.
  pub execute-IsRecorded :
      (command : Command) (caller : RequestUser) (s : State env)
      → IsFresh command s
      → IsRecorded env s
      → IsRecorded env (execute command caller s)
  execute-IsRecorded command caller s fresh recorded =
      RuleStep-IsRecorded env s (execute command caller s) recorded
        (execute-RuleStep command caller s fresh)
