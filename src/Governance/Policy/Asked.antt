-- ===== src/Governance/Policy/Asked.antt =====
-- internal/usecase/governance/policy.go: whose approval an evaluation asks for, said without the keys and
-- the maps of the code.
use Prim.Native.Nat.{ℕ}
use Prim.Native.String.{◌++◌ as append}
use text.Mathlib.TextEquality.{eq_iff}
use proto_radar.Prelude.{
  String, ◌==◌, ◌≡◌, if◌then◌else◌, refl, sym, ap, ◌∙◌, Bool, true, not, ◌&&◌, ◌||◌, Option, none,
  some, List, [], ◌∷◌, any, arith, ltb, all_codes, to_lower, codes_eq, trim_space, Bool-cases, inl,
  inr,
}
use proto_radar.Prelude.Separators.{append_separator_inj, separated}
use proto_radar.Domain.Enums.{ApprovalRequirementType, approval_requirement_type_text}
use proto_radar.Governance.Types.{GovernanceRequirementPlan}
use proto_radar.Domain.Records.{RuntimeImpact}
use proto_radar.Governance.Policy.{
  EvaluatePolicyInput, PolicyAffectedModule, evaluate_policy, requirement_key, key_target,
  owner_plan, consumer_plan, used_in_production, production_names, production_runtime_modules,
}
use proto_radar.Governance.Policy.Requirements.{
  effective, needs_key, production_of, IsRequired, evaluate_policy_keys,
}

-- Whom a requirement asks: the module of the identifier, or of the name if it has none.
abbrev pub target_of : Option String → String → String
target_of none name = name
target_of (some id) name = if id == "" then name else id

abbrev pub asks : ApprovalRequirementType → String → GovernanceRequirementPlan → Bool
asks kind target r =
    approval_requirement_type_text r.requirement_type == approval_requirement_type_text kind
    && target_of r.target_module_id r.target_module_name == target

-- The name of an environment, trimmed and lowered, is one of the list, which is not empty.
abbrev pub is_environment : String → String → Bool
is_environment name environment =
    not (codes_eq (to_lower (trim_space environment)) [])
    && codes_eq (to_lower (trim_space name)) (to_lower (trim_space environment))

-- The module runs in an environment of production, or was marked so.
abbrev pub runs_in_production : EvaluatePolicyInput → PolicyAffectedModule → Bool
runs_in_production input a =
    a.production_used
    || any
        (λ (item : RuntimeImpact).
          item.used_module == a.module_name
          && any (is_environment item.environment) (effective input).production_environments)
        input.runtime_impact

is_type_code : ℕ → Bool
is_type_code c = ltb c 58 || ltb 58 c

type_plain :
    (kind : ApprovalRequirementType)
    → all_codes is_type_code (approval_requirement_type_text kind) ≡ true
unfolding is_type_code
type_plain ApprovalRequirementType.module_owner_approval = refl
type_plain ApprovalRequirementType.affected_consumer_approval = refl

abbrev key : ApprovalRequirementType → String → String
key kind target = append (approval_requirement_type_text kind) (append ":" target)

key_inj :
    (kind kind' : ApprovalRequirementType) (x y : String)
    → key kind x ≡ key kind' y
    → (approval_requirement_type_text kind ≡ approval_requirement_type_text kind') × (x ≡ y)
unfolding is_type_code
key_inj kind kind' x y e =
    append_separator_inj is_type_code _ (approval_requirement_type_text kind)
      (approval_requirement_type_text kind') x y refl (type_plain kind) (type_plain kind')
      (ap (append (approval_requirement_type_text kind)) (sym (separated _ x))
        ∙ (e ∙ ap (append (approval_requirement_type_text kind')) (separated _ y)))

key_eq :
    (kind kind' : ApprovalRequirementType) (x y : String)
    → (key kind x == key kind' y)
      ≡ (approval_requirement_type_text kind == approval_requirement_type_text kind' && x == y)
key_eq kind kind' x y = elim (Bool-cases (key kind x == key kind' y)) [
  | inl e ↦
      let (same, target) =
        key_inj kind kind' x y (ground (arith, e, eq_iff (key kind x) (key kind' y))) in
      ground (
        arith,
        e,
        same,
        target,
        eq_iff (approval_requirement_type_text kind) (approval_requirement_type_text kind'),
        eq_iff x y,
      )
  | inr e ↦ ground (
    arith,
    e,
    eq_iff (key kind x) (key kind' y),
    eq_iff (approval_requirement_type_text kind) (approval_requirement_type_text kind'),
    eq_iff x y,
  )
]

target_of_lem : (id : Option String) (name : String) → key_target id name ≡ target_of id name
target_of_lem none name = refl
target_of_lem (some id) name = refl

requirement_key-asks :
    (r : GovernanceRequirementPlan) (kind : ApprovalRequirementType) (target : String)
    → (requirement_key r == key kind target) ≡ asks kind target r
unfolding requirement_key
requirement_key-asks r kind target =
    key_eq r.requirement_type kind (key_target r.target_module_id r.target_module_name) target
    ∙ ap
        (λ x.
          approval_requirement_type_text r.requirement_type == approval_requirement_type_text kind
          && x == target)
        (target_of_lem r.target_module_id r.target_module_name)

any_same :
    {A : Type 0} (p q : A → Bool) → ((x : A) → p x ≡ q x) → (xs : List A) → any p xs ≡ any q xs
any_same p q h [] = refl
any_same p q h (x ∷ xs) = ground (arith, h x, any_same p q h xs)

-- The map of the names of the environments.
named_cases :
    (l name : List ℕ) (rest : List (List ℕ))
    → any (codes_eq name) (elim l [ [] ↦ rest | c ∷ cs ↦ (c ∷ cs) ∷ rest ])
      ≡ ((not (codes_eq l []) && codes_eq name l) || any (codes_eq name) rest)
named_cases [] name rest = refl
named_cases (c ∷ cs) name rest = refl

in_names :
    (name : String) (environments : List String)
    → any (codes_eq (to_lower (trim_space name))) (production_names environments)
      ≡ any (is_environment name) environments
unfolding production_names
in_names name [] = refl
in_names name (e ∷ rest) =
    named_cases (to_lower (trim_space e)) (to_lower (trim_space name)) (production_names rest)
    ∙ ap (λ b. is_environment name e || b) (in_names name rest)

in_modules :
    (name : String) (impact : List RuntimeImpact) (environments : List String)
    → any (λ n. n == name) (production_runtime_modules impact environments)
      ≡ any
          (λ (item : RuntimeImpact).
            item.used_module == name && any (is_environment item.environment) environments)
          impact
unfolding production_runtime_modules
in_modules name [] environments = refl
in_modules name (item ∷ impact) environments =
    elim (Bool-cases
      (any (codes_eq (to_lower (trim_space item.environment))) (production_names environments))) [
        | inl runs ↦ ground (
          arith,
          runs,
          in_names item.environment environments,
          in_modules name impact environments,
        )
        | inr idle ↦ ground (
          arith,
          idle,
          in_names item.environment environments,
          in_modules name impact environments,
        )
      ]

used-runs :
    (input : EvaluatePolicyInput) (a : PolicyAffectedModule)
    → used_in_production (production_of input) a ≡ runs_in_production input a
unfolding used_in_production
used-runs input a =
    ap (λ b. a.production_used || b)
      (in_modules a.module_name input.runtime_impact (effective input).production_environments)

consumer-asks :
    (input : EvaluatePolicyInput) (kind : ApprovalRequirementType) (target : String)
    (a : PolicyAffectedModule)
    → needs_key (production_of input) (effective input) (key kind target) a ≡ (
        runs_in_production input a
        && (approval_requirement_type_text ApprovalRequirementType.affected_consumer_approval
              == approval_requirement_type_text kind
            && target_of a.module_id a.module_name == target))
unfolding consumer_plan
consumer-asks input kind target a =
    rw (used-runs input a)
      (rw (requirement_key-asks (consumer_plan a (effective input)) kind target) refl)

-- For a breaking report under enabled governance, an approval of a kind is asked of a module exactly if
-- it is that of the owners of the report's module, or that of the consumers and the module is an affected
-- one that was marked as used in production or that the runtime impact shows in an environment whose
-- name, trimmed and lowered, is one of the non-empty ones of production. A module goes by its
-- identifier, or by its name if it has none.
pub evaluate_policy-asks :
    (input : EvaluatePolicyInput) (kind : ApprovalRequirementType) (target : String)
    → IsRequired input
    → any (asks kind target) (evaluate_policy input).requirements ≡ (
        (approval_requirement_type_text ApprovalRequirementType.module_owner_approval
            == approval_requirement_type_text kind
          && target_of (some input.report.module_id) input.report.module_name == target)
        || any
            (λ a.
              runs_in_production input a
              && (approval_requirement_type_text ApprovalRequirementType.affected_consumer_approval
                    == approval_requirement_type_text kind
                  && target_of a.module_id a.module_name == target))
            input.affected_modules)
unfolding owner_plan
evaluate_policy-asks input kind target h =
    sym
      (any_same _ _ (λ r. requirement_key-asks r kind target) (evaluate_policy input).requirements)
    ∙ (evaluate_policy_keys input (key kind target) h
        ∙ rw (requirement_key-asks (owner_plan input (effective input)) kind target) (
            ap
              (λ b.
                (approval_requirement_type_text ApprovalRequirementType.module_owner_approval
                    == approval_requirement_type_text kind
                  && target_of (some input.report.module_id) input.report.module_name == target)
                || b)
              (any_same _ _ (consumer-asks input kind target) input.affected_modules)))
